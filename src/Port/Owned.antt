-- ===== src/Port/Owned.antt =====
-- The memory pools that the table of the ports has, in src/port.c.
use pkt_sender.Prelude.{
  ℕ, zero, suc, ◌+◌, ◌≡◌, ◌≢◌, refl, sym, ap, subst, ◌∙◌, arith, inl, inr, Bool, true, false, not,
  ◌&&◌, List, [], ◌++◌, some, ◌==◌, Bool-cases, ℕ_discrete, get_or,
}
use pkt_sender.Port.Defs.{Ports, cleared, port_is_enabled, parse_ports, port_parse_opt}
use pkt_sender.Port.Pools.{Pool, PortPools, PoolTable, no_pools, PortCall}
use pkt_sender.Port.Setup.{free_pools, set_pools, port_free_single}
use pkt_sender.Port.Tracked.{
  track, held, has, port_of, track-append, free_pools-tracked, free_pools-tracked_elsewhere,
}

-- Whether the table has the pool.
abbrev pub owns : PoolTable → Pool → Bool
owns table x = has x (table (port_of x))

-- The entries of the enabled ports bear their numbers.
abbrev pub IdsMatch : Ports → Type 0
IdsMatch ports =
    (i : ℕ) → port_is_enabled ports i ≡ true → (get_or ports.port_list i cleared).id ≡ i

module _ (ports : Ports) (x : Pool) where
  -- The table has `x` at most once, at the port of its name, and only if the port is enabled.
  pub record Fits (table : PoolTable) : Type 0 where
    pub apart : (held x (table (port_of x)).rx_mp && held x (table (port_of x)).tx_mp) ≡ false
    pub elsewhere : (i : ℕ) → i ≢ port_of x → has x (table i) ≡ false
    pub disabled : port_is_enabled ports (port_of x) ≡ false → owns table x ≡ false

  pub record Goes (table table' : PoolTable) (calls : List PortCall) : Type 0 where
    pub tracked : track x (owns table x) calls ≡ some (owns table' x)
    pub fits : Fits table'

  pub Goes-none : (table : PoolTable) → Fits table → Goes table table []
  unfolding track
  Goes-none table f = record { tracked = refl; fits = f }

  pub Goes-trans :
      {t t' t'' : PoolTable} {calls calls' : List PortCall}
      → Goes t t' calls
      → Goes t' t'' calls'
      → Goes t t'' (calls ++ calls')
  Goes-trans {t} {t'} {t''} {calls} {calls'} g h = record {
    tracked = track-append x (owns t x) (owns t' x) (owns t'' x) calls calls' g.tracked h.tracked;
    fits = h.fits;
  }

  -- One entry is replaced.
  pub set_pools-Goes :
      (table : PoolTable) (i : ℕ) (pools : PortPools) (calls : List PortCall)
      → Fits table
      → port_is_enabled ports i ≡ true
      → (i ≡ port_of x → track x (has x (table i)) calls ≡ some (has x pools))
      → ((held x pools.rx_mp && held x pools.tx_mp) ≡ false)
      → (i ≢ port_of x → (b : Bool) → track x b calls ≡ some b)
      → (i ≢ port_of x → has x pools ≡ false)
      → Goes table (set_pools table i pools) calls
  set_pools-Goes table i pools calls f on here apart other clear = elim (ℕ_discrete i (port_of x)) [
    | yes e ↦
        let eq : (port_of x == i) ≡ true = ground arith in
        record {
          tracked =
              rw eq (
                subst (λ (k : ℕ). track x (has x (table k)) calls ≡ some (has x pools)) e (here e));
          fits = record {
            apart = rw eq apart;
            elsewhere =
                λ j ne. let jn : (j == i) ≡ false = ground arith in rw jn (f.elsewhere j ne);
            disabled = λ off. absurd (
                let c : true ≡ false = sym on ∙ (ap (λ (k : ℕ). port_is_enabled ports k) e) ∙ off in
                cc);
          };
        }
    | no ne ↦
        let eq : (port_of x == i) ≡ false = ground arith in
        record {
          tracked = rw eq (other ne (owns table x));
          fits = record {
            apart = rw eq f.apart;
            elsewhere = λ j nj. elim (Bool-cases (j == i)) [
              | inl s ↦ rw s (clear ne)
              | inr s ↦ rw s (f.elsewhere j nj)
            ];
            disabled = λ off. rw eq (f.disabled off);
          };
        }
  ]

  pub port_free_single-Goes :
      (table : PoolTable) (i : ℕ)
      → Fits table
      → Goes table (port_free_single ports table i).0 (port_free_single ports table i).1
  unfolding port_free_single free_pools
  port_free_single-Goes table i f = elim (Bool-cases (port_is_enabled ports i)) [
    | inr off ↦ rw off (Goes-none table f)
    | inl on ↦ rw on (
        set_pools-Goes table i no_pools (free_pools (table i)).1 f on
          (λ e. free_pools-tracked x (table i) (
            subst (λ (k : ℕ). (held x (table k).rx_mp && held x (table k).tx_mp) ≡ false) (sym e)
              f.apart))
          refl (λ ne b. free_pools-tracked_elsewhere x (table i) b (f.elsewhere i ne)) (λ ne. refl))
  ]

-- The masks give each enabled port its number.
parse_ports-id :
    (rte_max_lcore portmask n i k : ℕ)
    → not ((get_or (parse_ports rte_max_lcore portmask n i).0 k cleared).is_enabled == 0) ≡ true
    → (get_or (parse_ports rte_max_lcore portmask n i).0 k cleared).id ≡ i + k
unfolding parse_ports
parse_ports-id rte_max_lcore portmask zero i k h = cc
parse_ports-id rte_max_lcore portmask (suc n) i zero h = ground arith
parse_ports-id rte_max_lcore portmask (suc n) i (suc k) h =
    ground (arith, parse_ports-id rte_max_lcore portmask n (i + 1) k)

pub port_parse_opt-IdsMatch :
    (rte_max_lcore nb portmask : ℕ) → IdsMatch (port_parse_opt rte_max_lcore nb true portmask).0
unfolding port_parse_opt port_is_enabled
port_parse_opt-IdsMatch rte_max_lcore nb portmask i e =
    ground (arith, parse_ports-id rte_max_lcore portmask nb 0 i)
