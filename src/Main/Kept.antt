-- ===== src/Main/Kept.antt =====
-- What the start of src/main.c keeps of the table of the ports.
use pkt_sender.Prelude.{
  ℕ, zero, suc, ◌<◌, ◌≡◌, ◌≢◌, refl, ◌∙◌, arith, inl, inr, Bool, true, false, List, [], ◌∷◌, ltb,
  leb, ◌==◌, get_or, set, bit_and, ◌^◌, ltb→lt, Bool-cases,
}
use pkt_sender.Control.Defs.{max_port_per_job}
use pkt_sender.Port.Defs.{
  PortInfo, Ports, cleared, port_is_enabled, port_update_lcore, parse_ports, port_parse_opt,
}
use pkt_sender.Port.Owned.{IdsMatch, port_parse_opt-IdsMatch}
use pkt_sender.Config.Defs.{LcoreParams}
use pkt_sender.Config.Assign.{Assigned, assign_one, init_lcore_port}

-- A table that is there, and whose entries bear their numbers.
pub record IsTable (ports : Ports) : Type 0 where
  pub ids : IdsMatch ports
  pub not_null : ports.port_list ≢ []

-- The entry of a port after a write of its lcores.
module _ (lcores : List ℕ → List ℕ) where
  abbrev touched : PortInfo → PortInfo
  touched p = record p { lcore_map = lcores p.lcore_map }

  set-kept :
      (l : List PortInfo) (k i : ℕ)
      → ((get_or (set l k (touched (get_or l k cleared))) i cleared).id ≡ (get_or l i cleared).id)
        × ((get_or (set l k (touched (get_or l k cleared))) i cleared).is_enabled
            ≡ (get_or l i cleared).is_enabled)
  set-kept [] k i = (refl, refl)
  set-kept (p ∷ l) zero zero = (refl, refl)
  set-kept (p ∷ l) zero (suc i) = (refl, refl)
  set-kept (p ∷ l) (suc k) zero = (refl, refl)
  set-kept (p ∷ l) (suc k) (suc i) = set-kept l k i

set-nonempty : (l : List PortInfo) (k : ℕ) (p : PortInfo) → l ≢ [] → set l k p ≢ []
set-nonempty [] k p ne e = ne refl
set-nonempty (q ∷ l) zero p ne e = cc
set-nonempty (q ∷ l) (suc k) p ne e = cc

port_update_lcore-IsTable :
    (ports : Ports) (portid lcoreid job : ℕ)
    → IsTable ports
    → IsTable (port_update_lcore ports portid lcoreid job)
unfolding port_update_lcore port_is_enabled
port_update_lcore-IsTable ports portid lcoreid job t = record {
  ids = λ i e.
      let (same_id, same_enabled) = set-kept (λ l. set l job lcoreid) ports.port_list portid i in
      same_id ∙ t.ids i (rw same_enabled at e);
  not_null = set-nonempty ports.port_list portid _ t.not_null;
}

assign_one-IsTable :
    (stat_lcore : ℕ) (p : LcoreParams) (s : Assigned)
    → IsTable s.ports
    → IsTable (assign_one stat_lcore p s).0.ports
unfolding assign_one
assign_one-IsTable stat_lcore p s t =
    elim (Bool-cases (leb max_port_per_job (s.jobs p.lcore_id p.job).nb_ports)) [
      | inl full ↦ rw full t
      | inr free ↦ rw free (elim (Bool-cases (p.lcore_id == stat_lcore)) [
        | inl e ↦ rw e t
        | inr e ↦ rw e (port_update_lcore-IsTable s.ports p.port_id p.lcore_id p.job t)
      ])
    ]

pub init_lcore_port-IsTable :
    (stat_lcore : ℕ) (params : List LcoreParams) (s : Assigned)
    → IsTable s.ports
    → IsTable (init_lcore_port stat_lcore params s).0.ports
unfolding init_lcore_port
init_lcore_port-IsTable stat_lcore [] s t = t
init_lcore_port-IsTable stat_lcore (p ∷ params) s t =
    let t' = assign_one-IsTable stat_lcore p s t in
    elim (Bool-cases (assign_one stat_lcore p s).1) [
      | inl fits ↦
          rw fits (init_lcore_port-IsTable stat_lcore params (assign_one stat_lcore p s).0 t')
      | inr full ↦ rw full t'
    ]

-- A mask that selects a port leaves a table.
parse_ports-nonempty :
    (rte_max_lcore portmask n i : ℕ)
    → 0 < (parse_ports rte_max_lcore portmask n i).1
    → (parse_ports rte_max_lcore portmask n i).0 ≢ []
unfolding parse_ports
parse_ports-nonempty rte_max_lcore portmask zero i h = absurd (omega arith)
parse_ports-nonempty rte_max_lcore portmask (suc n) i h =
    elim (Bool-cases (bit_and portmask (2 ^ i) == 0)) [
      | inl e ↦ rw e (λ f. cc)
      | inr e ↦ rw e (λ f. cc)
    ]

pub port_parse_opt-IsTable :
    (rte_max_lcore nb portmask : ℕ) (memory : Bool)
    → ltb (port_parse_opt rte_max_lcore nb memory portmask).1 1 ≡ false
    → IsTable (port_parse_opt rte_max_lcore nb memory portmask).0
unfolding port_parse_opt
port_parse_opt-IsTable rte_max_lcore nb portmask false h = absurd (ground arith)
port_parse_opt-IsTable rte_max_lcore nb portmask true h = record {
  ids = port_parse_opt-IdsMatch rte_max_lcore nb portmask;
  not_null = elim (Bool-cases (ltb 0 (parse_ports rte_max_lcore portmask nb 0).1)) [
    | inl e ↦ rw e (parse_ports-nonempty rte_max_lcore portmask nb 0 (ltb→lt _ _ e))
    | inr e ↦ absurd (ground arith)
  ];
}
