-- ===== src/Port/Mask.antt =====
-- Which ports a port mask enables.
use pkt_sender.Prelude.{
  ℕ, zero, suc, ◌+◌, ◌^◌, ◌<◌, bit_and, ◌≡◌, refl, ap, ◌∙◌, inl, inr, Bool, true, false, not, ◌&&◌,
  arith, ltb, leb, ◌==◌, get_or, Bool-cases, dec_lt,
}
use native.Mathlib.Nat.{zero-add}
use pkt_sender.Port.Defs.{cleared, port_is_enabled, parse_ports, port_parse_opt}

-- Bit `p` of a mask.
abbrev pub in_mask : ℕ → ℕ → Bool
in_mask portmask p = not (bit_and portmask (2 ^ p) == 0)

parse_ports-enabled :
    (rte_max_lcore portmask n i p : ℕ)
    → p < n
    → not ((get_or (parse_ports rte_max_lcore portmask n i).0 p cleared).is_enabled == 0)
      ≡ in_mask portmask (i + p)
unfolding parse_ports
parse_ports-enabled m mask zero i p h = absurd (omega arith)
parse_ports-enabled m mask (suc n) i zero h = elim (Bool-cases (bit_and mask (2 ^ i) == 0)) [
  | inl e ↦ rw (same, e) refl
  | inr e ↦ rw (same, e) refl
]
  where
    same : i + 0 ≡ i
    same = omega arith
parse_ports-enabled m mask (suc n) i (suc p) h = elim (Bool-cases (bit_and mask (2 ^ i) == 0)) [
  | inl e ↦ rw e (rw next at (parse_ports-enabled m mask n (i + 1) p (omega arith)))
  | inr e ↦ rw e (rw next at (parse_ports-enabled m mask n (i + 1) p (omega arith)))
]
  where
    next : i + 1 + p ≡ i + suc p
    next = omega arith

-- Where there is memory for the table and `port_parse_opt` counts an enabled port,
-- `port_is_enabled` holds of exactly the devices whose bit is in the mask.
pub port_parse_opt-enabled :
    (rte_max_lcore nb portmask p : ℕ)
    → 0 < (port_parse_opt rte_max_lcore nb true portmask).1
    → port_is_enabled (port_parse_opt rte_max_lcore nb true portmask).0 p
      ≡ (ltb p nb && in_mask portmask p)
unfolding port_parse_opt port_is_enabled
port_parse_opt-enabled m nb mask p some_port =
    elim (Bool-cases (ltb 0 (parse_ports m mask nb 0).1)) [
      | inr f ↦ absurd (none_left f)
      | inl f ↦ rw f (elim (dec_lt p nb) [ yes h ↦ inside h | no h ↦ outside h ])
    ]
  where
    none_left : ltb 0 (parse_ports m mask nb 0).1 ≡ false → ⊥
    none_left f = let counted : 0 < (parse_ports m mask nb 0).1 = rw f at some_port in ground arith

    inside :
        p < nb
        → port_is_enabled (record { port_nb_max = nb; port_list = (parse_ports m mask nb 0).0 }) p
          ≡ (ltb p nb && in_mask mask p)
    inside h =
        rw (beyond, below) (parse_ports-enabled m mask nb 0 p h ∙ ap (in_mask mask) (zero-add p))
      where
        beyond : leb nb p ≡ false
        beyond = ground arith

        below : ltb p nb ≡ true
        below = ground arith

    outside :
        ¬ (p < nb)
        → port_is_enabled (record { port_nb_max = nb; port_list = (parse_ports m mask nb 0).0 }) p
          ≡ (ltb p nb && in_mask mask p)
    outside h = rw (beyond, below) refl
      where
        beyond : leb nb p ≡ true
        beyond = ground arith

        below : ltb p nb ≡ false
        below = ground arith
