-- ===== src/Args/Stale.antt =====
-- `__parse_config` of src/main.c where `errno` is set before it.
use pkt_sender.Prelude.{
  ℕ, ◌≡◌, refl, ap, inl, inr, ◌⊎◌, Bool, true, List, [], ◌∷◌, Option, none, some, leb, length,
  Bool-cases,
}
use pkt_sender.Config.Defs.{LcoreParams}
use pkt_sender.Args.Defs.{
  TextCalls, split_at, str_to_uint8, ConfigEnd, refused, accepted, entry_lcore, parse_fields,
  parse_entry, with_entry, parse_open, parse_next, parse_loop, parse_config,
}

module _ (calls : TextCalls) where
  parse_fields-stale : (fields : List (List ℕ)) → parse_fields calls true fields ≡ (true, none)
  unfolding parse_fields str_to_uint8 entry_lcore
  parse_fields-stale [] = refl
  parse_fields-stale (a ∷ []) = refl
  parse_fields-stale (a ∷ b ∷ []) = refl
  parse_fields-stale (a ∷ b ∷ c ∷ []) = refl
  parse_fields-stale (a ∷ b ∷ c ∷ d ∷ s) = refl

  parse_entry-stale : (str : List ℕ) → parse_entry calls true str ≡ (true, none)
  unfolding parse_entry
  parse_entry-stale str = elim (Bool-cases (leb 256 (length str))) [
    | inl e ↦ rw e refl
    | inr e ↦ rw e (parse_fields-stale (calls.rte_strsplit str))
  ]

  parse_open-stale :
      (o : Option (List ℕ × List ℕ)) (next : List ℕ → Bool → List LcoreParams → ConfigEnd)
      → parse_open calls true [] o next ≡ refused true
  unfolding parse_open with_entry
  parse_open-stale none next = refl
  parse_open-stale (some (str, after)) next =
      ap (λ (e : Bool × Option LcoreParams). with_entry calls e [] (next after))
        (parse_entry-stale str)

  parse_next-stale :
      (o : Option (List ℕ × List ℕ)) (next : List ℕ → Bool → List LcoreParams → ConfigEnd)
      → (parse_next calls true [] o next ≡ refused true)
        ⊎ (parse_next calls true [] o next ≡ accepted true [])
  unfolding parse_next
  parse_next-stale none next = inr refl
  parse_next-stale (some (before, p)) next = inl (parse_open-stale (split_at 41 p) next)

  -- Where `errno` is set before, no text gives a mapping: it is refused, or has none.
  pub parse_config-stale :
      (q_arg : List ℕ)
      → (parse_config calls true q_arg ≡ refused true)
        ⊎ (parse_config calls true q_arg ≡ accepted true [])
  unfolding parse_config parse_loop
  parse_config-stale q_arg =
      parse_next-stale (split_at 40 q_arg)
        (λ p errno params. parse_loop calls (length q_arg) p errno params)
