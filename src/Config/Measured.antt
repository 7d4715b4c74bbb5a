-- ===== src/Config/Measured.antt =====
-- The mappings for measurement that follow those that the check keeps.
use pkt_sender.Prelude.{
  ℕ, zero, suc, ◌+◌, ◌≤◌, ◌<◌, ◌≡◌, refl, sym, ap, ◌∙◌, inl, inr, true, false, List, [], ◌∷◌, ◌++◌,
  Option, some, arith, if◌then◌else◌, leb, length, take, set, length-set, length-take, Bool-cases,
  dec_lt,
}
use pkt_sender.Port.Defs.{port_is_enabled}
use pkt_sender.Config.Defs.{
  LcoreParams, Machine, max_lcore_params, measurement, add_measurements, check_loop, check_mapping,
}
use pkt_sender.Prelude.Slots.{take-set}
use pkt_sender.Config.Kept.{kept, Compacts, check_loop-Compacts}
use mathlib.Core.List.{append-nil, append_assoc}

-- One for each enabled port.
unfoldable pub measurements : Machine → ℕ → ℕ → List LcoreParams
measurements m zero i = []
measurements m (suc n) i =
    let rest = measurements m n (suc i) in
    if port_is_enabled m.ports i then measurement m i ∷ rest else rest

take-append :
    (n : ℕ) (xs ys : List LcoreParams) → length xs ≡ n → take (n + 1) (xs ++ ys) ≡ xs ++ take 1 ys
take-append n [] ys e = ap (λ (k : ℕ). take k ys) {x = n + 1} {y = 1} (omega arith)
take-append zero (x ∷ xs) ys e = absurd (omega arith)
take-append (suc n) (x ∷ xs) ys e =
    ap (λ (k : ℕ). take k (x ∷ xs ++ ys)) {x = suc n + 1} {y = suc (n + 1)} (omega arith)
    ∙ ap (λ (t : List LcoreParams). x ∷ t) (take-append n xs ys (omega arith))

take-all : (n : ℕ) (xs : List LcoreParams) → length xs ≤ n → take n xs ≡ xs
take-all zero [] h = refl
take-all zero (x ∷ xs) h = absurd (omega arith)
take-all (suc n) [] h = refl
take-all (suc n) (x ∷ xs) h = ap (λ (t : List LcoreParams). x ∷ t) (take-all n xs (omega arith))

-- The loop has ended, with these mappings up to `real_cnt`.
abbrev pub Gives : Option (List LcoreParams × ℕ) → List LcoreParams → Type 0
Gives result mappings =
    (done : List LcoreParams × ℕ) × (result ≡ some done) × (take done.1 done.0 ≡ mappings)

module _ (m : Machine) (n i real_cnt : ℕ) (params : List LcoreParams)
    (size : length params ≡ max_lcore_params) (lt : real_cnt < max_lcore_params)
    (enabled : port_is_enabled m.ports i ≡ true) where
  abbrev written : List LcoreParams
  written = set params real_cnt (measurement m i)

  abbrev wanted : List LcoreParams
  wanted = take max_lcore_params (take real_cnt params ++ measurements m (suc n) i)

  free : leb max_lcore_params real_cnt ≡ false
  free = ground arith

  one_more : take (suc real_cnt) written ≡ take real_cnt params ++ (measurement m i ∷ [])
  one_more = take-set real_cnt params (measurement m i) (omega arith)

  adds :
      suc real_cnt < max_lcore_params
      → Gives
          (add_measurements m n (suc i) written (suc real_cnt))
          (take max_lcore_params (take (suc real_cnt) written ++ measurements m n (suc i)))
      → Gives (add_measurements m (suc n) i params real_cnt) wanted
  unfolding add_measurements measurements
  adds more (done, e, mappings) = rw (enabled, free, room) (done, e, mappings ∙ same)
    where
      room : leb max_lcore_params (suc real_cnt) ≡ false
      room = ground arith

      same :
          take max_lcore_params (take (suc real_cnt) written ++ measurements m n (suc i))
          ≡ take max_lcore_params
              (take real_cnt params ++ (measurement m i ∷ measurements m n (suc i)))
      same =
          rw
            (
              one_more,
              append_assoc (take real_cnt params) (measurement m i ∷ []) (measurements m n (suc i)),
            )
            refl

  fills :
      suc real_cnt ≡ max_lcore_params → Gives (add_measurements m (suc n) i params real_cnt) wanted
  unfolding add_measurements measurements
  fills full = rw (enabled, free, no_room) ((written, suc real_cnt), refl, one_more ∙ sym cut)
    where
      no_room : leb max_lcore_params (suc real_cnt) ≡ true
      no_room = ground arith

      cut :
          take max_lcore_params
            (take real_cnt params ++ (measurement m i ∷ measurements m n (suc i)))
          ≡ take real_cnt params ++ (measurement m i ∷ [])
      cut =
          ap
            (λ (k : ℕ).
              take k (take real_cnt params ++ (measurement m i ∷ measurements m n (suc i))))
            {x = max_lcore_params} {y = real_cnt + 1} (omega arith)
          ∙ take-append real_cnt (take real_cnt params) (measurement m i ∷ measurements m n (suc i))
              (omega (arith, length-take real_cnt params))

module _ (m : Machine) where
  add_measurements-Gives :
      (n i real_cnt : ℕ) (params : List LcoreParams)
      → length params ≡ max_lcore_params
      → real_cnt < max_lcore_params
      → Gives
          (add_measurements m n i params real_cnt)
          (take max_lcore_params (take real_cnt params ++ measurements m n i))
  unfolding add_measurements measurements
  add_measurements-Gives zero i real_cnt params size lt = (
    (params, real_cnt),
    refl,
    sym (
        ap (take max_lcore_params) (append-nil (take real_cnt params))
        ∙ take-all max_lcore_params (take real_cnt params)
            (omega (arith, length-take real_cnt params))),
  )
  add_measurements-Gives (suc n) i real_cnt params size lt =
      elim (Bool-cases (port_is_enabled m.ports i)) [
        | inr e ↦ rw e (add_measurements-Gives n (suc i) real_cnt params size lt)
        | inl e ↦ elim (dec_lt (suc real_cnt) max_lcore_params) [
          | yes more ↦ adds m n i real_cnt params size lt e more (
              add_measurements-Gives n (suc i) (suc real_cnt)
                (set params real_cnt (measurement m i))
                (length-set params real_cnt (measurement m i) ∙ size) more)
          | no over ↦ fills m n i real_cnt params size lt e (omega arith)
        ]
      ]

-- For an array of 128 entries with up to 128 mappings, of which fewer than 128 are kept,
-- `__check_mapping` writes nothing behind the array, and leaves in front the mappings kept and
-- then one for each enabled port on the statistics lcore, cut off at 128.
pub check_mapping-Gives :
    (m : Machine) (params : List LcoreParams) (nb : ℕ)
    → length params ≡ max_lcore_params
    → nb ≤ max_lcore_params
    → (check_loop m nb 0 params 0).1 < max_lcore_params
    → Gives
        (check_mapping m params nb)
        (take max_lcore_params (kept m [] (take nb params) ++ measurements m m.nb_ports 0))
unfolding check_mapping
check_mapping-Gives m params nb size le lt = rw done.entries at (
    add_measurements-Gives m m.nb_ports 0 (check_loop m nb 0 params 0).1
      (check_loop m nb 0 params 0).0 (done.same_length ∙ size) lt)
  where
    done : Compacts m nb 0 0 params (check_loop m nb 0 params 0)
    done = check_loop-Compacts m nb 0 0 params (omega arith) (omega arith)
