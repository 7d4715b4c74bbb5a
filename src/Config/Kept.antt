-- ===== src/Config/Kept.antt =====
-- The mappings that the check keeps, as a list, and that the array holds them.
use pkt_sender.Prelude.{
  ℕ, zero, suc, ◌+◌, ◌≤◌, ◌<◌, ◌≡◌, refl, ap₂, ◌∙◌, inl, inr, Bool, true, false, not, ◌&&◌, ◌||◌,
  List, [], ◌∷◌, ◌++◌, arith, if◌then◌else◌, ltb, length, take, drop, get_or, length-set,
  Bool-cases, dec_lt,
}
use pkt_sender.Config.Defs.{
  LcoreParams, Machine, unset, is_valid, same_queue, is_dup, check_one, check_loop,
}
use pkt_sender.Prelude.Slots.{take-get_or, drop-get_or, take-set, drop-set}

-- Some mapping of the list is for the same queue.
unfoldable pub clashes : LcoreParams → List LcoreParams → Bool
clashes p [] = false
clashes p (q ∷ qs) = same_queue p q || clashes p qs

unfoldable pub keep : Machine → List LcoreParams → LcoreParams → List LcoreParams
keep m acc p = if is_valid m p && not (clashes p acc) then acc ++ (p ∷ []) else acc

-- Of `params`, after those in `acc`, each valid one whose queue has no mapping yet.
unfoldable pub kept : Machine → List LcoreParams → List LcoreParams → List LcoreParams
kept m acc [] = acc
kept m acc (p ∷ params) = kept m (keep m acc p) params

is_dup-clashes :
    (p : LcoreParams) (params : List LcoreParams) (n j : ℕ)
    → j + n ≤ length params
    → is_dup p params n j ≡ clashes p (take n (drop j params))
unfolding is_dup clashes
is_dup-clashes p params zero j h = refl
is_dup-clashes p params (suc n) j h =
    rw (drop-get_or j params unset (omega arith))
      (elim (Bool-cases (same_queue p (get_or params j unset))) [
        | inl e ↦ rw e refl
        | inr e ↦ rw e (is_dup-clashes p params n (suc j) (omega arith))
      ])

-- What a round leaves of the array `params` and of the count `real_cnt`.
record Step (m : Machine) (i real_cnt : ℕ) (params : List LcoreParams)
    (result : List LcoreParams × ℕ) : Type 0 where
  entries : take result.1 result.0 ≡ keep m (take real_cnt params) (get_or params i unset)
  later : drop (suc i) result.0 ≡ drop (suc i) params
  same_length : length result.0 ≡ length params
  bounded : result.1 ≤ suc i

module _ (m : Machine) (i real_cnt : ℕ) (params : List LcoreParams) (le : real_cnt ≤ i)
    (lt : i < length params) where
  abbrev current : LcoreParams
  current = get_or params i unset

  abbrev is_kept : Bool
  is_kept = is_valid m current && not (clashes current (take real_cnt params))

  no_dup : is_dup current params real_cnt 0 ≡ clashes current (take real_cnt params)
  no_dup = is_dup-clashes current params real_cnt 0 (omega arith)

  skips : is_kept ≡ false → Step m i real_cnt params (check_one m i params real_cnt)
  unfolding check_one keep
  skips e =
      rw (no_dup, e)
        record { entries = rw e refl; later = refl; same_length = refl; bounded = omega arith }

  moves : real_cnt < i → is_kept ≡ true → Step m i real_cnt params (check_one m i params real_cnt)
  unfolding check_one keep
  moves below e =
      rw (no_dup, e, is_below)
        record {
          entries = rw e (take-set real_cnt params current (omega arith));
          later = drop-set real_cnt (suc i) params current (omega arith);
          same_length = length-set params real_cnt current;
          bounded = omega arith;
        }
    where
      is_below : ltb real_cnt i ≡ true
      is_below = ground arith

  stays : real_cnt ≡ i → is_kept ≡ true → Step m i real_cnt params (check_one m i params real_cnt)
  unfolding check_one keep
  stays same e =
      rw (no_dup, e, not_below)
        record {
          entries = rw e (rw same (take-get_or i params unset lt));
          later = refl;
          same_length = refl;
          bounded = omega arith;
        }
    where
      not_below : ltb real_cnt i ≡ false
      not_below = ground arith

  check_one-Step : Step m i real_cnt params (check_one m i params real_cnt)
  check_one-Step = elim (Bool-cases is_kept) [
    | inr e ↦ skips e
    | inl e ↦ elim (dec_lt real_cnt i) [
      | yes below ↦ moves below e
      | no over ↦ stays (omega arith) e
    ]
  ]

pub record Compacts (m : Machine) (n i real_cnt : ℕ) (params : List LcoreParams)
    (result : List LcoreParams × ℕ) : Type 0 where
  pub entries : take result.1 result.0 ≡ kept m (take real_cnt params) (take n (drop i params))
  pub same_length : length result.0 ≡ length params
  pub bounded : result.1 ≤ i + n

-- A round, and then the others.
Step-Compacts :
    (m : Machine) (n i real_cnt : ℕ) (params : List LcoreParams)
    → i < length params
    → let (params', real_cnt') = check_one m i params real_cnt in
      Step m i real_cnt params (check_one m i params real_cnt)
      → Compacts m n (suc i) real_cnt' params' (check_loop m n (suc i) params' real_cnt')
      → Compacts m (suc n) i real_cnt params (check_loop m (suc n) i params real_cnt)
unfolding check_loop kept
Step-Compacts m n i real_cnt params h step rest = record {
  entries = rw (drop-get_or i params unset h) (
      rest.entries
      ∙ ap₂ (λ (acc tail : List LcoreParams). kept m acc (take n tail)) step.entries step.later);
  same_length = rest.same_length ∙ step.same_length;
  bounded = omega (arith, rest.bounded);
}

-- From any round on, with the mappings kept so far in front, the loop of `__check_mapping` leaves
-- in front of the array, in order, those and each later valid mapping whose queue has none yet;
-- the array keeps its length, and the count is at most the number of mappings seen.
pub check_loop-Compacts :
    (m : Machine) (n i real_cnt : ℕ) (params : List LcoreParams)
    → real_cnt ≤ i
    → i + n ≤ length params
    → Compacts m n i real_cnt params (check_loop m n i params real_cnt)
unfolding check_loop kept
check_loop-Compacts m zero i real_cnt params le h = record {
  entries = refl;
  same_length = refl;
  bounded = omega arith;
}
check_loop-Compacts m (suc n) i real_cnt params le h =
    let step = check_one-Step m i real_cnt params le (omega arith) in
    Step-Compacts m n i real_cnt params (omega arith) step
      (check_loop-Compacts m n (suc i) _ _ step.bounded (omega (arith, step.same_length)))
