-- ===== src/Prelude/Slots.antt =====
-- An array and the list of its first entries.
use pkt_sender.Prelude.{
  ℕ, zero, suc, ◌<◌, ◌≡◌, refl, ap, List, [], ◌∷◌, ◌++◌, arith, length, take, drop, get_or, set,
}

module _ {ℓ} {A : Type ℓ} where
  pub take-get_or :
      (i : ℕ) (xs : List A) (d : A)
      → i < length xs
      → take (suc i) xs ≡ take i xs ++ (get_or xs i d ∷ [])
  take-get_or i [] d h = absurd (omega arith)
  take-get_or zero (x ∷ xs) d h = refl
  take-get_or (suc i) (x ∷ xs) d h = ap (λ (t : List A). x ∷ t) (take-get_or i xs d (omega arith))

  pub drop-get_or :
      (i : ℕ) (xs : List A) (d : A) → i < length xs → drop i xs ≡ get_or xs i d ∷ drop (suc i) xs
  drop-get_or i [] d h = absurd (omega arith)
  drop-get_or zero (x ∷ xs) d h = refl
  drop-get_or (suc i) (x ∷ xs) d h = drop-get_or i xs d (omega arith)

  pub take-set :
      (i : ℕ) (xs : List A) (y : A)
      → i < length xs
      → take (suc i) (set xs i y) ≡ take i xs ++ (y ∷ [])
  take-set i [] y h = absurd (omega arith)
  take-set zero (x ∷ xs) y h = refl
  take-set (suc i) (x ∷ xs) y h = ap (λ (t : List A). x ∷ t) (take-set i xs y (omega arith))

  pub drop-set : (i j : ℕ) (xs : List A) (y : A) → i < j → drop j (set xs i y) ≡ drop j xs
  drop-set i zero xs y h = absurd (omega arith)
  drop-set i (suc j) [] y h = refl
  drop-set zero (suc j) (x ∷ xs) y h = refl
  drop-set (suc i) (suc j) (x ∷ xs) y h = drop-set i j xs y (omega arith)
