-- ===== src/Prelude/Arrays.antt =====
-- Lists read as arrays: what stands at each index after `take`, `drop`, `++` and a block copy.
use Prim.Native.Nat.{ℕ, zero, suc, ◌+◌, ◌≤◌, ◌<◌}
use mathlib.Core.Path.{◌≡◌, refl, sym, ap, ap₂, ◌∙◌}
use mathlib.Core.List.{List, [], ◌∷◌, ◌++◌}
use mathlib.Core.Logic.{◌⊎◌, ◌≢◌}
use native.Mathlib.Nat.{add-zero, add-suc, suc-add, add_assoc}
use native.Mathlib.Omega.{arith}
use pkt_sender.Prelude.Lists.{length, set, length-set, get_or, take, drop}

module _ {ℓ} {A : Type ℓ} where
  -- `memcpy(xs + i, ys, n)`, for `ys` of `n` elements; what falls out of bounds changes nothing.
  unfoldable pub blit : List A → ℕ → List A → List A
  blit xs i [] = xs
  blit xs i (y ∷ ys) = blit (set xs i y) (i + 1) ys

  pub length-blit : (xs : List A) (i : ℕ) (ys : List A) → length (blit xs i ys) ≡ length xs
  unfolding blit
  length-blit xs i [] = refl
  length-blit xs i (y ∷ ys) = length-blit (set xs i y) (i + 1) ys ∙ length-set xs i y

  pub get_or-set_self :
      (xs : List A) (i : ℕ) (v d : A) → i < length xs → get_or (set xs i v) i d ≡ v
  get_or-set_self [] i v d h = elim h [ ]
  get_or-set_self (x ∷ xs) zero v d h = refl
  get_or-set_self (x ∷ xs) (suc i) v d h = get_or-set_self xs i v d (omega arith)

  pub get_or-set_ne :
      (xs : List A) (i : ℕ) (v d : A) (j : ℕ) → i ≢ j → get_or (set xs i v) j d ≡ get_or xs j d
  get_or-set_ne [] i v d j h = refl
  get_or-set_ne (x ∷ xs) zero v d zero h = absurd (h refl)
  get_or-set_ne (x ∷ xs) zero v d (suc j) h = refl
  get_or-set_ne (x ∷ xs) (suc i) v d zero h = refl
  get_or-set_ne (x ∷ xs) (suc i) v d (suc j) h = get_or-set_ne xs i v d j (λ e. h (ap suc e))

  pub get_or-blit_out :
      (xs : List A) (i : ℕ) (ys : List A) (d : A) (j : ℕ)
      → i + length ys ≤ length xs
      → (j < i) ⊎ (i + length ys ≤ j)
      → get_or (blit xs i ys) j d ≡ get_or xs j d
  unfolding blit
  get_or-blit_out xs i [] d j h o = refl
  get_or-blit_out xs i (y ∷ ys) d j h o = ground (
    arith,
    get_or-blit_out (set xs i y) (i + 1) ys d j,
    length-set xs i y,
    get_or-set_ne xs i y d j,
  )

  pub get_or-blit_in :
      (xs : List A) (i : ℕ) (ys : List A) (d : A) (j : ℕ)
      → i + length ys ≤ length xs
      → j < length ys
      → get_or (blit xs i ys) (i + j) d ≡ get_or ys j d
  unfolding blit
  get_or-blit_in xs i [] d j h o = elim o [ ]
  get_or-blit_in xs i (y ∷ ys) d zero h o = ground (
    arith,
    get_or-blit_out (set xs i y) (i + 1) ys d i,
    get_or-set_self xs i y d,
    length-set xs i y,
    add-zero i,
  )
  get_or-blit_in xs i (y ∷ ys) d (suc j) h o = ground (
    arith,
    get_or-blit_in (set xs i y) (i + 1) ys d j,
    length-set xs i y,
    add-suc i j,
    suc-add i j,
    add_assoc i 1 j,
  )

  pub get_or-append_left :
      (xs ys : List A) (i : ℕ) (d : A) → i < length xs → get_or (xs ++ ys) i d ≡ get_or xs i d
  get_or-append_left [] ys i d h = elim h [ ]
  get_or-append_left (x ∷ xs) ys zero d h = refl
  get_or-append_left (x ∷ xs) ys (suc i) d h = get_or-append_left xs ys i d (omega arith)

  pub get_or-append_right :
      (xs ys : List A) (i j : ℕ) (d : A) → i ≡ length xs + j → get_or (xs ++ ys) i d ≡ get_or ys j d
  get_or-append_right [] ys i j d h = ap (λ (k : ℕ). get_or ys k d) (omega arith)
  get_or-append_right (x ∷ xs) ys zero j d h = absurd (omega arith)
  get_or-append_right (x ∷ xs) ys (suc i) j d h = get_or-append_right xs ys i j d (omega arith)

  pub get_or-take :
      (n : ℕ) (xs : List A) (i : ℕ) (d : A) → i < n → get_or (take n xs) i d ≡ get_or xs i d
  get_or-take zero xs i d h = elim h [ ]
  get_or-take (suc n) [] i d h = refl
  get_or-take (suc n) (x ∷ xs) zero d h = refl
  get_or-take (suc n) (x ∷ xs) (suc i) d h = get_or-take n xs i d (omega arith)

  pub get_or-drop :
      (n : ℕ) (xs : List A) (i : ℕ) (d : A) → get_or (drop n xs) i d ≡ get_or xs (n + i) d
  get_or-drop zero xs i d = ap (λ (k : ℕ). get_or xs k d) (omega arith)
  get_or-drop (suc n) [] i d = refl
  get_or-drop (suc n) (x ∷ xs) i d =
      get_or-drop n xs i d ∙ sym (ap (λ (k : ℕ). get_or (x ∷ xs) k d) (suc-add n i))

  -- Two arrays are equal if they are as long and read alike.
  pub list_ext :
      (xs ys : List A) (d : A)
      → length xs ≡ length ys
      → ((i : ℕ) → i < length xs → get_or xs i d ≡ get_or ys i d)
      → xs ≡ ys
  list_ext [] [] d e h = refl
  list_ext [] (y ∷ ys) d e h = absurd (omega arith)
  list_ext (x ∷ xs) [] d e h = absurd (omega arith)
  list_ext (x ∷ xs) (y ∷ ys) d e h =
      ap₂ ◌∷◌ (h 0 (omega arith)) (list_ext xs ys d (omega arith) (λ i p. h (suc i) (omega arith)))
