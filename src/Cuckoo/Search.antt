-- ===== src/Cuckoo/Search.antt =====
-- What the loops of tools/cuckoohash.c over a bucket find.
use pkt_sender.Prelude.{
  ℕ, zero, suc, ◌+◌, ◌*◌, ◌/◌, ◌≤◌, ◌<◌, ◌≡◌, refl, subst, inl, inr, ◌⊎◌, Bool, true, false, Option,
  none, some, arith, if◌then◌else◌, ℕ_discrete,
}
use pkt_sender.Cuckoo.Defs.{Buckets, first, first_in, is_null}
use pkt_sender.Cuckoo.Table.{or_else}
use pkt_sender.Cuckoo.Space.{choose, find_spare, next_bucket}

-- What a loop over the `n` entries from `p` on answers.
abbrev pub Finds : (ℕ → Bool) → ℕ → ℕ → Option ℕ → Type 0
Finds test n p none = (q : ℕ) → p ≤ q → q < p + n → test q ≡ false
Finds test n p (some q) = (p ≤ q) × (q < p + n) × (test q ≡ true)

first_step :
    (test : ℕ → Bool) (n p : ℕ) (o : Option ℕ) (b : Bool)
    → test p ≡ b
    → Finds test n (suc p) o
    → Finds test (suc n) p (if b then some p else o)
first_step test n p o true e f = (omega arith, omega arith, e)
first_step test n p (some q) false e f = (omega (arith, f.0), omega (arith, f.1), f.2)
first_step test n p none false e f = λ q le lt. elim (ℕ_discrete p q) [
  | yes same ↦ subst (λ (x : ℕ). test x ≡ false) same e
  | no other ↦ f q (omega (arith, other)) (omega arith)
]

pub first-Finds : (test : ℕ → Bool) (n p : ℕ) → Finds test n p (first test n p)
unfolding first
first-Finds test zero p = λ q le lt. absurd (omega arith)
first-Finds test (suc n) p =
    first_step test n p (first test n (suc p)) (test p) refl (first-Finds test n (suc p))

-- What a loop over bucket `b` answers.
abbrev pub FindsIn : (ℕ → Bool) → ℕ → Option ℕ → Type 0
FindsIn test b none = (q : ℕ) → q / 4 ≡ b → test q ≡ false
FindsIn test b (some q) = (q / 4 ≡ b) × (test q ≡ true)

FindsIn-Finds : (test : ℕ → Bool) (b : ℕ) (o : Option ℕ) → Finds test 4 (4 * b) o → FindsIn test b o
FindsIn-Finds test b none f = λ q e. f q (omega arith) (omega arith)
FindsIn-Finds test b (some q) f = (omega (arith, f.0, f.1), f.2)

pub first_in-FindsIn : (test : ℕ → Bool) (b : ℕ) → FindsIn test b (first_in test b)
first_in-FindsIn test b = FindsIn-Finds test b (first test 4 (4 * b)) (first-Finds test 4 (4 * b))

-- All entries of a bucket are in use.
abbrev pub IsFull : Buckets → ℕ → Type 0
IsFull s b = (q : ℕ) → q / 4 ≡ b → is_null (s.entry q) ≡ false

-- What the first loop of `make_space_bucket` answers.
abbrev pub Spares : ℕ → Buckets → ℕ → ℕ → Option (ℕ × ℕ) → Type 0
Spares m s n p none = (q : ℕ) → p ≤ q → q < p + n → IsFull s (next_bucket m s q)
Spares m s n p (some (x, q)) =
    (p ≤ x) × (x < p + n) × (q / 4 ≡ next_bucket m s x) × (is_null (s.entry q) ≡ true)

module _ (m : ℕ) (s : Buckets) where
  choose_lem :
      (n p : ℕ) (o : Option ℕ) (rest : Option (ℕ × ℕ))
      → FindsIn (λ q. is_null (s.entry q)) (next_bucket m s p) o
      → Spares m s n (suc p) rest
      → Spares m s (suc n) p (choose p o rest)
  unfolding choose
  choose_lem n p (some q) rest f r = (omega arith, omega arith, f.0, f.1)
  choose_lem n p none (some (x, q)) f r = (omega (arith, r.0), omega (arith, r.1), r.2, r.3)
  choose_lem n p none none f r = λ q le lt. elim (ℕ_discrete p q) [
    | yes same ↦ subst (λ (x : ℕ). IsFull s (next_bucket m s x)) same f
    | no other ↦ r q (omega (arith, other)) (omega arith)
  ]

  pub find_spare-Spares : (n p : ℕ) → Spares m s n p (find_spare m s n p)
  unfolding find_spare
  find_spare-Spares zero p = λ q le lt. absurd (omega arith)
  find_spare-Spares (suc n) p =
      choose_lem n p (first_in (λ q. is_null (s.entry q)) (next_bucket m s p))
        (find_spare m s n (suc p)) (first_in-FindsIn _ (next_bucket m s p))
        (find_spare-Spares n (suc p))

-- An entry that matches, or the fact that none does.
abbrev pub Found : (ℕ → Type 0) → Option ℕ → Type 0
Found Match none = (p : ℕ) → ¬ Match p
Found Match (some p) = Match p

-- Two searches, over two buckets, for an entry with `Match`, which stands in one or the other.
pub or_else_lem :
    (Match : ℕ → Type 0) (t u : ℕ → Bool) (b c : ℕ)
    → ((p : ℕ) → t p ≡ true → Match p)
    → ((p : ℕ) → u p ≡ true → Match p)
    → ((p : ℕ) → Match p → ((p / 4 ≡ b) × (t p ≡ true)) ⊎ ((p / 4 ≡ c) × (u p ≡ true)))
    → (o r : Option ℕ) → FindsIn t b o
    → FindsIn u c r
    → Found Match (or_else o r)
unfolding or_else
or_else_lem Match t u b c st su all (some p) r f g = st p f.1
or_else_lem Match t u b c st su all none (some p) f g = su p g.1
or_else_lem Match t u b c st su all none none f g =
    λ p m. elim (all p m) [ inl (e, h) ↦ cc (f p e, h) | inr (e, h) ↦ cc (g p e, h) ]
