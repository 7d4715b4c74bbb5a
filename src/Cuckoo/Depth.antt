-- ===== src/Cuckoo/Depth.antt =====
-- The recursion of `make_space_bucket` of tools/cuckoohash.c ends: each call sets one flag more.
use pkt_sender.Prelude.{
  ℕ, zero, suc, ◌+◌, ◌-◌, ◌*◌, ◌/◌, ◌^◌, ◌≤◌, ◌<◌, ◌≡◌, refl, ap, Option, none, some, arith, ◌==◌,
  if◌then◌else◌, bit_and, ℕ_discrete,
}
use pkt_sender.Prelude.Bits.{bit_and-mask}
use native.Mathlib.Nat.{one-le-pow}
use pkt_sender.Cuckoo.Defs.{Buckets, update, first_in}
use pkt_sender.Cuckoo.Space.{
  next_bucket, set_flag, find_spare, after_push, make_space_body, make_space_bucket,
}
use pkt_sender.Cuckoo.Search.{FindsIn, first_in-FindsIn}
use pkt_sender.Cuckoo.Moves.{update-ne}

-- How many of the first `n` flags are not set.
abbrev pub count_unset : (ℕ → ℕ) → ℕ → ℕ
count_unset f zero = 0
count_unset f (suc n) = (if f n == 0 then 1 else 0) + count_unset f n

pub count_unset-le : (f : ℕ → ℕ) (n : ℕ) → count_unset f n ≤ n
count_unset-le f zero = omega arith
count_unset-le f (suc n) = ground (arith, count_unset-le f n)

count_unset-above : (f : ℕ → ℕ) (p n : ℕ) → n ≤ p → count_unset (update f p 1) n ≡ count_unset f n
count_unset-above f p zero h = refl
count_unset-above f p (suc n) h = ground (arith, count_unset-above f p n, update-ne f p n 1)

count_unset-set :
    (f : ℕ → ℕ) (p n : ℕ) → p < n → f p ≡ 0 → suc (count_unset (update f p 1) n) ≡ count_unset f n
count_unset-set f p zero h z = absurd (omega arith)
count_unset-set f p (suc n) h z = elim (ℕ_discrete p n) [
  | yes e ↦ ground (arith, count_unset-above f p n, ap f e)
  | no ne ↦ ground (arith, count_unset-set f p n (omega arith) z, update-ne f p n 1)
]

-- It ends with room made, or with none.
abbrev pub Ends : Option (Buckets × Option ℕ) → Type 0
Ends none = ⊥
Ends (some r) = Unit

after_push-Ends : (p : ℕ) (r : Option (Buckets × Option ℕ)) → Ends r → Ends (after_push p r)
unfolding after_push
after_push-Ends p none e = e
after_push-Ends p (some (s, none)) e = tt
after_push-Ends p (some (s, some q)) e = tt

body-Ends :
    (s : Buckets) (b : ℕ) (o : Option (ℕ × ℕ)) (u : Option ℕ)
    (rec : ℕ → Option (Buckets × Option ℕ))
    → FindsIn (λ p. s.flag p == 0) b u
    → ((p : ℕ) → p / 4 ≡ b → s.flag p ≡ 0 → Ends (rec p))
    → Ends (make_space_body s o u rec)
unfolding make_space_body
body-Ends s b (some (p, q)) u rec g h = tt
body-Ends s b none none rec g h = tt
body-Ends s b none (some p) rec g h = after_push-Ends p (rec p) (h p g.0 (ground (arith, g.1)))

pub masked-lt : (k x : ℕ) → bit_and x (2 ^ k - 1) < 2 ^ k
masked-lt k x = ground (arith, bit_and-mask k x, one-le-pow k 2)

module _ (k : ℕ) where
  next_bucket-lt : (s : Buckets) (p : ℕ) → next_bucket (2 ^ k - 1) s p < 2 ^ k
  unfolding next_bucket
  next_bucket-lt s p = masked-lt k (s.entry p).alt

  count_unset-set_flag :
      (s : Buckets) (p n : ℕ)
      → p < n
      → s.flag p ≡ 0
      → suc (count_unset (set_flag s p 1).flag n) ≡ count_unset s.flag n
  unfolding set_flag
  count_unset-set_flag s p n h z = count_unset-set s.flag p n h z

  -- For a table of 2 ^ k buckets, a call of `make_space_bucket` with more fuel than there are
  -- flags not set returns, whatever its buckets hold.
  pub make_space_bucket-Ends :
      (fuel : ℕ) (s : Buckets) (b : ℕ)
      → b < 2 ^ k
      → count_unset s.flag (4 * 2 ^ k) < fuel
      → Ends (make_space_bucket (2 ^ k - 1) fuel s b)
  unfolding make_space_bucket
  make_space_bucket-Ends zero s b lt h = absurd (omega arith)
  make_space_bucket-Ends (suc fuel) s b lt h =
      body-Ends s b (find_spare (2 ^ k - 1) s 4 (4 * b)) (first_in (λ p. s.flag p == 0) b) _
        (first_in-FindsIn _ b)
        (λ p at z.
          make_space_bucket-Ends fuel (set_flag s p 1) (next_bucket (2 ^ k - 1) s p)
            (next_bucket-lt s p)
            (omega (arith, count_unset-set_flag s p (4 * 2 ^ k) (omega arith) z)))
