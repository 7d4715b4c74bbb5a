-- ===== src/Cuckoo/Valid.antt =====
-- The invariant of a table of tools/cuckoohash.c, and what the searches for a key find under it.
use pkt_sender.Prelude.{
  ℕ, zero, suc, ◌-◌, ◌^◌, ◌≡◌, ◌≢◌, refl, ap, inl, inr, ◌⊎◌, Bool, true, false, List, [], ◌∷◌,
  arith, if◌then◌else◌, ◌==◌, Bool-cases, ==_iff,
}
use pkt_sender.Cuckoo.Defs.{Entry, Table, is_null, hash, hash_secondary, same_key}
use pkt_sender.Cuckoo.Moves.{Placed}

pub same_key-equal : (a b : List ℕ) → same_key a b ≡ true → a ≡ b
unfolding same_key
same_key-equal [] [] e = refl
same_key-equal [] (y ∷ ys) e = cc
same_key-equal (x ∷ xs) [] e = cc
same_key-equal (x ∷ xs) (y ∷ ys) e = elim (Bool-cases (x == y)) [
  | inl h ↦ rw ((==_iff x y).0 h) (ap (λ (t : List ℕ). y ∷ t) (same_key-equal xs ys (rw h at e)))
  | inr h ↦ cc (rw h at e)
]

pub same_key_refl : (a : List ℕ) → same_key a a ≡ true
unfolding same_key
same_key_refl [] = refl
same_key_refl (x ∷ xs) = let e : (x == x) ≡ true = ground arith in rw e (same_key_refl xs)

-- A key's index is among the free ones.
abbrev pub mem : ℕ → List ℕ → Bool
mem x [] = false
mem x (y ∷ ys) = if x == y then true else mem x ys

abbrev pub AreDistinct : List ℕ → Type 0
AreDistinct [] = Unit
AreDistinct (x ∷ xs) = (mem x xs ≡ false) × AreDistinct xs

-- The entry of a key has the two signatures of its hash.
abbrev pub KeyPair : Table → ℕ → ℕ → ℕ → Type 0
KeyPair h i c a =
    ((c ≡ hash h (h.key_store i).key) × (a ≡ hash_secondary (hash h (h.key_store i).key)))
    ⊎ ((c ≡ hash_secondary (hash h (h.key_store i).key)) × (a ≡ hash h (h.key_store i).key))

abbrev pub KeySame : Table → ℕ → ℕ → Type 0
KeySame h i j = (h.key_store i).key ≡ (h.key_store j).key

pub record IsValid (h : Table) : Type 0 where
  pub bits : ℕ
  pub size : h.num_buckets ≡ 2 ^ bits
  pub mask : h.bucket_bitmask ≡ 2 ^ bits - 1
  pub placed : (hole : ℕ) → Placed h.bucket_bitmask (KeyPair h) (KeySame h) h.buckets hole
  pub no_flags : (p : ℕ) → h.buckets.flag p ≡ 0
  pub not_free :
      (p : ℕ)
      → is_null (h.buckets.entry p) ≡ false
      → mem (h.buckets.entry p).key_idx h.free_slots.slots ≡ false
  pub distinct : AreDistinct h.free_slots.slots
  -- Index 0 is the dummy.
  pub nonzero : (p : ℕ) → is_null (h.buckets.entry p) ≡ false → (h.buckets.entry p).key_idx ≢ 0
  pub nonzero_free : mem 0 h.free_slots.slots ≡ false

-- An entry for a key.
pub record IsFor (h : Table) (key : List ℕ) (p : ℕ) : Type 0 where
  pub in_use : is_null (h.buckets.entry p) ≡ false
  pub its_key : (h.key_store (h.buckets.entry p).key_idx).key ≡ key

-- No hash has both signatures 0, which would be a free entry.
hash_secondary-zero : hash_secondary 0 ≢ 0
unfolding hash_secondary
hash_secondary-zero e = cc e

pub pair_in_use :
    (e : Entry) (sig : ℕ)
    → ((e.current ≡ sig) × (e.alt ≡ hash_secondary sig))
      ⊎ ((e.current ≡ hash_secondary sig) × (e.alt ≡ sig))
    → is_null e ≡ false
unfolding is_null
pair_in_use e zero (inl (c, a)) = ground (arith, hash_secondary-zero)
pair_in_use e zero (inr (c, a)) = ground (arith, hash_secondary-zero)
pair_in_use e (suc n) (inl (c, a)) = ground arith
pair_in_use e (suc n) (inr (c, a)) = ground arith
