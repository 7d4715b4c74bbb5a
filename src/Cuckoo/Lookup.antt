-- ===== src/Cuckoo/Lookup.antt =====
-- The searches of tools/cuckoohash.c for a key.
use pkt_sender.Prelude.{
  ℕ, suc, ◌+◌, ◌/◌, ◌≡◌, refl, sym, ap, subst, ◌∙◌, inl, inr, ◌⊎◌, Bool, true, false, not, ◌&&◌,
  List, arith, bit_and, ==_iff,
}
use pkt_sender.Cuckoo.Defs.{Entry, Table, is_null, hash, hash_secondary, same_key}
use pkt_sender.Cuckoo.Table.{
  has_key, signed, signed_twice, primary_bucket, secondary_bucket, find_lookup, find_add, find_del,
}
use pkt_sender.Cuckoo.Search.{Found, first_in-FindsIn, or_else_lem}
use pkt_sender.Cuckoo.Moves.{Live}
use pkt_sender.Cuckoo.Valid.{IsValid, IsFor, pair_in_use, same_key-equal, same_key_refl}

-- Where an entry for the hash `sig` stands, with both its signatures.
abbrev Stands : Table → ℕ → ℕ → Type 0
Stands h sig p =
    ((p / 4 ≡ primary_bucket h sig)
      × ((h.buckets.entry p).current ≡ sig)
      × ((h.buckets.entry p).alt ≡ hash_secondary sig))
    ⊎ ((p / 4 ≡ secondary_bucket h sig)
        × ((h.buckets.entry p).current ≡ hash_secondary sig)
        × ((h.buckets.entry p).alt ≡ sig))

module _ (h : Table) (key : List ℕ) (v : IsValid h) where
  stands : (p : ℕ) → IsFor h key p → Stands h (hash h key) p
  stands p f =
      elim (subst
        (λ (k : List ℕ).
          ((e.current ≡ hash h k) × (e.alt ≡ hash_secondary (hash h k)))
          ⊎ ((e.current ≡ hash_secondary (hash h k)) × (e.alt ≡ hash h k)))
        f.its_key ((v.placed (suc p)).paired p live)) [
          | inl (c, a) ↦ inl (at ∙ ap (λ (x : ℕ). bit_and x h.bucket_bitmask) c, c, a)
          | inr (c, a) ↦ inr (at ∙ ap (λ (x : ℕ). bit_and x h.bucket_bitmask) c, c, a)
        ]
    where
      e : Entry
      e = h.buckets.entry p

      live : Live h.buckets (suc p) p
      live = (f.in_use, omega arith)

      at : p / 4 ≡ bit_and (h.buckets.entry p).current h.bucket_bitmask
      at = (v.placed (suc p)).located p live

  -- No two entries are for one key.
  pub IsFor-unique : (p q : ℕ) → IsFor h key p → IsFor h key q → p ≡ q
  IsFor-unique p q f g =
      (v.placed (suc (p + q))).apart p q (f.in_use, omega arith) (g.in_use, omega arith)
        (f.its_key ∙ sym g.its_key)

has : (h : Table) (key : List ℕ) (p : ℕ) → IsFor h key p → has_key h key p ≡ true
has h key p f = subst (λ (k : List ℕ). same_key key k ≡ true) (sym f.its_key) (same_key_refl key)

and-both : (a b : Bool) → (a && b) ≡ true → (a ≡ true) × (b ≡ true)
and-both true b e = (refl, e)
and-both false b e = cc

both-and : (a b : Bool) → a ≡ true → b ≡ true → (a && b) ≡ true
both-and true b ea eb = eb
both-and false b ea eb = cc

found-pair :
    (h : Table) (key : List ℕ) (p : ℕ)
    → (((h.buckets.entry p).current ≡ hash h key)
        × ((h.buckets.entry p).alt ≡ hash_secondary (hash h key)))
      ⊎ (((h.buckets.entry p).current ≡ hash_secondary (hash h key))
          × ((h.buckets.entry p).alt ≡ hash h key))
    → has_key h key p ≡ true
    → IsFor h key p
found-pair h key p e k = record {
  in_use = pair_in_use _ (hash h key) e;
  its_key = sym (same_key-equal _ _ k);
}

found-in_use :
    (h : Table) (key : List ℕ) (p : ℕ)
    → not (is_null (h.buckets.entry p)) ≡ true
    → has_key h key p ≡ true
    → IsFor h key p
found-in_use h key p e k = record { in_use = ground arith; its_key = sym (same_key-equal _ _ k) }

module _ (h : Table) (key : List ℕ) where
  -- What passes each test is for the key.
  signed-IsFor : (sig p : ℕ) → signed h key sig p ≡ true → IsFor h key p
  signed-IsFor sig p e =
      let (c, r) = and-both _ _ e in let (n, k) = and-both _ _ r in found-in_use h key p n k

  primary-IsFor :
      (p : ℕ)
      → signed_twice h key (hash h key) (hash_secondary (hash h key)) p ≡ true
      → IsFor h key p
  primary-IsFor p e =
      let (c, r) = and-both _ _ e in
      let (a, k) = and-both _ _ r in found-pair h key p (inl ((==_iff _ _).0 c, (==_iff _ _).0 a)) k

  secondary-IsFor :
      (p : ℕ)
      → signed_twice h key (hash_secondary (hash h key)) (hash h key) p ≡ true
      → IsFor h key p
  secondary-IsFor p e =
      let (c, r) = and-both _ _ e in
      let (a, k) = and-both _ _ r in found-pair h key p (inr ((==_iff _ _).0 c, (==_iff _ _).0 a)) k

  -- What is for the key passes the test with its signatures.
  IsFor-signed :
      (sig p : ℕ) → (h.buckets.entry p).current ≡ sig → IsFor h key p → signed h key sig p ≡ true
  IsFor-signed sig p c f =
      both-and _ _ ((==_iff _ _).1 c) (both-and _ _ (ap not f.in_use) (has h key p f))

  IsFor-signed_twice :
      (current alt p : ℕ)
      → (h.buckets.entry p).current ≡ current
      → (h.buckets.entry p).alt ≡ alt
      → IsFor h key p
      → signed_twice h key current alt p ≡ true
  IsFor-signed_twice current alt p c a f =
      both-and _ _ ((==_iff _ _).1 c) (both-and _ _ ((==_iff _ _).1 a) (has h key p f))

  module _ (v : IsValid h) where
    abbrev sig : ℕ
    sig = hash h key

    abbrev other : ℕ
    other = hash_secondary sig

    -- The search of each of the three operations finds the entry for the key, or there is none.
    pub find_lookup-Found : Found (IsFor h key) (find_lookup h key (hash h key))
    unfolding find_lookup
    find_lookup-Found =
        or_else_lem (IsFor h key) (signed h key sig) (signed_twice h key other sig)
          (primary_bucket h sig) (secondary_bucket h sig) (signed-IsFor sig) secondary-IsFor
          (λ p f. elim (stands h key v p f) [
            | inl (b, c, a) ↦ inl (b, IsFor-signed sig p c f)
            | inr (b, c, a) ↦ inr (b, IsFor-signed_twice other sig p c a f)
          ])
          _ _ (first_in-FindsIn _ _) (first_in-FindsIn _ _)

    pub find_add-Found : Found (IsFor h key) (find_add h key (hash h key))
    unfolding find_add
    find_add-Found =
        or_else_lem (IsFor h key) (signed_twice h key sig other) (signed_twice h key other sig)
          (primary_bucket h sig) (secondary_bucket h sig) primary-IsFor secondary-IsFor
          (λ p f. elim (stands h key v p f) [
            | inl (b, c, a) ↦ inl (b, IsFor-signed_twice sig other p c a f)
            | inr (b, c, a) ↦ inr (b, IsFor-signed_twice other sig p c a f)
          ])
          _ _ (first_in-FindsIn _ _) (first_in-FindsIn _ _)

    pub find_del-Found : Found (IsFor h key) (find_del h key (hash h key))
    unfolding find_del
    find_del-Found =
        or_else_lem (IsFor h key) (signed h key sig) (signed h key other) (primary_bucket h sig)
          (secondary_bucket h sig) (signed-IsFor sig) (signed-IsFor other)
          (λ p f. elim (stands h key v p f) [
            | inl (b, c, a) ↦ inl (b, IsFor-signed sig p c f)
            | inr (b, c, a) ↦ inr (b, IsFor-signed other p c f)
          ])
          _ _ (first_in-FindsIn _ _) (first_in-FindsIn _ _)
