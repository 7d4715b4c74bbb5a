-- ===== src/Cuckoo/Iterate.antt =====
-- `cuckoohash_iterate`, and what a walk over a whole table visits.
use pkt_sender.Prelude.{
  ℕ, zero, suc, ◌+◌, ◌-◌, ◌*◌, ◌%◌, ◌^◌, ◌≤◌, ◌<◌, ◌≡◌, refl, sym, ap, ap₂, subst, ◌∙◌, inl, inr,
  true, false, List, [], ◌∷◌, Option, none, some, arith, if◌then◌else◌, leb, bit_and, ℕ_discrete,
  Bool-cases,
}
use pkt_sender.Cuckoo.Defs.{Key, Table, is_null, same_key, hash_bucket_entries}
use pkt_sender.Cuckoo.Depth.{masked-lt}
use pkt_sender.Cuckoo.Valid.{IsValid, IsFor, same_key-equal, same_key_refl}
use pkt_sender.Cuckoo.Lookup.{IsFor-unique}
use pkt_sender.Cuckoo.Holds.{Holds, lookup, lookup-Holds}

-- The loop over empty entries, with `n` entries left from `p` on: where `next` stands afterwards, and
-- the entry that is found.
unfoldable pub skip : Table → ℕ → ℕ → ℕ × Option ℕ
skip h zero p = (p, none)
skip h (suc n) p =
    let rest = skip h n (suc p) in if is_null (h.buckets.entry p) then rest else (suc p, some p)

-- The key and the pointer of an entry, and its index without the first dummy, which is at least 1.
unfoldable pub read_next : Table → ℕ × Option ℕ → ℕ × Option (Key × ℕ)
read_next h (next, none) = (next, none)
read_next h (next, some p) =
    let position = (h.buckets.entry p).key_idx in (next, some (h.key_store position, position - 1))

abbrev pub total_entries : Table → ℕ
total_entries h = h.num_buckets * hash_bucket_entries % 2 ^ 32

-- `cuckoohash_iterate`: `next` afterwards, and what is found; `none` is -ENOENT.
unfoldable pub iterate : Table → ℕ → ℕ × Option (Key × ℕ)
iterate h next =
    if leb (total_entries h) next
    then (next, none)
    else read_next h (skip h (total_entries h - next) next)

-- The loop of a caller, until -ENOENT: the keys and pointers that it is given. `none` is a want of
-- fuel.
unfoldable pub visit : ℕ × Option (Key × ℕ) → (ℕ → Option (List Key)) → Option (List Key)
visit (next, none) rec = some []
visit (next, some (k, i)) rec = elim (rec next) [ none ↦ none | some ks ↦ some (k ∷ ks) ]

unfoldable pub walk : Table → ℕ → ℕ → Option (List Key)
walk h zero next = none
walk h (suc fuel) next = visit (iterate h next) (λ n. walk h fuel n)

-- The keys of the entries in use among the `n` from `p` on.
abbrev pub in_use : Table → ℕ → ℕ → List Key
in_use h zero p = []
in_use h (suc n) p =
    let rest = in_use h n (suc p) in
    if is_null (h.buckets.entry p) then rest else h.key_store (h.buckets.entry p).key_idx ∷ rest

-- What a call that starts with `n` entries left meets.
abbrev Meets : Table → ℕ → ℕ → ℕ × Option ℕ → Type 0
Meets h n p (next, none) = in_use h n p ≡ []
Meets h n p (next, some q) =
    (next ≡ suc q)
    × (p ≤ q)
    × (q < p + n)
    × (in_use h n p ≡ h.key_store (h.buckets.entry q).key_idx ∷ in_use h (p + n - suc q) (suc q))

Meets-skip :
    (h : Table) (n p : ℕ) (r : ℕ × Option ℕ)
    → is_null (h.buckets.entry p) ≡ true
    → Meets h n (suc p) r
    → Meets h (suc n) p r
Meets-skip h n p (next, none) e m = rw e m
Meets-skip h n p (next, some q) e m =
    let sum : p + suc n ≡ suc p + n = omega arith in
    (m.0, omega (arith, m.1), omega (arith, m.2), rw (e, sum) m.3)

skip-Meets : (h : Table) (n p : ℕ) → Meets h n p (skip h n p)
unfolding skip
skip-Meets h zero p = refl
skip-Meets h (suc n) p = elim (Bool-cases (is_null (h.buckets.entry p))) [
  | inl e ↦ rw e (Meets-skip h n p (skip h n (suc p)) e (skip-Meets h n (suc p)))
  | inr e ↦
      let same : p + suc n - suc p ≡ n = omega arith in
      rw e (refl, omega arith, omega arith, rw (e, same) refl)
]

module _ (h : Table) where
  visit_step :
      (n p : ℕ) (r : ℕ × Option ℕ) (rec : ℕ → Option (List Key))
      → Meets h n p r
      → ((q : ℕ) → p ≤ q → q < p + n → rec (suc q) ≡ some (in_use h (p + n - suc q) (suc q)))
      → visit (read_next h r) rec ≡ some (in_use h n p)
  unfolding visit read_next
  visit_step n p (next, none) rec m i = ap some (sym m)
  visit_step n p (next, some q) rec m i = rw (m.0, i q m.1 m.2) (ap some (sym m.3))

  iterate-inside : (next : ℕ) → iterate h next ≡ read_next h (skip h (total_entries h - next) next)
  unfolding iterate read_next skip
  iterate-inside next = elim (Bool-cases (leb (total_entries h) next)) [
    | inr e ↦ rw e refl
    | inl e ↦ let none_left : total_entries h - next ≡ 0 = ground arith in rw (e, none_left) refl
  ]

  walk_from :
      (fuel next : ℕ)
      → total_entries h - next < fuel
      → walk h fuel next ≡ some (in_use h (total_entries h - next) next)
  unfolding walk
  walk_from zero next lt = absurd (omega arith)
  walk_from (suc fuel) next lt = rw (iterate-inside next) (
      visit_step (total_entries h - next) next (skip h (total_entries h - next) next)
        (λ n. walk h fuel n) (skip-Meets h (total_entries h - next) next)
        (λ q le below.
          let left : next + (total_entries h - next) - suc q ≡ total_entries h - suc q =
            omega arith in
          rw left (walk_from fuel (suc q) (omega arith))))

-- A walk that starts at 0 and calls `cuckoohash_iterate` until -ENOENT ends after at most one call
-- more than the table has entries, and is given the keys of the entries in use, in their order.
pub walk_lem : (h : Table) → walk h (suc (total_entries h)) 0 ≡ some (in_use h (total_entries h) 0)
walk_lem h =
    let all : total_entries h - 0 ≡ total_entries h = omega arith in
    subst (λ (n : ℕ). walk h (suc (total_entries h)) 0 ≡ some (in_use h n 0)) all
      (walk_from h (suc (total_entries h)) 0 (omega arith))

-- Those of them that are for one key.
abbrev pub for_key : List ℕ → List Key → List Key
for_key k [] = []
for_key k (x ∷ xs) = if same_key x.key k then x ∷ for_key k xs else for_key k xs

abbrev pub bound : List ℕ → Option ℕ → List Key
bound k none = []
bound k (some x) = record { key = k; pdata = x } ∷ []

module _ (h : Table) (v : IsValid h) (k : List ℕ) where
  not_for :
      (p : ℕ)
      → is_null (h.buckets.entry p) ≡ false
      → ¬ IsFor h k p
      → same_key (h.key_store (h.buckets.entry p).key_idx).key k ≡ false
  not_for p n f = elim (Bool-cases (same_key (h.key_store (h.buckets.entry p).key_idx).key k)) [
    | inl e ↦ absurd (f (record { in_use = n; its_key = same_key-equal _ _ e }))
    | inr e ↦ e
  ]

  skip_one :
      (n p : ℕ) {xs : List Key}
      → ¬ IsFor h k p
      → for_key k (in_use h n (suc p)) ≡ xs
      → for_key k (in_use h (suc n) p) ≡ xs
  skip_one n p f rest = elim (Bool-cases (is_null (h.buckets.entry p))) [
    | inl e ↦ rw e rest
    | inr e ↦ rw (e, not_for p e f) rest
  ]

  for_key-none :
      (n p : ℕ) → ((q : ℕ) → p ≤ q → q < p + n → ¬ IsFor h k q) → for_key k (in_use h n p) ≡ []
  for_key-none zero p f = refl
  for_key-none (suc n) p f =
      skip_one n p (f p (omega arith) (omega arith))
        (for_key-none n (suc p) (λ q le lt. f q (omega arith) (omega arith)))

  for_key-some :
      (n p x : ℕ)
      → p ≤ x
      → x < p + n
      → IsFor h k x
      → for_key k (in_use h n p) ≡ h.key_store (h.buckets.entry x).key_idx ∷ []
  for_key-some zero p x le lt f = absurd (omega arith)
  for_key-some (suc n) p x le lt f = elim (ℕ_discrete p x) [
    | yes e ↦ here e
    | no ne ↦
        skip_one n p (λ g. ne (IsFor-unique h k v p x g f))
          (for_key-some n (suc p) x (omega (arith, ne)) (omega arith) f)
  ]
    where
      later : for_key k (in_use h n (suc x)) ≡ []
      later =
          for_key-none n (suc x) (λ q le lt g. absurd (omega (arith, IsFor-unique h k v q x g f)))

      is_its : same_key (h.key_store (h.buckets.entry x).key_idx).key k ≡ true
      is_its =
          subst (λ (y : List ℕ). same_key (h.key_store (h.buckets.entry x).key_idx).key y ≡ true)
            f.its_key (same_key_refl _)

      here : p ≡ x → for_key k (in_use h (suc n) p) ≡ h.key_store (h.buckets.entry x).key_idx ∷ []
      here e =
          subst
            (λ (y : ℕ).
              for_key k (in_use h (suc n) y) ≡ h.key_store (h.buckets.entry x).key_idx ∷ [])
            (sym e) (rw (f.in_use, is_its, later) refl)

  -- All entries are among those that the iteration counts.
  inside : h.num_buckets < 2 ^ 30 → (x : ℕ) → IsFor h k x → x < total_entries h
  inside small x f = omega (
    arith,
    v.size,
    (v.placed (suc x)).located x (f.in_use, omega arith),
    subst (λ (m : ℕ). bit_and (h.buckets.entry x).current m < 2 ^ v.bits) (sym v.mask)
        (masked-lt v.bits (h.buckets.entry x).current),
  )

  for_key-Holds :
      (o : Option ℕ)
      → h.num_buckets < 2 ^ 30
      → Holds h k o
      → for_key k (in_use h (total_entries h) 0) ≡ bound k o
  for_key-Holds none small f = for_key-none (total_entries h) 0 (λ q le lt. f q)
  for_key-Holds (some d) small (x, f, e) =
      for_key-some (total_entries h) 0 x (omega arith) (omega (arith, inside small x f)) f
      ∙ ap (λ (y : Key). y ∷ [])
          (ap₂ (λ (a : List ℕ) (b : ℕ). record { key = a; pdata = b }) f.its_key e)

-- In a valid table of less than 2 ^ 30 buckets, a walk is given each key once, with the pointer
-- that a lookup of it answers, if a lookup finds it, and not at all if none does.
pub walk-lookup :
    (h : Table) (k : List ℕ)
    → IsValid h
    → h.num_buckets < 2 ^ 30
    → (ks : List Key) × (walk h (suc (total_entries h)) 0 ≡ some ks)
      × (for_key k ks ≡ bound k (lookup h k))
walk-lookup h k v small = (
  in_use h (total_entries h) 0,
  walk_lem h,
  for_key-Holds h v k (lookup h k) small (lookup-Holds h k v),
)
