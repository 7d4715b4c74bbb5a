-- ===== src/Cuckoo/New.antt =====
-- What `cuckoohash_create` gives: a valid and empty table.
use pkt_sender.Prelude.{
  ℕ, zero, suc, ◌+◌, ◌-◌, ◌*◌, ◌/◌, ◌%◌, ◌^◌, ◌≤◌, ◌<◌, ◌≡◌, refl, sym, ap, subst, ◌∙◌, inl, inr,
  true, false, ◌||◌, List, [], ◌∷◌, ◌++◌, Option, none, some, arith, if◌then◌else◌, ltb, ◌==◌,
  length, length-append, dec_lt, Bool-cases,
}
use native.Mathlib.Nat.{one-le-pow, pow-le-pow_right}
use native.Mathlib.Numerals.{towards_suc}
use mathlib.Core.Option.{some-injective}
use mathlib.Core.List.{append-nil, append_assoc}
use pkt_sender.Prelude.Words.{add32, sub32}
use pkt_sender.Ring.Defs.{Ring, roundup_2}
use pkt_sender.Ring.Round.{roundup_2-eq-pow}
use pkt_sender.Ring.Create.{System, Call, create as create_ring, create-IsValid}
use pkt_sender.Ring.Slots.{SlotRing, put_slot}
use pkt_sender.Cuckoo.Defs.{Table, is_null, hash_entries_min}
use pkt_sender.Cuckoo.Valid.{IsValid, mem, AreDistinct}
use pkt_sender.Cuckoo.Holds.{lookup, Holds-lookup}
use pkt_sender.Cuckoo.Create.{
  populate, real_size_of, new_table, CreateResult, einval, enomem, created, with_ring,
  create_buckets, cuckoohash_create,
}

-- The numbers that are put in.
abbrev pub numbers : ℕ → ℕ → List ℕ
numbers zero i = []
numbers (suc n) i = i ∷ numbers n (suc i)

pub put_slot-room :
    (q : SlotRing) (x : ℕ)
    → ltb (4 * length q.slots + 4) q.data_size ≡ true
    → put_slot q x ≡ record q { slots = q.slots ++ (x ∷ []) }
unfolding put_slot
put_slot-room q x e = rw e refl

pub populate_lem :
    (n i : ℕ) (r : SlotRing)
    → 4 * (length r.slots + n) < r.data_size
    → (populate n i r).slots ≡ r.slots ++ numbers n i
unfolding populate
populate_lem zero i r lt = sym (append-nil r.slots)
populate_lem (suc n) i r lt =
    ap (λ (q : SlotRing). (populate n (suc i) q).slots) (put_slot-room r i (ground arith))
    ∙ populate_lem n (suc i) (record r { slots = r.slots ++ (i ∷ []) })
        (omega (arith, length-append r.slots (i ∷ [])))
    ∙ append_assoc r.slots (i ∷ []) (numbers n (suc i))

mem-numbers : (n i x : ℕ) → x < i → mem x (numbers n i) ≡ false
mem-numbers zero i x lt = refl
mem-numbers (suc n) i x lt = ground (arith, mem-numbers n (suc i) x)

pub numbers-AreDistinct : (n i : ℕ) → AreDistinct (numbers n i)
numbers-AreDistinct zero i = tt
numbers-AreDistinct (suc n) i =
    (mem-numbers n (suc i) i (omega arith), numbers-AreDistinct n (suc i))

-- A table of no entries.
module _ (key n j : ℕ) (slots : SlotRing) (small : j ≤ 28) (distinct : AreDistinct slots.slots)
    (nonzero : mem 0 slots.slots ≡ false) where
  abbrev empty : Table
  empty = new_table key n (2 ^ j) slots

  all_null : (p : ℕ) → is_null (empty.buckets.entry p) ≡ false → ⊥
  unfolding new_table is_null
  all_null p e = cc e

  mask_eq : sub32 (2 ^ j) 1 ≡ 2 ^ j - 1
  unfolding sub32
  mask_eq = omega (arith, one-le-pow j 2, pow-le-pow_right {n = 2} (omega arith) small)

  empty-IsValid : IsValid empty
  unfolding new_table
  empty-IsValid = record {
    bits = j;
    size = refl;
    mask = mask_eq;
    placed = λ hole. record {
      located = λ p l. absurd (all_null p l.0);
      paired = λ p l. absurd (all_null p l.0);
      apart = λ p q l m e. absurd (all_null p l.0);
    };
    no_flags = λ p. refl;
    not_free = λ p e. absurd (all_null p e);
    distinct = distinct;
    nonzero = λ p e. absurd (all_null p e);
    nonzero_free = nonzero;
  }

  empty-lookup : (k : List ℕ) → lookup empty k ≡ none
  empty-lookup k = Holds-lookup empty k none empty-IsValid (λ p f. all_null p f.in_use)

-- An empty table of 2 ^ j buckets, with the slots 1 to `n` free.
pub record IsNew (key n j : ℕ) (h : Table) : Type 0 where
  pub valid : IsValid h
  pub empty : (k : List ℕ) → lookup h k ≡ none
  pub all_free : h.free_slots.slots ≡ numbers n 1
  pub sized : (h.key_len ≡ key) × (h.entries ≡ n) × (h.num_buckets ≡ 2 ^ j)

module _ (key n j : ℕ) (r : Ring) (small : j ≤ 25) (le : n ≤ 4 * 2 ^ j)
    (room : 4 * n < r.data_size) where
  count : sub32 (add32 n 1) 1 ≡ n
  unfolding add32 sub32
  count = omega (arith, pow-le-pow_right {n = 2} (omega arith) small)

  filled :
      (populate (sub32 (add32 n 1) 1) 1 (record { data_size = r.data_size; slots = [] })).slots
      ≡ numbers n 1
  filled =
      ap (λ (c : ℕ). (populate c 1 (record { data_size = r.data_size; slots = [] })).slots) count
      ∙ populate_lem n 1 (record { data_size = r.data_size; slots = [] }) (omega (arith, room))

  ring-IsNew : IsNew key n j (
      new_table key n
        (2 ^ j)
        (populate (sub32 (add32 n 1) 1) 1 (record { data_size = r.data_size; slots = [] })))
  unfolding new_table
  ring-IsNew = record {
    valid = empty-IsValid key n j _ (omega arith) distinct nonzero;
    empty = empty-lookup key n j _ (omega arith) distinct nonzero;
    all_free = filled;
    sized = (refl, refl, refl);
  }
    where
      distinct :
          AreDistinct
            (populate
              (sub32 (add32 n 1) 1)
              1
              (record { data_size = r.data_size; slots = [] })).slots
      distinct = subst AreDistinct (sym filled) (numbers-AreDistinct n 1)

      nonzero :
          mem 0
            (populate
              (sub32 (add32 n 1) 1)
              1
              (record { data_size = r.data_size; slots = [] })).slots
          ≡ false
      nonzero =
          subst (λ (xs : List ℕ). mem 0 xs ≡ false) (sym filled) (mem-numbers n 1 0 (omega arith))

-- The ring of free slots is large enough.
ring_room :
    (sys : System) (j n : ℕ) (r : Ring)
    → j ≤ 25
    → n ≤ 4 * 2 ^ j
    → 4 * 2 ^ j < 2 * n
    → (create_ring sys false (4 * add32 n 1 % 2 ^ 32)).0 ≡ some r
    → 4 * n < r.data_size
ring_room sys j n r small le lt e = elim (dec_lt n (4 * 2 ^ j)) [
  | yes below ↦ by_power (j + 4) (omega arith) (omega (arith, pow4)) (omega (arith, pow4))
  | no top ↦ by_power (j + 5) (omega arith) (omega (arith, pow5)) (omega (arith, pow5))
]
  where
    bound : 2 ^ j ≤ 2 ^ 25
    bound = pow-le-pow_right {n = 2} (omega arith) small

    pow4 : 2 ^ (j + 4) ≡ 16 * 2 ^ j
    pow4 = simp towards_suc (omega arith)

    pow5 : 2 ^ (j + 5) ≡ 32 * 2 ^ j
    pow5 = simp towards_suc (omega arith)

    size : 4 * add32 n 1 % 2 ^ 32 ≡ 4 * (n + 1)
    size = unfold add32 in omega (arith, bound)

    by_power :
        (k : ℕ) → k ≤ 30 → 4 * (n + 1) ≤ 2 ^ k → 2 ^ k < 2 * (4 * (n + 1)) → 4 * n < r.data_size
    by_power k k_small a b =
        let made : (create_ring sys false (4 * (n + 1))).0 ≡ some r = rw size at e in
        let (valid, _, _, _) = create-IsValid sys false k (4 * (n + 1)) k_small a b made in
        omega (arith, valid.is_power)

abbrev table_of : CreateResult → Option Table
table_of (created h) = some h
table_of einval = none
table_of enomem = none

pub created-injective : {a b : Table} → created a ≡ created b → a ≡ b
created-injective e = some-injective _ _ (ap table_of e)

with_ring-IsNew :
    (key n j : ℕ) (p : Option Ring × List Call) (h : Table)
    → j ≤ 25
    → n ≤ 4 * 2 ^ j
    → ((r : Ring) → p.0 ≡ some r → 4 * n < r.data_size)
    → (with_ring key n (2 ^ j) p).0 ≡ created h
    → IsNew key n j h
unfolding with_ring
with_ring-IsNew key n j (none, calls) h small le room e = cc
with_ring-IsNew key n j (some r, calls) h small le room e =
    subst (IsNew key n j) (created-injective e) (ring-IsNew key n j r small le (room r refl))

create_buckets-IsNew :
    (sys : System) (key n j : ℕ) (h : Table)
    → j ≤ 25
    → n ≤ 4 * 2 ^ j
    → 4 * 2 ^ j < 2 * n
    → (create_buckets sys key n (2 ^ j)).0 ≡ created h
    → IsNew key n j h
unfolding create_buckets
create_buckets-IsNew sys key n j h small le lt e =
    elim (Bool-cases (sys.map_ok (real_size_of key n (2 ^ j)))) [
      | inr no_map ↦ cc (rw no_map at e)
      | inl mapped ↦
          with_ring-IsNew key n j _ h small le (λ r. ring_room sys j n r small le lt)
            (rw mapped at e)
    ]

abbrev pub at_least_min : ℕ → ℕ
at_least_min n = if ltb n hash_entries_min then hash_entries_min else n

-- For `n` entries, eight at least, of which 4 * 2 ^ j is the least power of two not below, with j
-- up to 25, a table that `cuckoohash_create` gives is valid and empty: a lookup of any key finds
-- none, the slots 1 to `n` are free, in this order, and it has 2 ^ j buckets.
pub cuckoohash_create-IsNew :
    (sys : System) (key entry_nr j : ℕ) (h : Table)
    → j ≤ 25
    → at_least_min entry_nr ≤ 4 * 2 ^ j
    → 4 * 2 ^ j < 2 * at_least_min entry_nr
    → (cuckoohash_create sys key entry_nr).0 ≡ created h
    → IsNew key (at_least_min entry_nr) j h
unfolding cuckoohash_create
cuckoohash_create-IsNew sys key entry_nr j h small le lt e =
    elim (Bool-cases (key == 0 || entry_nr == 0)) [
      | inl bad ↦ cc (rw bad at e)
      | inr ok ↦
          create_buckets-IsNew sys key (at_least_min entry_nr) j h small le lt
            (rw (ok, buckets) at e)
    ]
  where
    power : 2 ^ (j + 2) ≡ 4 * 2 ^ j
    power = simp towards_suc (omega arith)

    buckets : roundup_2 (at_least_min entry_nr) / 4 ≡ 2 ^ j
    buckets =
        let rounded : roundup_2 (at_least_min entry_nr) ≡ 2 ^ (j + 2) =
          roundup_2-eq-pow (j + 2) (at_least_min entry_nr) (omega arith) (omega (arith, power))
            (omega (arith, power)) in
        omega (arith, rounded, power)
