-- ===== src/Cuckoo/Taken.antt =====
-- The slot that `__cuckoohash_add_key_with_hash` takes, and the update of a key that is there.
use pkt_sender.Prelude.{
  ℕ, ◌≡◌, ◌≢◌, refl, sym, ap, subst, ◌∙◌, inl, inr, false, List, ◌∷◌, Option, none, some, arith,
  ◌==◌, ℕ_discrete, Bool-cases,
}
use pkt_sender.Ring.Slots.{SlotRing, put_slot}
use pkt_sender.Cuckoo.Defs.{Buckets, Table, Key, is_null, update}
use pkt_sender.Cuckoo.Table.{Answer, index, enoent, enospc}
use pkt_sender.Cuckoo.Moves.{update_self, update-ne}
use pkt_sender.Cuckoo.Making.{Same}
use pkt_sender.Cuckoo.Valid.{IsValid, IsFor, mem, AreDistinct}
use pkt_sender.Cuckoo.Holds.{Holds, Holds-Carries, lookup, lookup-Holds}
use pkt_sender.Cuckoo.Delete.{put_slot-mem, put_slot-AreDistinct}
use pkt_sender.Cuckoo.Alike.{IsValid-alike, IsFor-alike, Carries-alike}

-- The key is there with the pointer, and all else as before.
pub record Puts (h : Table) (key : List ℕ) (pdata : ℕ) (h' : Table) : Type 0 where
  pub valid : IsValid h'
  pub this : Holds h' key (some pdata)
  pub others : (k : List ℕ) → k ≢ key → Holds h' k (lookup h k)

-- All is as before.
pub record Leaves (h h' : Table) : Type 0 where
  pub valid : IsValid h'
  pub all : (k : List ℕ) → Holds h' k (lookup h k)

-- What an addition does, by its answer.
abbrev pub Adds : Table → List ℕ → ℕ → Option (Table × Answer) → Type 0
Adds h key pdata none = ⊥
Adds h key pdata (some (h', index i)) = Puts h key pdata h'
Adds h key pdata (some (h', enoent)) = ⊥
Adds h key pdata (some (h', enospc)) = Leaves h h'

-- What is known of the slot that is taken, and of those that are left.
pub record TakesSlot (h : Table) (slot : ℕ) (rest : SlotRing) : Type 0 where
  pub unused :
      (p : ℕ)
      → is_null (h.buckets.entry p) ≡ false
      → ((h.buckets.entry p).key_idx ≢ slot) × (mem (h.buckets.entry p).key_idx rest.slots ≡ false)
  pub rest_distinct : (mem slot rest.slots ≡ false) × AreDistinct rest.slots
  pub nonzero : (0 ≢ slot) × (mem 0 rest.slots ≡ false)
  pub put_back :
      ((p : ℕ)
        → is_null (h.buckets.entry p) ≡ false
        → mem (h.buckets.entry p).key_idx (put_slot rest slot).slots ≡ false)
      × AreDistinct (put_slot rest slot).slots
      × (mem 0 (put_slot rest slot).slots ≡ false)

-- The free slots are `slot` and then those of `rest`.
module _ (h : Table) (v : IsValid h) (slot : ℕ) (rest : SlotRing)
    (taken : h.free_slots.slots ≡ slot ∷ rest.slots) where
  split : (x : ℕ) → mem x h.free_slots.slots ≡ false → (x ≢ slot) × (mem x rest.slots ≡ false)
  split x m = elim (Bool-cases (x == slot)) [
    | inl e ↦ cc (rw (taken, e) at m)
    | inr e ↦ (ground arith, rw (taken, e) at m)
  ]

  rest_distinct : (mem slot rest.slots ≡ false) × AreDistinct rest.slots
  rest_distinct = subst AreDistinct taken v.distinct

  unused :
      (p : ℕ)
      → is_null (h.buckets.entry p) ≡ false
      → ((h.buckets.entry p).key_idx ≢ slot) × (mem (h.buckets.entry p).key_idx rest.slots ≡ false)
  unused p n = split _ (v.not_free p n)

  nonzero : (0 ≢ slot) × (mem 0 rest.slots ≡ false)
  nonzero = split 0 v.nonzero_free

  -- With the slot put back.
  put_back :
      ((p : ℕ)
        → is_null (h.buckets.entry p) ≡ false
        → mem (h.buckets.entry p).key_idx (put_slot rest slot).slots ≡ false)
      × AreDistinct (put_slot rest slot).slots
      × (mem 0 (put_slot rest slot).slots ≡ false)
  put_back = (
    λ p n. put_slot-mem rest _ slot (unused p n).1 (unused p n).0,
    put_slot-AreDistinct rest slot rest_distinct.0 rest_distinct.1,
    put_slot-mem rest 0 slot nonzero.1 nonzero.0,
  )

  pub takes_slot : TakesSlot h slot rest
  takes_slot = record {
    unused = unused;
    rest_distinct = rest_distinct;
    nonzero = nonzero;
    put_back = put_back;
  }

pub Same-refl : (s : Buckets) → Same s s
Same-refl s = record { entries = λ p. refl; flags = λ p. refl }

module _ (h : Table) (v : IsValid h) (slot : ℕ) (rest : SlotRing) (t : TakesSlot h slot rest) where
  abbrev pub taken_table : Table
  taken_table = record h { free_slots = rest }

  pub taken-IsValid : IsValid taken_table
  taken-IsValid =
      IsValid-alike h v rest h.key_store h.buckets (Same-refl h.buckets) (λ p n. refl)
        (λ p n. (t.unused p n).1) t.rest_distinct.1 t.nonzero.1

module _ (h : Table) (v : IsValid h) (key : List ℕ) (pdata slot : ℕ) (rest : SlotRing)
    (t : TakesSlot h slot rest) where
  -- The key is there already.
  module _ (p : ℕ) (f : IsFor h key p) where
    abbrev kept_keys : ℕ → Key
    kept_keys =
        let k = (h.buckets.entry p).key_idx in
        update h.key_store k (record (h.key_store k) { pdata = pdata })

    keys :
        (x : ℕ)
        → is_null (h.buckets.entry x) ≡ false
        → (kept_keys (h.buckets.entry x).key_idx).key
          ≡ (h.key_store (h.buckets.entry x).key_idx).key
    keys x n = elim (ℕ_discrete (h.buckets.entry x).key_idx (h.buckets.entry p).key_idx) [
      | yes e ↦
          ap (λ (i : ℕ). (kept_keys i).key) e
          ∙ ap (λ (k : Key). k.key) (update_self h.key_store (h.buckets.entry p).key_idx _)
          ∙ sym (ap (λ (i : ℕ). (h.key_store i).key) e)
      | no ne ↦ ap (λ (k : Key). k.key) (update-ne h.key_store (h.buckets.entry p).key_idx _ _ ne)
    ]

    pub updated-Puts :
        Puts h key pdata (record h { free_slots = put_slot rest slot; key_store = kept_keys })
    updated-Puts = record {
      valid =
          IsValid-alike h v (put_slot rest slot) kept_keys h.buckets (Same-refl h.buckets) keys
            t.put_back.0 t.put_back.1 t.put_back.2;
      this = (
        p,
        IsFor-alike h v (put_slot rest slot) kept_keys h.buckets (Same-refl h.buckets) keys key p f,
        ap (λ (k : Key). k.pdata) (update_self h.key_store (h.buckets.entry p).key_idx _),
      );
      others = λ k ne.
          Holds-Carries h _ k (lookup h k)
            (Carries-alike h v (put_slot rest slot) kept_keys h.buckets (Same-refl h.buckets) keys k
              (λ x g.
                ap (λ (a : Key). a.pdata)
                  (update-ne h.key_store (h.buckets.entry p).key_idx _ _
                    (λ e. ne (sym g.its_key ∙ ap (λ (i : ℕ). (h.key_store i).key) e ∙ f.its_key)))))
            (lookup-Holds h k v);
    }
