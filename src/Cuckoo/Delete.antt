-- ===== src/Cuckoo/Delete.antt =====
-- What `cuckoohash_del_key` leaves.
use pkt_sender.Prelude.{
  ℕ, suc, ◌+◌, ◌*◌, ◌≡◌, ◌≢◌, refl, sym, ap, subst, ◌∙◌, inl, inr, Bool, true, false, List, [], ◌∷◌,
  ◌++◌, Option, none, some, arith, if◌then◌else◌, ltb, length, ◌==◌, Bool-cases,
}
use pkt_sender.Ring.Slots.{SlotRing, put_slot}
use pkt_sender.Cuckoo.Defs.{Entry, Table, is_null, hash, same_key}
use pkt_sender.Cuckoo.Table.{read_entry, lookup_data, clear_entry, del_key, find_del}
use pkt_sender.Cuckoo.Search.{Found}
use pkt_sender.Cuckoo.Moves.{Placed-fewer, update_self, update-ne}
use pkt_sender.Cuckoo.Valid.{
  IsValid, IsFor, KeyPair, KeySame, mem, AreDistinct, same_key-equal, same_key_refl,
}
use pkt_sender.Cuckoo.Lookup.{IsFor-unique, find_del-Found}
use pkt_sender.Cuckoo.Holds.{Holds, lookup, lookup-Holds, Holds-lookup, find_lookup-same}

mem-append : (x y : ℕ) (ys : List ℕ) → mem x ys ≡ false → x ≢ y → mem x (ys ++ (y ∷ [])) ≡ false
mem-append x y [] m ne = ground arith
mem-append x y (z ∷ ys) m ne = ground (arith, mem-append x y ys)

AreDistinct-append :
    (y : ℕ) (ys : List ℕ) → mem y ys ≡ false → AreDistinct ys → AreDistinct (ys ++ (y ∷ []))
AreDistinct-append y [] m d = (refl, tt)
AreDistinct-append y (z ∷ ys) m d = elim (Bool-cases (y == z)) [
  | inl e ↦ cc (rw e at m)
  | inr e ↦ (mem-append z y ys d.0 (λ same. ground arith), AreDistinct-append y ys (rw e at m) d.1)
]

-- A slot that is put back where it is not yet.
pub put_slot-mem :
    (r : SlotRing) (x y : ℕ) → mem x r.slots ≡ false → x ≢ y → mem x (put_slot r y).slots ≡ false
unfolding put_slot
put_slot-mem r x y m ne = elim (Bool-cases (ltb (4 * length r.slots + 4) r.data_size)) [
  | inl e ↦ rw e (mem-append x y r.slots m ne)
  | inr e ↦ rw e m
]

pub put_slot-AreDistinct :
    (r : SlotRing) (y : ℕ)
    → mem y r.slots ≡ false
    → AreDistinct r.slots
    → AreDistinct (put_slot r y).slots
unfolding put_slot
put_slot-AreDistinct r y m d = elim (Bool-cases (ltb (4 * length r.slots + 4) r.data_size)) [
  | inl e ↦ rw e (AreDistinct-append y r.slots m d)
  | inr e ↦ rw e d
]

module _ (h : Table) (v : IsValid h) (key : List ℕ) (p : ℕ) (f : IsFor h key p) where
  abbrev h' : Table
  h' = (clear_entry h (some p)).0

  -- An entry in use afterwards is another one, and as it was.
  same_entry : (x : ℕ) → x ≢ p → h'.buckets.entry x ≡ h.buckets.entry x
  unfolding clear_entry
  same_entry x ne = update-ne h.buckets.entry p x _ ne

  another : (x : ℕ) → is_null (h'.buckets.entry x) ≡ false → x ≢ p
  unfolding clear_entry is_null
  another x n e = cc (
    n,
    ap (λ (y : ℕ). is_null (h'.buckets.entry y)) e,
    ap is_null
        (update_self h.buckets.entry p (record (h.buckets.entry p) { current = 0; alt = 0 })),
  )

  was_in_use : (x : ℕ) → is_null (h'.buckets.entry x) ≡ false → is_null (h.buckets.entry x) ≡ false
  was_in_use x n = subst (λ (e : Entry). is_null e ≡ false) (same_entry x (another x n)) n

  -- A slot in use is one entry's only.
  own_slot :
      (x : ℕ)
      → is_null (h.buckets.entry x) ≡ false
      → x ≢ p
      → (h.buckets.entry x).key_idx ≢ (h.buckets.entry p).key_idx
  own_slot x n ne e = ne (
      (v.placed (suc (x + p))).apart x p (n, omega arith) (f.in_use, omega arith)
        (ap (λ (i : ℕ). (h.key_store i).key) e))

  clear_entry-IsValid : IsValid h'
  unfolding clear_entry hash
  clear_entry-IsValid = record {
    bits = v.bits;
    size = v.size;
    mask = v.mask;
    placed = λ hole.
        Placed-fewer h.bucket_bitmask (KeyPair h) (KeySame h) h.buckets h'.buckets hole hole
          (λ x l. ((was_in_use x l.0, l.1), same_entry x (another x l.0))) (v.placed hole);
    no_flags = v.no_flags;
    not_free = λ x n.
        subst (λ (e : Entry). mem e.key_idx h'.free_slots.slots ≡ false)
          (sym (same_entry x (another x n)))
          (put_slot-mem h.free_slots _ _ (v.not_free x (was_in_use x n))
            (own_slot x (was_in_use x n) (another x n)));
    distinct = put_slot-AreDistinct h.free_slots _ (v.not_free p f.in_use) v.distinct;
    nonzero = λ x n.
        subst (λ (e : Entry). e.key_idx ≢ 0) (sym (same_entry x (another x n)))
          (v.nonzero x (was_in_use x n));
    nonzero_free = put_slot-mem h.free_slots 0 _ v.nonzero_free (λ e. v.nonzero p f.in_use (sym e));
  }

  IsFor-before : (k : List ℕ) (x : ℕ) → IsFor h' k x → IsFor h k x × (x ≢ p)
  unfolding clear_entry
  IsFor-before k x g = (
    record {
      in_use = was_in_use x g.in_use;
      its_key =
          subst (λ (e : Entry). (h.key_store e.key_idx).key ≡ k) (same_entry x (another x g.in_use))
            g.its_key;
    },
    another x g.in_use,
  )

  IsFor-after : (k : List ℕ) (x : ℕ) → IsFor h k x → x ≢ p → IsFor h' k x
  unfolding clear_entry
  IsFor-after k x g ne = record {
    in_use = subst (λ (e : Entry). is_null e ≡ false) (sym (same_entry x ne)) g.in_use;
    its_key =
        subst (λ (e : Entry). (h.key_store e.key_idx).key ≡ k) (sym (same_entry x ne)) g.its_key;
  }

  gone : Holds h' key none
  gone x g = let (before, ne) = IsFor-before key x g in ne (IsFor-unique h key v x p before f)

  elsewhere : (k : List ℕ) (x : ℕ) → k ≢ key → IsFor h k x → x ≢ p
  elsewhere k x ne g same = ne (
      sym g.its_key
      ∙ ap (λ (y : ℕ). (h.key_store (h.buckets.entry y).key_idx).key) same
      ∙ f.its_key)

  others : (k : List ℕ) (o : Option ℕ) → k ≢ key → Holds h k o → Holds h' k o
  unfolding clear_entry
  others k none ne g = λ x a. g x (IsFor-before k x a).0
  others k (some d) ne (x, g, e) = (
    x,
    IsFor-after k x g (elsewhere k x ne g),
    subst (λ (a : Entry). (h.key_store a.key_idx).pdata ≡ d)
        (sym (same_entry x (elsewhere k x ne g))) e,
  )

-- Whatever the search found.
clear-IsValid :
    (h : Table) (key : List ℕ) (o : Option ℕ)
    → IsValid h
    → Found (IsFor h key) o
    → IsValid (clear_entry h o).0
unfolding clear_entry
clear-IsValid h key none v f = v
clear-IsValid h key (some p) v f = clear_entry-IsValid h v key p f

-- After a removal the table answers none for the key, and as before for any other.
clear-Holds :
    (h : Table) (key k : List ℕ) (o : Option ℕ) (b : Bool)
    → IsValid h
    → Found (IsFor h key) o
    → same_key key k ≡ b
    → Holds (clear_entry h o).0 k (if b then none else lookup h k)
unfolding clear_entry
clear-Holds h key k none true v f e =
    subst (λ (k' : List ℕ). Holds h k' none) (same_key-equal key k e) f
clear-Holds h key k none false v f e = lookup-Holds h k v
clear-Holds h key k (some p) true v f e =
    subst (λ (k' : List ℕ). Holds (clear_entry h (some p)).0 k' none) (same_key-equal key k e)
      (gone h v key p f)
clear-Holds h key k (some p) false v f e =
    others h v key p f k (lookup h k)
      (λ same.
        cc (subst (λ (k' : List ℕ). same_key key k' ≡ true) (sym same) (same_key_refl key), e))
      (lookup-Holds h k v)

answers : (h : Table) (o : Option ℕ) → (clear_entry h o).1 ≡ (read_entry h o).0
unfolding clear_entry read_entry
answers h none = refl
answers h (some p) = refl

-- `cuckoohash_del_key` keeps a table valid.
del_key-IsValid : (h : Table) (key : List ℕ) → IsValid h → IsValid (del_key h key).0
unfolding del_key
del_key-IsValid h key v =
    clear-IsValid h key (find_del h key (hash h key)) v (find_del-Found h key v)

-- In a valid table, `cuckoohash_del_key` leaves a valid table and answers what a lookup of the
-- key answers, an index or -ENOENT; afterwards a lookup of that key finds none, and one of any
-- other key what it found before.
pub del_key-lookup :
    (h : Table) (key k : List ℕ)
    → IsValid h
    → IsValid (del_key h key).0
      × ((del_key h key).1 ≡ (lookup_data h key).0)
      × (lookup (del_key h key).0 k ≡ (if same_key key k then none else lookup h k))
unfolding del_key lookup_data read_entry
del_key-lookup h key k v = (
  del_key-IsValid h key v,
  answers h (find_del h key (hash h key))
      ∙ ap (λ (o : Option ℕ). (read_entry h o).0) (sym (find_lookup-same h key v).1),
  Holds-lookup (del_key h key).0 k _ (del_key-IsValid h key v) (
      clear-Holds h key k (find_del h key (hash h key)) (same_key key k) v (find_del-Found h key v)
        refl),
)
