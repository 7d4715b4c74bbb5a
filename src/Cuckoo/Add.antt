-- ===== src/Cuckoo/Add.antt =====
-- What `cuckoohash_add_key_data` answers and leaves.
use pkt_sender.Prelude.{
  ℕ, suc, ◌*◌, ◌≡◌, refl, sym, subst, Bool, true, false, ◌&&◌, List, [], ◌∷◌, Option, none, some,
  if◌then◌else◌,
}
use pkt_sender.Ring.Slots.{SlotRing, get_slot, take_slot}
use pkt_sender.Cuckoo.Defs.{Table, is_null, hash, same_key, first_in}
use pkt_sender.Cuckoo.Table.{
  Answer, index, enoent, enospc, copy_key, primary_bucket, add_found, add_with_slot,
  add_key_with_hash, add_key_data, answer_zero, index_of,
}
use pkt_sender.Cuckoo.Search.{Found, first_in-FindsIn}
use pkt_sender.Cuckoo.Valid.{IsValid, IsFor, same_key-equal, same_key_refl}
use pkt_sender.Cuckoo.Lookup.{find_add-Found}
use pkt_sender.Cuckoo.Holds.{Holds, lookup, lookup-Holds, Holds-lookup}
use pkt_sender.Cuckoo.Taken.{
  Puts, Leaves, Adds, TakesSlot, takes_slot, taken_table, taken-IsValid, updated-Puts,
}
use pkt_sender.Cuckoo.Insert.{new-Adds}

module _ (h : Table) (v : IsValid h) (key : List ℕ) (pdata : ℕ) where
  add_found-Adds :
      (slot : ℕ) (rest : SlotRing) (t : TakesSlot h slot rest) (o : Option ℕ)
      → Found (IsFor (taken_table h v slot rest t) key) o
      → Adds h key pdata (
          add_found
            (taken_table h v slot rest t)
            key
            (hash h key)
            pdata
            slot
            (suc (4 * h.num_buckets))
            o)
  unfolding add_found index_of copy_key
  add_found-Adds slot rest t (some p) f =
      updated-Puts h v key pdata slot rest t p (record { in_use = f.in_use; its_key = f.its_key })
  add_found-Adds slot rest t none f =
      new-Adds h v key pdata slot rest t
        (λ p g. f p (record { in_use = g.in_use; its_key = g.its_key }))
        (first_in (λ p. is_null (h.buckets.entry p)) (primary_bucket h (hash h key)))
        (first_in-FindsIn (λ p. is_null (h.buckets.entry p)) (primary_bucket h (hash h key)))

  unchanged : Leaves h h
  unchanged = record { valid = v; all = λ k. lookup-Holds h k v }

  slot-Adds :
      (slots : List ℕ)
      → h.free_slots.slots ≡ slots
      → Adds h key pdata (
          add_with_slot h key
            (hash h key)
            pdata
            (suc (4 * h.num_buckets))
            (take_slot h.free_slots.data_size slots))
  unfolding add_with_slot take_slot hash
  slot-Adds [] e = unchanged
  slot-Adds (slot ∷ slots) e =
      let t =
        takes_slot h v slot (record { data_size = h.free_slots.data_size; slots = slots }) e in
      add_found-Adds slot (record { data_size = h.free_slots.data_size; slots = slots }) t _
        (find_add-Found (taken_table h v slot _ t) key (taken-IsValid h v slot _ t))

  zero-Adds : (r : Option (Table × Answer)) → Adds h key pdata r → Adds h key pdata (answer_zero r)
  unfolding answer_zero
  zero-Adds none a = a
  zero-Adds (some (h', index i)) a = a
  zero-Adds (some (h', enoent)) a = a
  zero-Adds (some (h', enospc)) a = a

  add_key_data-Adds : Adds h key pdata (add_key_data h key pdata)
  unfolding add_key_data add_key_with_hash get_slot
  add_key_data-Adds = zero-Adds _ (slot-Adds h.free_slots.slots refl)

abbrev pub succeeded : Answer → Bool
succeeded (index i) = true
succeeded enoent = false
succeeded enospc = false

-- The table after a call, by the answer `a`.
abbrev pub Result : Table → List ℕ → ℕ → Table → Answer → Type 0
Result h key pdata h' a =
    IsValid h'
    × ((k : List ℕ)
        → lookup h' k ≡ (if succeeded a && same_key key k then some pdata else lookup h k))

module _ (h : Table) (v : IsValid h) (key : List ℕ) (pdata : ℕ) where
  Puts-lookup :
      (h' : Table) (k : List ℕ) (b : Bool)
      → Puts h key pdata h'
      → same_key key k ≡ b
      → lookup h' k ≡ (if b then some pdata else lookup h k)
  Puts-lookup h' k true p e =
      Holds-lookup h' k (some pdata) p.valid
        (subst (λ (x : List ℕ). Holds h' x (some pdata)) (same_key-equal key k e) p.this)
  Puts-lookup h' k false p e = Holds-lookup h' k (lookup h k) p.valid (
      p.others k (λ same.
        cc (subst (λ (x : List ℕ). same_key key x ≡ true) (sym same) (same_key_refl key), e)))

  Adds-Result :
      (r : Option (Table × Answer))
      → Adds h key pdata r
      → (h' : Table) × (a : Answer) × (r ≡ some (h', a)) × Result h key pdata h' a
  Adds-Result none a = elim a [ ]
  Adds-Result (some (h', index i)) p =
      (h', index i, refl, (p.valid, λ k. Puts-lookup h' k (same_key key k) p refl))
  Adds-Result (some (h', enoent)) p = elim p [ ]
  Adds-Result (some (h', enospc)) p =
      (h', enospc, refl, (p.valid, λ k. Holds-lookup h' k (lookup h k) p.valid (p.all k)))

-- On a valid table, `cuckoohash_add_key_data` returns, with its fuel, and leaves a valid table.
-- Where it succeeds, a lookup of the key answers the pointer and one of any other key what it
-- answered before; where it does not, every lookup answers what it answered before.
pub add_key_data_lem :
    (h : Table) (key : List ℕ) (pdata : ℕ)
    → IsValid h
    → (h' : Table) × (a : Answer) × (add_key_data h key pdata ≡ some (h', a))
      × Result h key pdata h' a
add_key_data_lem h key pdata v =
    Adds-Result h v key pdata (add_key_data h key pdata) (add_key_data-Adds h v key pdata)
