-- ===== src/Cuckoo/Table.antt =====
-- The operations of tools/cuckoohash.c on a table. A table or a key that is NULL is not modelled.
use pkt_sender.Prelude.{ℕ, suc, ◌-◌, ◌*◌, bit_and, Bool, not, ◌&&◌, List, Option, none, some, ◌==◌}
use pkt_sender.Ring.Slots.{SlotRing, put_slot, get_slot}
use pkt_sender.Cuckoo.Defs.{
  Buckets, Table, is_null, hash, hash_secondary, same_key, first_in, update, hash_bucket_entries,
}
use pkt_sender.Cuckoo.Space.{make_space_bucket}

-- -EINVAL, -ENOENT and -ENOSPC, or an index.
pub data Answer : Type 0 where
  index : ℕ → Answer
  enoent enospc : Answer

abbrev pub has_key : Table → List ℕ → ℕ → Bool
has_key h key p = same_key key (h.key_store (h.buckets.entry p).key_idx).key

-- The first result of two searches.
unfoldable pub or_else : Option ℕ → Option ℕ → Option ℕ
or_else (some p) q = some p
or_else none q = q

abbrev pub primary_bucket : Table → ℕ → ℕ
primary_bucket h sig = bit_and sig h.bucket_bitmask

abbrev pub secondary_bucket : Table → ℕ → ℕ
secondary_bucket h sig = bit_and (hash_secondary sig) h.bucket_bitmask

-- An entry passes where it has the signature, is in use and is for the key; or, next, where it has
-- both signatures and is for the key.
abbrev pub signed : Table → List ℕ → ℕ → ℕ → Bool
signed h key sig p =
    (h.buckets.entry p).current == sig && (not (is_null (h.buckets.entry p)) && has_key h key p)

abbrev pub signed_twice : Table → List ℕ → ℕ → ℕ → ℕ → Bool
signed_twice h key current alt p =
    (h.buckets.entry p).current == current && ((h.buckets.entry p).alt == alt && has_key h key p)

-- The two loops of `__cuckoohash_lookup_with_hash`.
unfoldable pub find_lookup : Table → List ℕ → ℕ → Option ℕ
find_lookup h key sig =
    or_else (first_in (signed h key sig) (primary_bucket h sig))
      (first_in (signed_twice h key (hash_secondary sig) sig) (secondary_bucket h sig))

-- The two loops of `__cuckoohash_add_key_with_hash` that look for the key.
unfoldable pub find_add : Table → List ℕ → ℕ → Option ℕ
find_add h key sig =
    or_else (first_in (signed_twice h key sig (hash_secondary sig)) (primary_bucket h sig))
      (first_in (signed_twice h key (hash_secondary sig) sig) (secondary_bucket h sig))

-- The two loops of `__cuckoohash_del_key_with_hash`.
unfoldable pub find_del : Table → List ℕ → ℕ → Option ℕ
find_del h key sig =
    or_else (first_in (signed h key sig) (primary_bucket h sig))
      (first_in (signed h key (hash_secondary sig)) (secondary_bucket h sig))

-- The index of an entry, without the first dummy: an entry in use has an index of 1 at least, which
-- the invariant says.
unfoldable pub index_of : Table → ℕ → Answer
index_of h p = index ((h.buckets.entry p).key_idx - 1)

-- What a lookup answers and stores where it has found an entry, or none.
unfoldable pub read_entry : Table → Option ℕ → Answer × Option ℕ
read_entry h none = (enoent, none)
read_entry h (some p) = (index_of h p, some (h.key_store (h.buckets.entry p).key_idx).pdata)

-- `cuckoohash_lookup_data`, and what it stores in `data`.
unfoldable pub lookup_data : Table → List ℕ → Answer × Option ℕ
lookup_data h key = read_entry h (find_lookup h key (hash h key))

unfoldable pub clear_entry : Table → Option ℕ → Table × Answer
clear_entry h none = (h, enoent)
clear_entry h (some p) = (
  record h {
    buckets = record h.buckets {
      entry = update h.buckets.entry p (record (h.buckets.entry p) { current = 0; alt = 0 });
    };
    free_slots = put_slot h.free_slots (h.buckets.entry p).key_idx;
  },
  index_of h p,
)

-- `cuckoohash_del_key`
unfoldable pub del_key : Table → List ℕ → Table × Answer
del_key h key = clear_entry h (find_del h key (hash h key))

-- An entry of the key with this hash, whose key is in `slot`.
unfoldable pub write_entry : Table → ℕ → ℕ → ℕ → Table
write_entry h p sig slot = record h {
  buckets = record h.buckets {
    entry =
        update h.buckets.entry p
          (record { current = sig; alt = hash_secondary sig; key_idx = slot });
  };
}

-- The end of `__cuckoohash_add_key_with_hash`, after `make_space_bucket`.
unfoldable pub add_pushed : Table → ℕ → ℕ → Option (Buckets × Option ℕ) → Option (Table × Answer)
add_pushed h sig slot none = none
add_pushed h sig slot (some (s, none)) =
    some (record h { buckets = s; free_slots = put_slot h.free_slots slot }, enospc)
add_pushed h sig slot (some (s, some p)) =
    some (write_entry (record h { buckets = s }) p sig slot, index (slot - 1))

-- The part from the copy of the key on: an empty place in the primary bucket, or none.
unfoldable pub add_new : Table → ℕ → ℕ → ℕ → Option ℕ → Option (Table × Answer)
add_new h sig slot fuel (some p) = some (write_entry h p sig slot, index (slot - 1))
add_new h sig slot fuel none =
    add_pushed h sig slot (make_space_bucket h.bucket_bitmask fuel h.buckets (primary_bucket h sig))

unfoldable pub copy_key : Table → ℕ → List ℕ → ℕ → Table
copy_key h slot key pdata = record h {
  key_store = update h.key_store slot (record { key = key; pdata = pdata });
}

-- The part after the slot is taken: the key is there already, or it is not.
unfoldable pub add_found : Table → List ℕ → ℕ → ℕ → ℕ → ℕ → Option ℕ → Option (Table × Answer)
add_found h key sig pdata slot fuel (some p) =
    let k = (h.buckets.entry p).key_idx in
    some (
      record h {
        free_slots = put_slot h.free_slots slot;
        key_store = update h.key_store k (record (h.key_store k) { pdata = pdata });
      },
      index_of h p,
    )
add_found h key sig pdata slot fuel none =
    add_new (copy_key h slot key pdata) sig slot fuel
      (first_in (λ p. is_null (h.buckets.entry p)) (primary_bucket h sig))

unfoldable pub add_with_slot :
    Table → List ℕ → ℕ → ℕ → ℕ → Option (ℕ × SlotRing) → Option (Table × Answer)
add_with_slot h key sig pdata fuel none = some (h, enospc)
add_with_slot h key sig pdata fuel (some (slot, rest)) =
    let h' = record h { free_slots = rest } in
    add_found h' key sig pdata slot fuel (find_add h' key sig)

-- `__cuckoohash_add_key_with_hash`, with fuel for `make_space_bucket`.
unfoldable pub add_key_with_hash : Table → List ℕ → ℕ → ℕ → ℕ → Option (Table × Answer)
add_key_with_hash h key sig pdata fuel = add_with_slot h key sig pdata fuel (get_slot h.free_slots)

-- `ret >= 0`, and then 0.
unfoldable pub answer_zero : Option (Table × Answer) → Option (Table × Answer)
answer_zero none = none
answer_zero (some (h, index i)) = some (h, index 0)
answer_zero (some (h, enoent)) = some (h, enoent)
answer_zero (some (h, enospc)) = some (h, enospc)

-- `cuckoohash_add_key_data`. A recursion of `make_space_bucket` is no deeper than the table has entries, and one.
unfoldable pub add_key_data : Table → List ℕ → ℕ → Option (Table × Answer)
add_key_data h key pdata =
    answer_zero
      (add_key_with_hash h key (hash h key) pdata (suc (hash_bucket_entries * h.num_buckets)))
