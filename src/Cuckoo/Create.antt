-- ===== src/Cuckoo/Create.antt =====
-- `cuckoohash_create` and `cuckoohash_destroy`.
use pkt_sender.Prelude.{
  ℕ, zero, suc, ◌+◌, ◌*◌, ◌/◌, ◌%◌, ◌^◌, false, ◌||◌, List, [], ◌∷◌, ◌++◌, Option, none, some,
  if◌then◌else◌, ltb, ◌==◌, replicate,
}
use pkt_sender.Prelude.Words.{add32, sub32}
use pkt_sender.Ring.Defs.{Ring, roundup_2}
use pkt_sender.Ring.Create.{System, Call, maps, unmaps, create as create_ring}
use pkt_sender.Ring.Slots.{SlotRing, put_slot}
use pkt_sender.Cuckoo.Defs.{Table, null_entry, hash_bucket_entries, hash_entries_min}

-- `sizeof` of a table, of a bucket and of a key without its bytes.
abbrev pub table_size : ℕ
table_size = 48

abbrev pub bucket_size : ℕ
bucket_size = 56

abbrev pub pointer_size : ℕ
pointer_size = 8

-- The loop that populates the ring of free slots, with `n` rounds left from slot `i` on.
unfoldable pub populate : ℕ → ℕ → SlotRing → SlotRing
populate zero i r = r
populate (suc n) i r = populate n (suc i) (put_slot r i)

unfoldable pub real_size_of : ℕ → ℕ → ℕ → ℕ
real_size_of key entry_nr bucket_nr =
    (table_size + bucket_nr * bucket_size + add32 entry_nr 1 * (pointer_size + key)) % 2 ^ 32

-- The table in memory that is all zeros, with the fields that are filled in.
unfoldable pub new_table : ℕ → ℕ → ℕ → SlotRing → Table
new_table key entry_nr bucket_nr slots = record {
  entries = entry_nr;
  num_buckets = bucket_nr;
  key_len = key;
  bucket_bitmask = sub32 bucket_nr 1;
  key_entry_size = add32 pointer_size key;
  real_size = real_size_of key entry_nr bucket_nr;
  free_slots = slots;
  key_store = λ i. record { key = replicate key 0; pdata = 0 };
  buckets = record { entry = λ p. null_entry; flag = λ p. 0 };
}

-- -EINVAL, -ENOMEM, or the table.
pub data CreateResult : Type 0 where
  einval enomem : CreateResult
  created : Table → CreateResult

-- What follows the creation of the ring: its numbers are put in, or the mapping is undone. With the
-- calls to the system, that of the mapping first.
unfoldable pub with_ring : ℕ → ℕ → ℕ → Option Ring × List Call → CreateResult × List Call
with_ring key entry_nr bucket_nr (none, calls) =
    let real_size = real_size_of key entry_nr bucket_nr in
    (enomem, maps real_size ∷ calls ++ (unmaps real_size ∷ []))
with_ring key entry_nr bucket_nr (some r, calls) = (
  created (
      new_table key entry_nr bucket_nr
        (populate (sub32 (add32 entry_nr 1) 1) 1 (record { data_size = r.data_size; slots = [] }))),
  maps (real_size_of key entry_nr bucket_nr) ∷ calls,
)

unfoldable pub create_buckets : System → ℕ → ℕ → ℕ → CreateResult × List Call
create_buckets sys key entry_nr bucket_nr =
    let real_size = real_size_of key entry_nr bucket_nr in
    if sys.map_ok real_size
    then with_ring key entry_nr bucket_nr (create_ring sys false (4 * add32 entry_nr 1 % 2 ^ 32))
    else (enomem, maps real_size ∷ [])

-- `cuckoohash_create`
unfoldable pub cuckoohash_create : System → ℕ → ℕ → CreateResult × List Call
cuckoohash_create sys key entry_nr =
    if key == 0 || entry_nr == 0
    then (einval, [])
    else let entry_nr' = if ltb entry_nr hash_entries_min then hash_entries_min else entry_nr in
      create_buckets sys key entry_nr' (roundup_2 entry_nr' / hash_bucket_entries)

-- `cuckoohash_destroy`, where `size` is the size of the ring of free slots; the table may be NULL.
unfoldable pub cuckoohash_destroy : Option Table → ℕ → List Call
cuckoohash_destroy none size = []
cuckoohash_destroy (some h) size = unmaps size ∷ unmaps h.real_size ∷ []
