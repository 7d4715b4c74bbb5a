-- ===== src/Cuckoo/Defs.antt =====
-- The structures of tools/cuckoohash.c and tools/cuckoohash.h.
-- Entry `i` of bucket `b` is number 4 * b + i, as `cuckoohash_iterate` counts them. An array is a
-- function of its index: no index passes the end, since a bucket's is masked, and a key's is a slot.
use pkt_sender.Prelude.{
  ℕ, zero, suc, ◌+◌, ◌*◌, ◌/◌, ◌%◌, ◌^◌, bit_xor, Bool, true, false, ◌&&◌, List, [], ◌∷◌, Option,
  none, some, if◌then◌else◌, ◌==◌,
}
use pkt_sender.Ring.Slots.{SlotRing}
use pkt_sender.Crc.Hash.{hash_crc32c}

-- `HASH_BUCKET_ENTRIES`, `HASH_ENTRIES_MIN` and `CUCKOO_HASH_INIT_VAL`
abbrev pub hash_bucket_entries : ℕ
hash_bucket_entries = 4

abbrev pub hash_entries_min : ℕ
hash_entries_min = 8

abbrev pub cuckoo_hash_init_val : ℕ
cuckoo_hash_init_val = 7

-- An entry's signatures and its `key_idx`.
pub record Entry : Type 0 where
  pub current : ℕ
  pub alt : ℕ
  pub key_idx : ℕ

-- The `key_len` bytes of a key, and the pointer stored with it.
pub record Key : Type 0 where
  pub key : List ℕ
  pub pdata : ℕ

-- The array of buckets.
pub record Buckets : Type 0 where
  pub entry : ℕ → Entry
  pub flag : ℕ → ℕ

pub record Table : Type 0 where
  pub entries : ℕ
  pub num_buckets : ℕ
  pub key_len : ℕ
  pub bucket_bitmask : ℕ
  pub key_entry_size : ℕ
  pub real_size : ℕ
  pub free_slots : SlotRing
  pub key_store : ℕ → Key
  pub buckets : Buckets

-- `sig == NULL_SIGNATURE`, where `sig` is the two signatures as one number.
unfoldable pub is_null : Entry → Bool
is_null e = e.current == 0 && e.alt == 0

abbrev pub null_entry : Entry
null_entry = record { current = 0; alt = 0; key_idx = 0 }

-- `hash`
unfoldable pub hash : Table → List ℕ → ℕ
hash h key = hash_crc32c key h.key_len cuckoo_hash_init_val

unfoldable pub hash_secondary : ℕ → ℕ
hash_secondary primary_hash =
    let tag = primary_hash / 2 ^ 12 in bit_xor primary_hash ((tag + 1) * 0x5bd1e995 % 2 ^ 32)

-- `memcmp(key, k->key, h->key_len) == 0`
unfoldable pub same_key : List ℕ → List ℕ → Bool
same_key [] [] = true
same_key [] (y ∷ ys) = false
same_key (x ∷ xs) [] = false
same_key (x ∷ xs) (y ∷ ys) = x == y && same_key xs ys

-- A `for` loop that looks for the first of `n` entries from `p` on that passes a test.
unfoldable pub first : (ℕ → Bool) → ℕ → ℕ → Option ℕ
first test zero p = none
first test (suc n) p = let rest = first test n (suc p) in if test p then some p else rest

-- Such a loop over a bucket.
abbrev pub first_in : (ℕ → Bool) → ℕ → Option ℕ
first_in test b = first test hash_bucket_entries (hash_bucket_entries * b)

-- A field of one entry is written.
abbrev pub update {ℓ} : {A : Type ℓ} → (ℕ → A) → ℕ → A → ℕ → A
update f p x q = if q == p then x else f q
