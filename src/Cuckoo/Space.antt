-- ===== src/Cuckoo/Space.antt =====
-- `make_space_bucket` of tools/cuckoohash.c. Where the code gives the place `i` in its bucket, this
-- gives the number of the entry.
use pkt_sender.Prelude.{ℕ, zero, suc, ◌*◌, bit_and, Option, none, some, ◌==◌}
use pkt_sender.Cuckoo.Defs.{Buckets, is_null, first_in, update, hash_bucket_entries}

-- The bucket of an entry's alternative place.
unfoldable pub next_bucket : ℕ → Buckets → ℕ → ℕ
next_bucket bitmask s p = bit_and (s.entry p).alt bitmask

unfoldable pub set_flag : Buckets → ℕ → ℕ → Buckets
set_flag s p f = record s { flag = update s.flag p f }

-- The entry `p`, with its signatures exchanged, is copied to `q`.
unfoldable pub push_entry : Buckets → ℕ → ℕ → Buckets
push_entry s p q = record s {
  entry = update s.entry q (record {
    current = (s.entry p).alt;
    alt = (s.entry p).current;
    key_idx = (s.entry p).key_idx;
  });
}

unfoldable pub choose : ℕ → Option ℕ → Option (ℕ × ℕ) → Option (ℕ × ℕ)
choose p (some q) rest = some (p, q)
choose p none rest = rest

-- The first loop, with `n` entries left from `p` on: an entry, and an empty place in its alternative
-- bucket.
unfoldable pub find_spare : ℕ → Buckets → ℕ → ℕ → Option (ℕ × ℕ)
find_spare bitmask s zero p = none
find_spare bitmask s (suc n) p =
    choose p (first_in (λ q. is_null (s.entry q)) (next_bucket bitmask s p))
      (find_spare bitmask s n (suc p))

-- What follows the recursive call that has made room at `q`, or has not.
unfoldable pub after_push : ℕ → Option (Buckets × Option ℕ) → Option (Buckets × Option ℕ)
after_push p none = none
after_push p (some (s, none)) = some (set_flag s p 0, none)
after_push p (some (s, some q)) = some (push_entry (set_flag s p 0) p q, some p)

-- The body, with the results of its two loops, and the recursive call for an entry.
unfoldable pub make_space_body :
    Buckets
    → Option (ℕ × ℕ)
    → Option ℕ
    → (ℕ → Option (Buckets × Option ℕ))
    → Option (Buckets × Option ℕ)
make_space_body s (some (p, q)) unpushed rec = some (push_entry s p q, some p)
make_space_body s none none rec = some (s, none)
make_space_body s none (some p) rec = after_push p (rec p)

-- `make_space_bucket` on bucket `b`. The outer `none` is a want of fuel, which is the depth of the
-- recursion; the inner one is -ENOSPC.
unfoldable pub make_space_bucket : ℕ → ℕ → Buckets → ℕ → Option (Buckets × Option ℕ)
make_space_bucket bitmask zero s b = none
make_space_bucket bitmask (suc fuel) s b =
    make_space_body s (find_spare bitmask s hash_bucket_entries (hash_bucket_entries * b))
      (first_in (λ p. s.flag p == 0) b)
      (λ p. make_space_bucket bitmask fuel (set_flag s p 1) (next_bucket bitmask s p))
