-- ===== src/Cuckoo/Sized.antt =====
-- `cuckoohash_add_key_data` leaves the number of buckets.
use pkt_sender.Prelude.{ℕ, suc, ◌*◌, ◌≡◌, refl, subst, List, Option, none, some}
use pkt_sender.Ring.Slots.{SlotRing, get_slot}
use pkt_sender.Cuckoo.Defs.{Buckets, Table, is_null, hash, first_in}
use pkt_sender.Cuckoo.Space.{make_space_bucket}
use pkt_sender.Cuckoo.Table.{
  Answer, index, enoent, enospc, primary_bucket, write_entry, copy_key, add_pushed, add_new,
  add_found, add_with_slot, add_key_with_hash, add_key_data, answer_zero, find_add,
}

abbrev IsSized : ℕ → Option (Table × Answer) → Type 0
IsSized n none = Unit
IsSized n (some (h, a)) = h.num_buckets ≡ n

add_pushed-IsSized :
    (h : Table) (sig slot : ℕ) (r : Option (Buckets × Option ℕ))
    → IsSized h.num_buckets (add_pushed h sig slot r)
unfolding add_pushed write_entry
add_pushed-IsSized h sig slot none = tt
add_pushed-IsSized h sig slot (some (s, none)) = refl
add_pushed-IsSized h sig slot (some (s, some p)) = refl

add_new-IsSized :
    (h : Table) (sig slot fuel : ℕ) (o : Option ℕ)
    → IsSized h.num_buckets (add_new h sig slot fuel o)
unfolding add_new write_entry
add_new-IsSized h sig slot fuel (some p) = refl
add_new-IsSized h sig slot fuel none =
    add_pushed-IsSized h sig slot
      (make_space_bucket h.bucket_bitmask fuel h.buckets (primary_bucket h sig))

add_found-IsSized :
    (h : Table) (key : List ℕ) (sig pdata slot fuel : ℕ) (o : Option ℕ)
    → IsSized h.num_buckets (add_found h key sig pdata slot fuel o)
unfolding add_found copy_key
add_found-IsSized h key sig pdata slot fuel (some p) = refl
add_found-IsSized h key sig pdata slot fuel none =
    add_new-IsSized (copy_key h slot key pdata) sig slot fuel
      (first_in (λ p. is_null (h.buckets.entry p)) (primary_bucket h sig))

add_with_slot-IsSized :
    (h : Table) (key : List ℕ) (sig pdata fuel : ℕ) (o : Option (ℕ × SlotRing))
    → IsSized h.num_buckets (add_with_slot h key sig pdata fuel o)
unfolding add_with_slot
add_with_slot-IsSized h key sig pdata fuel none = refl
add_with_slot-IsSized h key sig pdata fuel (some (slot, rest)) =
    add_found-IsSized (record h { free_slots = rest }) key sig pdata slot fuel
      (find_add (record h { free_slots = rest }) key sig)

answer_zero-IsSized :
    (n : ℕ) (r : Option (Table × Answer)) → IsSized n r → IsSized n (answer_zero r)
unfolding answer_zero
answer_zero-IsSized n none s = s
answer_zero-IsSized n (some (h, index i)) s = s
answer_zero-IsSized n (some (h, enoent)) s = s
answer_zero-IsSized n (some (h, enospc)) s = s

add_key_data-IsSized :
    (h : Table) (key : List ℕ) (pdata : ℕ) → IsSized h.num_buckets (add_key_data h key pdata)
unfolding add_key_data add_key_with_hash
add_key_data-IsSized h key pdata = answer_zero-IsSized h.num_buckets _ (
    add_with_slot-IsSized h key (hash h key) pdata (suc (4 * h.num_buckets))
      (get_slot h.free_slots))

pub add_key_data-num_buckets :
    (h h' : Table) (key : List ℕ) (pdata : ℕ) (a : Answer)
    → add_key_data h key pdata ≡ some (h', a)
    → h'.num_buckets ≡ h.num_buckets
add_key_data-num_buckets h h' key pdata a e =
    subst (IsSized h.num_buckets) e (add_key_data-IsSized h key pdata)
