-- ===== src/Cuckoo/Tests.antt =====
-- The cuckoo hash table at concrete inputs.
use pkt_sender.Prelude.{
  ℕ, suc, ◌+◌, ◌*◌, ◌^◌, ◌<◌, ◌≡◌, refl, true, false, List, [], ◌∷◌, Option, none, some, arith,
  if◌then◌else◌, ltb, lt→ltb, ◌-◌, subst, sym, ap,
}
use pkt_sender.Prelude.Words.{add32, sub32}
use pkt_sender.Ring.Defs.{roundup_2, smear, is_power_of_2}
use pkt_sender.Ring.Create.{System, create, create_sized, round_size, fresh}
use pkt_sender.Ring.Slots.{put_slot}
use pkt_sender.Cuckoo.Defs.{Entry, Buckets, Table, Key, is_null, same_key}
use pkt_sender.Cuckoo.Space.{make_space_bucket}
use pkt_sender.Cuckoo.Table.{Answer, add_key_data, del_key, lookup_data}
use pkt_sender.Cuckoo.Search.{IsFull}
use pkt_sender.Cuckoo.Moves.{Placed}
use pkt_sender.Cuckoo.Making.{Ensures, make_space_bucket-Ensures}
use pkt_sender.Cuckoo.Depth.{Ends, count_unset-le, make_space_bucket-Ends}
use pkt_sender.Cuckoo.Valid.{IsValid}
use pkt_sender.Cuckoo.Holds.{lookup}
use pkt_sender.Cuckoo.Delete.{del_key-lookup}
use pkt_sender.Cuckoo.Add.{Result, add_key_data_lem}
use pkt_sender.Cuckoo.Iterate.{walk, walk-lookup, for_key, bound, total_entries}
use pkt_sender.Cuckoo.Create.{
  created, cuckoohash_create, create_buckets, with_ring, populate, new_table,
}
use pkt_sender.Cuckoo.New.{numbers, cuckoohash_create-IsNew}

-- A system that grants everything.
abbrev willing : System
willing = record {
  open_ok = true;
  truncate_ok = λ n. true;
  map_ok = λ n. true;
  shared = record {
    is_mmap = 0;
    size = 0;
    data_size = 0;
    read_pos = 0;
    write_pos = 0;
    finish_pos = 0;
    bytes = [];
  };
}

abbrev eight : Table
eight = new_table 4 8 2 (record { data_size = 64; slots = numbers 8 1 })

create_eight : (cuckoohash_create willing 4 8).0 ≡ created eight
unfolding cuckoohash_create create_buckets with_ring populate put_slot create create_sized
    round_size fresh is_power_of_2 roundup_2 smear sub32 add32
create_eight = refl

eight-IsValid : IsValid eight
eight-IsValid =
    (cuckoohash_create-IsNew willing 4 8 1 eight (omega arith) (omega arith) (omega arith)
      create_eight).valid

abbrev key_a : List ℕ
key_a = 1 ∷ 2 ∷ 3 ∷ 4 ∷ []

abbrev key_b : List ℕ
key_b = 1 ∷ 2 ∷ 3 ∷ 5 ∷ []

add_key_data_lem_example :
    (h' : Table) × (a : Answer) × (add_key_data eight key_a 99 ≡ some (h', a))
    × Result eight key_a 99 h' a
add_key_data_lem_example = add_key_data_lem eight key_a 99 eight-IsValid

-- The table with two keys.
abbrev after : Option (Table × Answer) → Table
after none = eight
after (some (h, a)) = h

abbrev one : Table
one = after (add_key_data eight key_a 99)

abbrev two : Table
two = after (add_key_data one key_b 77)

after-IsValid :
    (h : Table) (key : List ℕ) (x : ℕ) → IsValid h → IsValid (after (add_key_data h key x))
after-IsValid h key x v =
    let (h', a, e, r) = add_key_data_lem h key x v in subst IsValid (sym (ap after e)) r.0

two-IsValid : IsValid two
two-IsValid = after-IsValid one key_b 77 (after-IsValid eight key_a 99 eight-IsValid)

del_key-lookup_example :
    IsValid (del_key two key_a).0
    × ((del_key two key_a).1 ≡ (lookup_data two key_a).0)
    × (lookup (del_key two key_a).0 key_b
        ≡ (if same_key key_a key_b then none else lookup two key_b))
del_key-lookup_example = del_key-lookup two key_a key_b two-IsValid

walk-lookup_example :
    (ks : List Key) × (walk eight (suc (total_entries eight)) 0 ≡ some ks)
    × (for_key key_a ks ≡ bound key_a (lookup eight key_a))
unfolding new_table
walk-lookup_example = walk-lookup eight key_a eight-IsValid (omega arith)

-- Two buckets, of which the first is full and the second empty.
abbrev full_entry : ℕ → Entry
full_entry p =
    if ltb p 4
    then record { current = 0; alt = 1; key_idx = suc p }
    else record { current = 0; alt = 0; key_idx = 0 }

abbrev full_first : Buckets
full_first = record { entry = full_entry; flag = λ p. 0 }

-- An entry has the signatures 0 and 1, in one order or the other.
abbrev BothOf : ℕ → ℕ → ℕ → Type 0
BothOf i c a = c + a ≡ 1

abbrev SameIndex : ℕ → ℕ → Type 0
SameIndex i j = i ≡ j

in_first : (p : ℕ) → is_null (full_entry p) ≡ false → p < 4
unfolding is_null
in_first p e = ground arith

full_first-Placed : (hole : ℕ) → Placed 1 BothOf SameIndex full_first hole
full_first-Placed hole = record {
  located = λ p l.
      let e : ltb p 4 ≡ true = lt→ltb p 4 (in_first p l.0) in rw e (omega (arith, in_first p l.0));
  paired = λ p l. let e : ltb p 4 ≡ true = lt→ltb p 4 (in_first p l.0) in rw e (omega arith);
  apart = λ p q l m e. ground (arith, in_first p l.0, in_first q m.0);
}

full_first-IsFull : IsFull full_first 0
unfolding is_null
full_first-IsFull q e = let h : ltb q 4 ≡ true = lt→ltb q 4 (omega arith) in rw h refl

make_space_bucket-Ensures_example :
    Ensures 1 BothOf SameIndex
      (λ i c a e. omega arith)
      full_first
      0
      (make_space_bucket 1 9 full_first 0)
make_space_bucket-Ensures_example =
    make_space_bucket-Ensures 1 BothOf SameIndex (λ i c a e. omega arith) 9 full_first 0
      full_first-Placed full_first-IsFull (λ x ne. absurd (ne refl))

make_space_bucket-Ends_example : Ends (make_space_bucket (2 ^ 1 - 1) 9 full_first 0)
make_space_bucket-Ends_example =
    make_space_bucket-Ends 1 9 full_first 0 (omega arith)
      (omega (arith, count_unset-le full_first.flag (4 * 2 ^ 1)))
