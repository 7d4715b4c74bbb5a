-- ===== src/Dump/Defs.antt =====
-- The traces of tools/cmd_dump.c: a table from the identity of a probe to what was recorded of it.
-- The code does not test that a location is below `CMD_DUMP_LOC_MAX`; a write behind the arrays of a
-- trace is `none`. The pointer to element `i` of `trace_data` is the number i + 1, and NULL is 0.
use pkt_sender.Prelude.{
  ℕ, zero, suc, ◌+◌, ◌-◌, ◌*◌, ◌/◌, ◌%◌, ◌^◌, Bool, true, false, List, [], ◌∷◌, ◌++◌, Option, none,
  some, if◌then◌else◌, ltb, ◌==◌, take, drop,
}
use pkt_sender.Ring.Slots.{SlotRing, get_slot}
use pkt_sender.Ring.Numbers.{bytes_of, number_of}
use pkt_sender.Tracer.Defs.{RecordFmt, RecordTs, cycles, timespec}
use pkt_sender.Cuckoo.Defs.{Key, Table, update}
use pkt_sender.Cuckoo.Table.{Answer, index, enoent, enospc, lookup_data, add_key_data}
use pkt_sender.Cuckoo.Iterate.{walk, total_entries}

-- The arrays of a `struct trace_data`, by location, and its index.
pub record TraceData : Type 0 where
  pub idx : ℕ
  pub timestamp : ℕ → RecordTs
  pub tids : ℕ → ℕ

pub record Traces : Type 0 where
  pub trace_tbl : Table
  pub trace_data_ring : SlotRing
  pub trace_data : ℕ → TraceData
  pub mac_loc : ℕ

-- `memset` of an element.
abbrev pub zeros : TraceData
zeros = record { idx = 0; timestamp = λ i. cycles 0; tids = λ i. 0 }

-- The sixteen bytes of a `struct trace_id`: the code leaves the four bytes `pad` between its fields
-- as they are on the stack.
unfoldable pub trace_id : List ℕ → RecordFmt → List ℕ
trace_id pad r =
    bytes_of r.probe_sender
    ++ (pad ++ (bytes_of (r.probe_idx % 2 ^ 32) ++ bytes_of (r.probe_idx / 2 ^ 32)))

unfoldable pub store_at : TraceData → RecordFmt → TraceData
store_at t r = record t {
  timestamp = update t.timestamp r.location r.timestamp;
  tids = update t.tids r.location r.tid;
}

-- An element of `trace_data` is replaced.
unfoldable pub write_data : Traces → ℕ → TraceData → Traces
write_data s i t = record s { trace_data = update s.trace_data i t }

-- The end of the branch for a new trace: whether it has been put into the table.
unfoldable pub end_new : Traces → Option (Table × Answer) → Option (Traces × Bool)
end_new s none = none
end_new s (some (tbl, index i)) = some (record s { trace_tbl = tbl }, true)
end_new s (some (tbl, enoent)) = some (record s { trace_tbl = tbl }, false)
end_new s (some (tbl, enospc)) = some (record s { trace_tbl = tbl }, false)

abbrev pub cmd_dump_loc_max : ℕ
cmd_dump_loc_max = 16

-- A write at the location of a record.
unfoldable pub if_inside {ℓ} : {A : Type ℓ} → RecordFmt → Option A → Option A
if_inside r a = if ltb r.location cmd_dump_loc_max then a else none

-- The branch for a new trace, once a free index is asked for.
unfoldable pub add_new_trace :
    Traces → List ℕ → RecordFmt → Option (ℕ × SlotRing) → Option (Traces × Bool)
add_new_trace s key r none = some (s, false)
add_new_trace s key r (some (i, ring)) =
    let s' =
      write_data (record s { trace_data_ring = ring }) i (store_at (record zeros { idx = i }) r) in
    if_inside r (end_new s' (add_key_data s.trace_tbl key (suc i)))

-- What follows the lookup, which stores a pointer exactly where it answers an index.
unfoldable pub add_looked_up : Traces → List ℕ → RecordFmt → Option ℕ → Option (Traces × Bool)
add_looked_up s key r none = add_new_trace s key r (get_slot s.trace_data_ring)
add_looked_up s key r (some d) =
    if_inside r (some (write_data s (d - 1) (store_at (s.trace_data (d - 1)) r), true))

-- `__add_record`, and whether it returns 0; `none` is a want of fuel in the table, or a
-- write out of bounds.
unfoldable pub add_record : List ℕ → Traces → RecordFmt → Option (Traces × Bool)
add_record pad s r =
    let key = trace_id pad r in add_looked_up s key r (lookup_data s.trace_tbl key).1

unfoldable pub next_record :
    Option (Traces × Bool) → (Traces → Option (Traces × List Bool)) → Option (Traces × List Bool)
next_record none rec = none
next_record (some (s, ok)) rec = elim (rec s) [ none ↦ none | some (s', oks) ↦ some (s', ok ∷ oks) ]

-- A record of a file, and the four bytes that its key takes over from the stack.
abbrev pub Read : Type 0
Read = List ℕ × RecordFmt

-- `__read_record` on the records of a file, with what each addition returns.
unfoldable pub read_record : Traces → List Read → Option (Traces × List Bool)
read_record s [] = some (s, [])
read_record s ((pad, r) ∷ records) =
    next_record
      (add_record pad
        (record s { mac_loc = if ltb s.mac_loc r.location then r.location else s.mac_loc }) r)
      (λ s'. read_record s' records)

-- `cpu_hz`, which no code sets.
abbrev pub cpu_hz : ℕ
cpu_hz = 0

unfoldable pub get_time_ns : RecordTs → ℕ
get_time_ns (cycles c) = c * cpu_hz
get_time_ns (timespec t) = (t.tv_sec * 1000000000 + t.tv_nsec) % 2 ^ 64

-- A line of the output: two numbers, and for each location the thread and the time.
pub record Line : Type 0 where
  pub portid : ℕ
  pub probeid : ℕ
  pub cells : List (ℕ × ℕ)

unfoldable pub cells_from : TraceData → ℕ → ℕ → List (ℕ × ℕ)
cells_from t zero i = []
cells_from t (suc n) i = (t.tids i, get_time_ns (t.timestamp i)) ∷ cells_from t n (suc i)

unfoldable pub line_of : Traces → Key → Line
line_of s k = record {
  portid = number_of (take 4 k.key);
  probeid = number_of (take 8 (drop 8 k.key));
  cells = cells_from (s.trace_data (k.pdata - 1)) (suc s.mac_loc) 0;
}

-- The lines for the keys that the iteration gives; a NULL pointer is passed over.
unfoldable pub lines : Traces → List Key → List Line
lines s [] = []
lines s (k ∷ ks) = let rest = lines s ks in if k.pdata == 0 then rest else line_of s k ∷ rest

unfoldable pub print_walk : Traces → Option (List Key) → Option (List Line)
print_walk s none = none
print_walk s (some ks) = some (lines s ks)

-- `__dump_all_traces`, without its title: the lines that it prints, the number of which it returns.
unfoldable pub dump_all_traces : Traces → Option (List Line)
dump_all_traces s = print_walk s (walk s.trace_tbl (suc (total_entries s.trace_tbl)) 0)
