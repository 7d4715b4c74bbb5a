-- ===== src/Dump/Tests.antt =====
-- The traces of tools/cmd_dump.c at concrete inputs.
use pkt_sender.Prelude.{
  subst, sym, ap, Option, none, Bool, ℕ, ◌≡◌, refl, true, List, [], ◌∷◌, some, arith, map,
}
use pkt_sender.Prelude.Words.{add32, sub32}
use pkt_sender.Ring.Defs.{roundup_2, smear, is_power_of_2}
use pkt_sender.Ring.Create.{System, create, create_sized, round_size, fresh}
use pkt_sender.Ring.Slots.{put_slot}
use pkt_sender.Tracer.Defs.{RecordFmt, timespec}
use pkt_sender.Cuckoo.Defs.{Key}
use pkt_sender.Cuckoo.Iterate.{for_key, bound}
use pkt_sender.Cuckoo.Holds.{lookup}
use pkt_sender.Cuckoo.Create.{cuckoohash_create, create_buckets, with_ring, populate, new_table}
use pkt_sender.Cuckoo.New.{numbers}
use pkt_sender.Dump.Records.{IsConsistent}
use pkt_sender.Dump.Adding.{add_record-Recorded}
use pkt_sender.Dump.Defs.{Read, add_record, Traces, zeros, read_record, line_of, dump_all_traces}
use pkt_sender.Dump.Start.{
  init_trace_tbl, with_table, with_data_ring, IsStart, init_trace_tbl-IsStart,
}
use pkt_sender.Dump.Output.{dump_all_traces_lem}
use pkt_sender.Dump.Probes.{ReadAll, read_record_lem}

-- A system that grants everything.
abbrev willing : System
willing = record {
  open_ok = true;
  truncate_ok = λ n. true;
  map_ok = λ n. true;
  shared = record {
    is_mmap = 0;
    size = 0;
    data_size = 0;
    read_pos = 0;
    write_pos = 0;
    finish_pos = 0;
    bytes = [];
  };
}

-- Eight traces, of which seven indexes are free.
abbrev start : Traces
start = record {
  trace_tbl = new_table 16 8 2 (record { data_size = 64; slots = numbers 8 1 });
  trace_data_ring = record { data_size = 32; slots = numbers 7 0 };
  trace_data = λ i. zeros;
  mac_loc = 0;
}

init_eight : init_trace_tbl willing 8 ≡ some start
unfolding init_trace_tbl with_table with_data_ring cuckoohash_create create_buckets with_ring
    populate put_slot create create_sized round_size fresh is_power_of_2 roundup_2 smear sub32 add32
init_eight = refl

init_trace_tbl-IsStart_example : IsStart 8 start
init_trace_tbl-IsStart_example =
    init_trace_tbl-IsStart willing 1 start (omega arith) (omega arith) init_eight

start-IsStart : IsStart 8 start
start-IsStart = init_trace_tbl-IsStart willing 1 start (omega arith) (omega arith) init_eight

-- A probe that is sent and received, and another that is sent.
abbrev record_of : ℕ → ℕ → ℕ → RecordFmt
record_of loc idx nsec = record {
  tid = 7;
  location = loc;
  probe_sender = 1;
  probe_idx = idx;
  timestamp = timespec (record { tv_sec = 2; tv_nsec = nsec });
}

abbrev no_pad : List ℕ
no_pad = 0 ∷ 0 ∷ 0 ∷ 0 ∷ []

abbrev records : List Read
records =
    (no_pad, record_of 0 5 100) ∷ (no_pad, record_of 0 6 200) ∷ (no_pad, record_of 1 5 150) ∷ []

read_record_lem_example : ReadAll no_pad 1 5 start records (read_record start records)
read_record_lem_example =
    read_record_lem no_pad 1 5 start records start-IsStart.consistent
      (omega arith, (omega arith, (omega arith, tt))) (refl, (refl, (refl, tt)))

-- The state after the first record.
abbrev traces_of : Option (Traces × Bool) → Traces
traces_of none = start
traces_of (some (s, ok)) = s

abbrev after_one : Traces
after_one = traces_of (add_record no_pad start (record_of 0 5 100))

after_one-IsConsistent : IsConsistent after_one
after_one-IsConsistent =
    let (s, ok, e, step) =
      add_record-Recorded no_pad start (record_of 0 5 100) start-IsStart.consistent (omega arith) in
    subst IsConsistent (sym (ap traces_of e)) step.consistent

dump_all_traces_lem_example :
    (ks : List Key) × (dump_all_traces after_one ≡ some (map (line_of after_one) ks))
    × ((k : List ℕ) → for_key k ks ≡ bound k (lookup after_one.trace_tbl k))
dump_all_traces_lem_example = dump_all_traces_lem after_one after_one-IsConsistent
