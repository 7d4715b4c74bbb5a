-- ===== src/Tracer/Tests.antt =====
-- The tracer at concrete inputs.
use pkt_sender.Prelude.{
  ℕ, ◌+◌, ◌≡◌, ◌<◌, refl, true, false, List, [], ◌∷◌, ◌++◌, Option, none, some, arith, replicate,
  if◌then◌else◌, ltb,
}
use pkt_sender.Tracer.Defs.{
  LocalInfo, RecordFmt, System, Timespec, cycles, record_to_cache, store, writen, append_to,
  open_file,
}
use pkt_sender.Tracer.Handlers.{
  Mbuf, Clock, trace_handler, trace_hw_tx_record, trace_hw_rx_record, handle_packets, is_probe,
  read_clock, if_thread, timestamp_type,
}
use pkt_sender.Tracer.Cache.{IsOpen, Adds, log}
use pkt_sender.Tracer.Records.{time_of, readings_for, probe_records, trace_handler-Adds}
use pkt_sender.Tracer.Hardware.{tx_entry, trace_hw_tx_record-found, trace_hw_tx_record-lost}
use pkt_sender.Tracer.Received.{rx_records, trace_hw_rx_record-Adds}

abbrev sys : System
sys = record { gettid = 7; fopen_ok = true }

abbrev old : RecordFmt
old = record { tid = 7; location = 2; probe_sender = 1; probe_idx = 5; timestamp = cycles 100 }

-- Nine records in the cache, and none in the file.
abbrev nine : LocalInfo
nine = record {
  tid = some 7;
  fout = some [];
  nb_record = 9;
  cache = replicate 10 old;
  last_idx = 0;
  last_port = 0;
}

nine-IsOpen : IsOpen nine
nine-IsOpen = record { written = []; opened = refl; full = refl; below = omega arith }

abbrev ts : Timespec
ts = record { tv_sec = 1; tv_nsec = 500 }

abbrev packet : ℕ → ℕ → Mbuf
packet type idx = record {
  rx_tmst = true;
  tx_tmst = false;
  ether_type = type;
  probe_idx = idx;
  probe_sender = 1;
}

abbrev packets : List Mbuf
packets = packet 0x88F7 6 ∷ packet 0x0800 0 ∷ packet 0x88F7 7 ∷ []

abbrev clock : Clock
clock = record { pt_nic_timestamp = false; device_time = λ n. ts; rdtsc = λ n. 123 + n }

-- The tenth record fills the cache, and the next is alone in it.
two_records : (trace_handler sys clock nine packets 3).0.nb_record ≡ 1
unfolding trace_handler handle_packets is_probe read_clock if_thread open_file record_to_cache store
    writen append_to
two_records = refl

trace_handler-Adds_example :
    Adds nine
      (probe_records nine (timestamp_type clock) (time_of clock 0) 3 packets)
      (trace_handler sys clock nine packets 3).0
    × ((trace_handler sys clock nine packets 3).1 ≡ readings_for packets)
trace_handler-Adds_example = trace_handler-Adds sys clock nine packets 3 nine-IsOpen refl

-- The device has the time after two waits.
abbrev after_two : ℕ → Option Timespec
after_two k = if ltb k 2 then none else some ts

none_before : (j : ℕ) → j < 2 → after_two j ≡ none
none_before j h = rw below refl
  where
    below : ltb j 2 ≡ true
    below = ground arith

trace_hw_tx_record-found_example :
    let info' = trace_hw_tx_record sys nine after_two none in
    (info'.fout ≡ some (log nine ++ (tx_entry nine none ts ∷ [])))
    × (info'.nb_record ≡ 0)
    × IsOpen info'
trace_hw_tx_record-found_example =
    trace_hw_tx_record-found sys nine after_two none 2 nine-IsOpen refl (omega arith) refl
      none_before

trace_hw_tx_record-lost_example : trace_hw_tx_record sys nine (λ k. none) none ≡ nine
trace_hw_tx_record-lost_example =
    trace_hw_tx_record-lost sys nine (λ k. none) none refl (λ j h. refl)

trace_hw_rx_record-Adds_example :
    Adds nine (rx_records nine after_two 0 packets) (trace_hw_rx_record sys nine after_two packets)
trace_hw_rx_record-Adds_example =
    trace_hw_rx_record-Adds sys nine after_two packets nine-IsOpen refl
