-- ===== src/Tracer/Received.antt =====
-- The records that `trace_hw_rx_record` takes.
use pkt_sender.Prelude.{
  ℕ, suc, ◌≡◌, refl, inl, inr, List, [], ◌∷◌, ◌++◌, Option, none, some, if◌then◌else◌, Bool-cases,
}
use pkt_sender.Tracer.Defs.{
  LocalInfo, RecordFmt, System, Timespec, timestamp_timespec, entry, tid_of, loc_hardware_rx,
  trace_flush,
}
use pkt_sender.Tracer.Handlers.{Mbuf, record_rx, rx_packets, trace_hw_rx_record}
use pkt_sender.Tracer.Cache.{IsOpen, Adds, Flushed, record_to_cache-Adds, trace_flush-Flushed}
use pkt_sender.Tracer.Records.{if_thread-some, Adds-nil, Adds-append}
use mathlib.Core.List.{append-nil}

-- The record of one packet, if the device has its time.
unfoldable pub rx_entry : LocalInfo → Mbuf → Option Timespec → List RecordFmt
rx_entry info p none = []
rx_entry info p (some ts) =
    entry info loc_hardware_rx p.probe_idx p.probe_sender timestamp_timespec ts ∷ []

-- One for each packet with the flag and a time, in order.
unfoldable pub rx_records : LocalInfo → (ℕ → Option Timespec) → ℕ → List Mbuf → List RecordFmt
rx_records info reads i [] = []
rx_records info reads i (p ∷ pkts) =
    let rest = rx_records info reads (suc i) pkts in
    if p.rx_tmst then rx_entry info p (reads i) ++ rest else rest

rx_entry-tid :
    (a b : LocalInfo) (p : Mbuf) (ts : Option Timespec)
    → a.tid ≡ b.tid
    → rx_entry a p ts ≡ rx_entry b p ts
unfolding rx_entry tid_of
rx_entry-tid a b p none e = refl
rx_entry-tid a b p (some ts) e = rw e refl

rx_records-tid :
    (a b : LocalInfo) (reads : ℕ → Option Timespec) (i : ℕ) (pkts : List Mbuf)
    → a.tid ≡ b.tid
    → rx_records a reads i pkts ≡ rx_records b reads i pkts
unfolding rx_records
rx_records-tid a b reads i [] e = refl
rx_records-tid a b reads i (p ∷ pkts) e =
    rw (rx_entry-tid a b p (reads i) e, rx_records-tid a b reads (suc i) pkts e) refl

record_rx-Adds :
    (sys : System) (info : LocalInfo) (p : Mbuf) (ts : Option Timespec)
    → IsOpen info
    → Adds info (rx_entry info p ts) (record_rx sys info p ts)
unfolding record_rx rx_entry
record_rx-Adds sys info p none v = Adds-nil info v
record_rx-Adds sys info p (some ts) v =
    record_to_cache-Adds sys info loc_hardware_rx p.probe_idx p.probe_sender timestamp_timespec ts v

trace_flush-Adds : (info : LocalInfo) → IsOpen info → Adds info [] (trace_flush info)
trace_flush-Adds info v = record {
  logged = rw (done.in_file, done.none_cached) refl;
  is_open = done.is_open;
  same_tid = done.same_tid;
}
  where
    done : Flushed info (trace_flush info)
    done = trace_flush-Flushed info v

-- One packet with the flag.
received-Adds :
    (sys : System) (info : LocalInfo) (p : Mbuf) (ts : Option Timespec)
    → IsOpen info
    → Adds info (rx_entry info p ts) (trace_flush (record_rx sys info p ts))
received-Adds sys info p ts v =
    let recorded = record_rx-Adds sys info p ts v in
    rw append-nil at (Adds-append recorded (trace_flush-Adds _ recorded.is_open))

rx_packets-Adds :
    (sys : System) (reads : ℕ → Option Timespec) (i : ℕ) (pkts : List Mbuf) (info : LocalInfo)
    → IsOpen info
    → Adds info (rx_records info reads i pkts) (rx_packets sys reads i pkts info)
unfolding rx_packets rx_records rx_entry trace_flush record_rx
rx_packets-Adds sys reads i [] info v = Adds-nil info v
rx_packets-Adds sys reads i (p ∷ pkts) info v = elim (Bool-cases p.rx_tmst) [
  | inr e ↦ rw e (rx_packets-Adds sys reads (suc i) pkts info v)
  | inl e ↦
      let first = received-Adds sys info p (reads i) v in
      rw (e, ← rx_records-tid _ info reads (suc i) pkts first.same_tid)
        (Adds-append first (rx_packets-Adds sys reads (suc i) pkts _ first.is_open))
]

-- With an open file and a thread number, `trace_hw_rx_record` adds at the end, in order, one
-- record for each packet with the receive flag for which the device answers, and the state stays
-- valid.
pub trace_hw_rx_record-Adds :
    (sys : System) (info : LocalInfo) (reads : ℕ → Option Timespec) (pkts : List Mbuf) {t : ℕ}
    → IsOpen info
    → info.tid ≡ some t
    → Adds info (rx_records info reads 0 pkts) (trace_hw_rx_record sys info reads pkts)
unfolding trace_hw_rx_record
trace_hw_rx_record-Adds sys info reads pkts v e =
    rw (if_thread-some info.tid _ _ e) (rx_packets-Adds sys reads 0 pkts info v)
