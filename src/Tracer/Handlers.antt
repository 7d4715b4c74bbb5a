-- ===== src/Tracer/Handlers.antt =====
-- The handlers of pkttracer/pt_trace.c. The packets are given by what the handlers read of them.
use pkt_sender.Prelude.{
  ℕ, zero, suc, Bool, true, false, not, ◌&&◌, List, [], ◌∷◌, Option, none, some, if◌then◌else◌,
  ◌==◌,
}
use pkt_sender.Tracer.Defs.{
  Timespec, TimestampType, timestamp_cycles, timestamp_timespec, LocalInfo, System,
  probe_ether_type, loc_hardware_tx, loc_hardware_rx, open_file, record_to_cache, trace_flush,
}

-- Of an mbuf, the two flags of `ol_flags` for time stamps, and fields of the packet in it.
pub record Mbuf : Type 0 where
  pub rx_tmst : Bool
  pub tx_tmst : Bool
  pub ether_type : ℕ
  pub probe_idx : ℕ
  pub probe_sender : ℕ

-- `PT_NIC_TIMESTAMP`, and what the device and the processor give when they are read for the n-th
-- time.
pub record Clock : Type 0 where
  pub pt_nic_timestamp : Bool
  pub device_time : ℕ → Timespec
  pub rdtsc : ℕ → ℕ

-- `local_info.tid < 0` and not.
unfoldable pub if_thread {ℓ} : {A : Type ℓ} → Option ℕ → A → A → A
if_thread none negative a = negative
if_thread (some tid) negative a = a

unfoldable pub is_probe : Mbuf → Bool
is_probe p = p.ether_type == probe_ether_type

-- `is_read` and `ts` of `trace_handler`, and how often the clock has been read.
pub record Reading : Type 0 where
  pub is_read : Bool
  pub ts : Timespec
  pub reads : ℕ

abbrev pub unread : Reading
unread = record { is_read = false; ts = record { tv_sec = 0; tv_nsec = 0 }; reads = 0 }

abbrev pub timestamp_type : Clock → TimestampType
timestamp_type clock = if clock.pt_nic_timestamp then timestamp_timespec else timestamp_cycles

unfoldable pub read_clock : Clock → Reading → Reading
read_clock clock rd = if rd.is_read then rd else record {
  is_read = true;
  ts =
      if clock.pt_nic_timestamp
      then clock.device_time rd.reads
      else record rd.ts { tv_nsec = clock.rdtsc rd.reads };
  reads = suc rd.reads;
}

-- The loop of `trace_handler`.
unfoldable pub handle_packets :
    System → Clock → ℕ → List Mbuf → Reading → LocalInfo → LocalInfo × Reading
handle_packets sys clock loc [] rd info = (info, rd)
handle_packets sys clock loc (p ∷ pkts) rd info =
    let rd' = read_clock clock rd in
    let info' =
      record_to_cache sys info loc p.probe_idx p.probe_sender (timestamp_type clock)
        (some rd'.ts) in
    let is = is_probe p in
    handle_packets sys clock loc pkts (if is then rd' else rd) (if is then info' else info)

-- `trace_handler`, and how often it reads the clock.
unfoldable pub trace_handler : System → Clock → LocalInfo → List Mbuf → ℕ → LocalInfo × ℕ
trace_handler sys clock info pkts loc =
    let (info', is_open) = open_file sys info info.fout in
    let (done, rd) = handle_packets sys clock loc pkts unread info' in
    if_thread info.tid (info, 0) (if is_open then (done, rd.reads) else (info', 0))

-- The loop of `trace_hw_tx_prepare`, and whether it sets a flag.
unfoldable pub prepare_packets : List Mbuf → List Mbuf × Bool
prepare_packets [] = ([], false)
prepare_packets (p ∷ pkts) =
    let (rest, ret) = prepare_packets pkts in
    if is_probe p && not p.tx_tmst
    then (record p { tx_tmst = true } ∷ rest, true)
    else (p ∷ rest, ret)

-- `trace_hw_tx_prepare`: the packets, and whether it returns 0, after one read of the time stamp
-- of the device to clear it.
unfoldable pub trace_hw_tx_prepare : LocalInfo → List Mbuf → List Mbuf × Bool
trace_hw_tx_prepare info pkts = if_thread info.tid (pkts, false) (prepare_packets pkts)

-- Whether the loop of `trace_hw_tx_record` goes on.
unfoldable pub after_read : Option Timespec → ℕ → ℕ × Option Timespec → ℕ × Option Timespec
after_read none wait_us rest = rest
after_read (some ts) wait_us rest = (wait_us, some ts)

-- The loop of `trace_hw_tx_record` with `n` of its 1000 waits left; `reads k` is the answer of the
-- device after `k` waits. It gives `wait_us` and the last answer.
unfoldable pub wait_tx : (ℕ → Option Timespec) → ℕ → ℕ → ℕ × Option Timespec
wait_tx reads zero wait_us = (wait_us, reads wait_us)
wait_tx reads (suc n) wait_us = after_read (reads wait_us) wait_us (wait_tx reads n (suc wait_us))

-- The index and the sender that `trace_hw_tx_record` records.
unfoldable pub sent_probe : LocalInfo → Option Mbuf → ℕ × ℕ
sent_probe info none = (info.last_idx, info.last_port)
sent_probe info (some p) = (p.probe_idx, p.probe_sender)

-- `ts`, which is zero until an answer fills it in.
unfoldable pub time_read : Option Timespec → Timespec
time_read none = record { tv_sec = 0; tv_nsec = 0 }
time_read (some ts) = ts

unfoldable pub trace_hw_tx_record :
    System → LocalInfo → (ℕ → Option Timespec) → Option Mbuf → LocalInfo
trace_hw_tx_record sys info reads pkt =
    let (wait_us, answer) = wait_tx reads 1000 0 in
    let (idx, sender) = sent_probe info pkt in
    let ts = time_read answer in
    if_thread info.tid info (
      if wait_us == 1000
      then info
      else trace_flush
          (record_to_cache sys info loc_hardware_tx idx sender timestamp_timespec (some ts)))

-- The record of a packet received, where the device answers.
unfoldable pub record_rx : System → LocalInfo → Mbuf → Option Timespec → LocalInfo
record_rx sys info p none = info
record_rx sys info p (some ts) =
    record_to_cache sys info loc_hardware_rx p.probe_idx p.probe_sender timestamp_timespec (some ts)

-- The loop of `trace_hw_rx_record`; `reads i` is the answer of the device for packet `i`.
unfoldable pub rx_packets : System → (ℕ → Option Timespec) → ℕ → List Mbuf → LocalInfo → LocalInfo
rx_packets sys reads i [] info = info
rx_packets sys reads i (p ∷ pkts) info =
    let next = if p.rx_tmst then trace_flush (record_rx sys info p (reads i)) else info in
    rx_packets sys reads (suc i) pkts next

unfoldable pub trace_hw_rx_record :
    System → LocalInfo → (ℕ → Option Timespec) → List Mbuf → LocalInfo
trace_hw_rx_record sys info reads pkts = if_thread info.tid info (rx_packets sys reads 0 pkts info)
