-- ===== src/Tracer/Hardware.antt =====
-- The time stamps of the device: how long `trace_hw_tx_record` waits, and what it records.
use pkt_sender.Prelude.{
  ℕ, zero, suc, ◌+◌, ◌≤◌, ◌<◌, ◌≡◌, refl, ap, ◌∙◌, false, [], ◌∷◌, ◌++◌, Option, none, some, arith,
  ◌==◌, ℕ_discrete,
}
use pkt_sender.Tracer.Defs.{
  LocalInfo, RecordFmt, System, Timespec, timestamp_timespec, entry, loc_hardware_tx,
  record_to_cache, trace_flush,
}
use pkt_sender.Tracer.Handlers.{
  Mbuf, after_read, wait_tx, sent_probe, time_read, trace_hw_tx_record,
}
use pkt_sender.Tracer.Cache.{IsOpen, Adds, log, Flushed, record_to_cache-Adds, trace_flush-Flushed}
use pkt_sender.Tracer.Records.{if_thread-some}

module _ (reads : ℕ → Option Timespec) where
  wait_tx-found :
      (n wait_us k : ℕ) {ts : Timespec}
      → wait_us ≤ k
      → k < wait_us + n
      → reads k ≡ some ts
      → ((j : ℕ) → wait_us ≤ j → j < k → reads j ≡ none)
      → wait_tx reads n wait_us ≡ (k, some ts)
  unfolding wait_tx after_read
  wait_tx-found zero w k le lt e before = absurd (omega arith)
  wait_tx-found (suc n) w k le lt e before = elim (ℕ_discrete w k) [
    | yes here ↦ rw (here, e) refl
    | no ne ↦ rw (before w (omega arith) (omega arith)) (
        wait_tx-found n (suc w) k (omega arith) (omega arith) e (λ j a b. before j (omega arith) b))
  ]

  wait_tx-lost :
      (n wait_us : ℕ)
      → ((j : ℕ) → wait_us ≤ j → j < wait_us + n → reads j ≡ none)
      → wait_tx reads n wait_us ≡ (wait_us + n, reads (wait_us + n))
  unfolding wait_tx after_read
  wait_tx-lost zero w before = ap (λ (k : ℕ). (k, reads k)) {x = w} {y = w + 0} (omega arith)
  wait_tx-lost (suc n) w before = rw (before w (omega arith) (omega arith)) (
      wait_tx-lost n (suc w) (λ j a b. before j (omega arith) (omega arith))
      ∙ ap (λ (k : ℕ). (k, reads k)) {x = suc w + n} {y = w + suc n} (omega arith))

-- The record of a packet sent, with the time of the device.
abbrev pub tx_entry : LocalInfo → Option Mbuf → Timespec → RecordFmt
tx_entry info pkt ts =
    let (idx, sender) = sent_probe info pkt in
    entry info loc_hardware_tx idx sender timestamp_timespec ts

-- With an open file and a thread number, where the first answer of the device comes after fewer
-- than 1000 waits, `trace_hw_tx_record` leaves in the file all records and then that of the
-- packet with the time answered, none in the cache, and a valid state.
pub trace_hw_tx_record-found :
    (sys : System) (info : LocalInfo) (reads : ℕ → Option Timespec) (pkt : Option Mbuf) (k : ℕ)
    {t : ℕ} {ts : Timespec}
    → IsOpen info
    → info.tid ≡ some t
    → k < 1000
    → reads k ≡ some ts
    → ((j : ℕ) → j < k → reads j ≡ none)
    → let info' = trace_hw_tx_record sys info reads pkt in
      (info'.fout ≡ some (log info ++ (tx_entry info pkt ts ∷ [])))
      × (info'.nb_record ≡ 0)
      × IsOpen info'
unfolding trace_hw_tx_record time_read
trace_hw_tx_record-found sys info reads pkt k {t} {ts} v e lt found before =
    rw
      (
        if_thread-some info.tid _ _ e,
        wait_tx-found reads 1000 0 k (omega arith) (omega arith) found (λ j a b. before j b),
        in_time,
      )
      (flushed.in_file ∙ ap some added.logged, flushed.none_cached, flushed.is_open)
  where
    in_time : (k == 1000) ≡ false
    in_time = ground arith

    added : Adds info (tx_entry info pkt ts ∷ []) (
        record_to_cache sys info loc_hardware_tx
          (sent_probe info pkt).0
          (sent_probe info pkt).1
          timestamp_timespec
          (some ts))
    added = record_to_cache-Adds sys info loc_hardware_tx _ _ timestamp_timespec ts v

    flushed :
        Flushed
          (record_to_cache sys info loc_hardware_tx
            (sent_probe info pkt).0
            (sent_probe info pkt).1
            timestamp_timespec
            (some ts))
          (trace_flush (
            record_to_cache sys info loc_hardware_tx
              (sent_probe info pkt).0
              (sent_probe info pkt).1
              timestamp_timespec
              (some ts)))
    flushed = trace_flush-Flushed _ added.is_open

-- For a thread with a number, where the first 1000 answers of the device are none,
-- `trace_hw_tx_record` leaves the state as it is, whatever the next answer is.
pub trace_hw_tx_record-lost :
    (sys : System) (info : LocalInfo) (reads : ℕ → Option Timespec) (pkt : Option Mbuf) {t : ℕ}
    → info.tid ≡ some t
    → ((j : ℕ) → j < 1000 → reads j ≡ none)
    → trace_hw_tx_record sys info reads pkt ≡ info
unfolding trace_hw_tx_record
trace_hw_tx_record-lost sys info reads pkt e before =
    rw (if_thread-some info.tid _ _ e, wait_tx-lost reads 1000 0 (λ j a b. before j (omega arith)))
      refl
