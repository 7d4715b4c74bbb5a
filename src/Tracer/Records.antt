-- ===== src/Tracer/Records.antt =====
-- The records that `trace_handler` takes.
use pkt_sender.Prelude.{
  ℕ, ◌==◌, true, false, ◌≡◌, refl, sym, ap, ◌∙◌, subst, inl, inr, List, [], ◌∷◌, ◌++◌, Option, none,
  some, if◌then◌else◌, Bool-cases,
}
use pkt_sender.Tracer.Defs.{
  LocalInfo, RecordFmt, System, entry, tid_of, Timespec, TimestampType, record_to_cache,
}
use pkt_sender.Tracer.Handlers.{
  Mbuf, Clock, if_thread, is_probe, read_clock, handle_packets, trace_handler, Reading, unread,
  timestamp_type,
}
use pkt_sender.Tracer.Cache.{IsOpen, Adds, log, record_to_cache-Adds, open_file-open}
use mathlib.Core.List.{append-nil, append_assoc}

pub if_thread-some {ℓ} :
    {A : Type ℓ} (tid : Option ℕ) (a b : A) {t : ℕ} → tid ≡ some t → if_thread tid a b ≡ b
unfolding if_thread
if_thread-some none a b e = cc
if_thread-some (some t) a b e = refl

pub Adds-nil : (info : LocalInfo) → IsOpen info → Adds info [] info
Adds-nil info v = record { logged = sym (append-nil (log info)); is_open = v; same_tid = refl }

pub Adds-append :
    {a b c : LocalInfo} {xs ys : List RecordFmt} → Adds a xs b → Adds b ys c → Adds a (xs ++ ys) c
Adds-append {a} {b} {c} {xs} {ys} p q = record {
  logged = q.logged ∙ ap (λ (t : List RecordFmt). t ++ ys) p.logged ∙ append_assoc (log a) xs ys;
  is_open = q.is_open;
  same_tid = q.same_tid ∙ p.same_tid;
}

-- One for each probe packet, in order, all with the time `ts`.
unfoldable pub probe_records : LocalInfo → TimestampType → Timespec → ℕ → List Mbuf → List RecordFmt
probe_records info type ts loc [] = []
probe_records info type ts loc (p ∷ pkts) =
    let rest = probe_records info type ts loc pkts in
    if p.ether_type == 0x88F7
    then entry info loc p.probe_idx p.probe_sender type ts ∷ rest
    else rest

probe_records-tid :
    (a b : LocalInfo) (type : TimestampType) (ts : Timespec) (loc : ℕ) (pkts : List Mbuf)
    → a.tid ≡ b.tid
    → probe_records a type ts loc pkts ≡ probe_records b type ts loc pkts
unfolding probe_records tid_of
probe_records-tid a b type ts loc [] e = refl
probe_records-tid a b type ts loc (p ∷ pkts) e =
    rw (e, probe_records-tid a b type ts loc pkts e) refl

-- The number of readings that packets ask for: one, if a probe is among them.
abbrev pub readings_for : List Mbuf → ℕ
readings_for [] = 0
readings_for (p ∷ pkts) = if p.ether_type == 0x88F7 then 1 else readings_for pkts

-- What the n-th reading of the clock gives.
abbrev pub time_of : Clock → ℕ → Timespec
time_of clock n =
    if clock.pt_nic_timestamp
    then clock.device_time n
    else record { tv_sec = 0; tv_nsec = clock.rdtsc n }

-- One round of the loop for a probe packet.
module _ (sys : System) (clock : Clock) (loc : ℕ) (p : Mbuf) (pkts : List Mbuf) (rd : Reading)
    (info : LocalInfo) (is : (p.ether_type == 0x88F7) ≡ true) where
  abbrev type : TimestampType
  type = timestamp_type clock

  abbrev time : Timespec
  time = (read_clock clock rd).ts

  abbrev info' : LocalInfo
  info' = record_to_cache sys info loc p.probe_idx p.probe_sender type (some time)

  probe_round :
      handle_packets sys clock loc (p ∷ pkts) rd info
      ≡ handle_packets sys clock loc pkts (read_clock clock rd) info'
  unfolding handle_packets is_probe
  probe_round = rw is refl

  probe_round-Adds :
      IsOpen info
      → (IsOpen info'
          → Adds info'
              (probe_records info' type time loc pkts)
              (handle_packets sys clock loc pkts (read_clock clock rd) info').0)
      → Adds info
          (probe_records info type time loc (p ∷ pkts))
          (handle_packets sys clock loc (p ∷ pkts) rd info).0
  unfolding probe_records
  probe_round-Adds v later =
      let first = record_to_cache-Adds sys info loc p.probe_idx p.probe_sender type time v in
      let rest =
        subst
          (λ (rs : List RecordFmt).
            Adds info' rs (handle_packets sys clock loc pkts (read_clock clock rd) info').0)
          (probe_records-tid info' info type time loc pkts first.same_tid) (later first.is_open) in
      rw (probe_round, is) (Adds-append first rest)

-- One round for another packet.
other_round :
    (sys : System) (clock : Clock) (loc : ℕ) (p : Mbuf) (pkts : List Mbuf) (rd : Reading)
    (info : LocalInfo)
    → (p.ether_type == 0x88F7) ≡ false
    → handle_packets sys clock loc (p ∷ pkts) rd info ≡ handle_packets sys clock loc pkts rd info
unfolding handle_packets is_probe
other_round sys clock loc p pkts rd info e = rw e refl

-- The clock has been read, and is not read again.
handle_packets-read :
    (sys : System) (clock : Clock) (loc : ℕ) (pkts : List Mbuf) (ts : Timespec) (n : ℕ)
    (info : LocalInfo)
    → IsOpen info
    → let rd : Reading = record { is_read = true; ts = ts; reads = n } in
      Adds info
        (probe_records info (timestamp_type clock) ts loc pkts)
        (handle_packets sys clock loc pkts rd info).0
      × ((handle_packets sys clock loc pkts rd info).1 ≡ rd)
unfolding probe_records read_clock handle_packets
handle_packets-read sys clock loc [] ts n info v = (Adds-nil info v, refl)
handle_packets-read sys clock loc (p ∷ pkts) ts n info v =
    elim (Bool-cases (p.ether_type == 0x88F7)) [
      | inr e ↦
          rw (other_round sys clock loc p pkts _ info e, e)
            (handle_packets-read sys clock loc pkts ts n info v)
      | inl e ↦
          let rd : Reading = record { is_read = true; ts = ts; reads = n } in
          let added =
            record_to_cache-Adds sys info loc p.probe_idx p.probe_sender (timestamp_type clock) ts
              v in
          (
            probe_round-Adds sys clock loc p pkts rd info e v
                (λ w. (handle_packets-read sys clock loc pkts ts n _ w).0),
            ap (λ (r : LocalInfo × Reading). r.1) (probe_round sys clock loc p pkts rd info e)
                ∙ (handle_packets-read sys clock loc pkts ts n _ added.is_open).1,
          )
    ]

handle_packets-unread :
    (sys : System) (clock : Clock) (loc : ℕ) (pkts : List Mbuf) (info : LocalInfo)
    → IsOpen info
    → Adds info
        (probe_records info (timestamp_type clock) (time_of clock 0) loc pkts)
        (handle_packets sys clock loc pkts unread info).0
      × ((handle_packets sys clock loc pkts unread info).1.reads ≡ readings_for pkts)
unfolding probe_records read_clock handle_packets
handle_packets-unread sys clock loc [] info v = (Adds-nil info v, refl)
handle_packets-unread sys clock loc (p ∷ pkts) info v = elim (Bool-cases (p.ether_type == 0x88F7)) [
  | inr e ↦
      rw (other_round sys clock loc p pkts unread info e, e)
        (handle_packets-unread sys clock loc pkts info v)
  | inl e ↦
      let ts = time_of clock 0 in
      let added =
        record_to_cache-Adds sys info loc p.probe_idx p.probe_sender (timestamp_type clock) ts v in
      (
        probe_round-Adds sys clock loc p pkts unread info e v
            (λ w. (handle_packets-read sys clock loc pkts ts 1 _ w).0),
        ap (λ (r : LocalInfo × Reading). r.1.reads) (probe_round sys clock loc p pkts unread info e)
            ∙ ap (λ (r : Reading). r.reads)
                (handle_packets-read sys clock loc pkts ts 1 _ added.is_open).1
            ∙ sym (rw e refl),
      )
]

-- With an open file and a thread number, `trace_handler` reads the clock once if a probe packet
-- is among the packets, and never otherwise; it adds to the records of file and cache, at the end
-- and in order, one for each probe packet, all with the time of this first reading, and the state
-- stays valid.
pub trace_handler-Adds :
    (sys : System) (clock : Clock) (info : LocalInfo) (pkts : List Mbuf) (loc : ℕ) {t : ℕ}
    → IsOpen info
    → info.tid ≡ some t
    → Adds info
        (probe_records info (timestamp_type clock) (time_of clock 0) loc pkts)
        (trace_handler sys clock info pkts loc).0
      × ((trace_handler sys clock info pkts loc).1 ≡ readings_for pkts)
unfolding trace_handler
trace_handler-Adds sys clock info pkts loc v e =
    rw (if_thread-some info.tid _ _ e, open_file-open sys info info.fout v.written v.opened)
      (handle_packets-unread sys clock loc pkts info v)
