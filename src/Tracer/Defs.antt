-- ===== src/Tracer/Defs.antt =====
-- The cache of trace records, from pkttracer/pt_trace.c and pkttracer/pt_trace.h.
use pkt_sender.Prelude.{
  ℕ, suc, Bool, true, false, List, [], ◌++◌, Option, none, some, if◌then◌else◌, leb, ◌==◌, take,
  set,
}

-- `PER_THREAD_CACHE_SIZE` and `PROBE_ETHER_TYPE`
abbrev pub per_thread_cache_size : ℕ
per_thread_cache_size = 10

abbrev pub probe_ether_type : ℕ
probe_ether_type = 0x88F7

abbrev pub loc_hardware_tx : ℕ
loc_hardware_tx = 0

abbrev pub loc_hardware_rx : ℕ
loc_hardware_rx = 1

pub record Timespec : Type 0 where
  pub tv_sec : ℕ
  pub tv_nsec : ℕ

pub data TimestampType : Type 0 where
  timestamp_cycles timestamp_timespec : TimestampType

-- The type and the union of `struct record_ts`.
pub data RecordTs : Type 0 where
  cycles : ℕ → RecordTs
  timespec : Timespec → RecordTs

pub record RecordFmt : Type 0 where
  pub tid : ℕ
  pub location : ℕ
  pub probe_sender : ℕ
  pub probe_idx : ℕ
  pub timestamp : RecordTs

-- `tid` is `none` where it is -1. `fout` is the records in the file, or `none` where it is NULL.
pub record LocalInfo : Type 0 where
  pub tid : Option ℕ
  pub fout : Option (List RecordFmt)
  pub nb_record : ℕ
  pub cache : List RecordFmt
  pub last_idx : ℕ
  pub last_port : ℕ

-- What the system answers: the number of the thread, and whether `fopen` opens its file.
pub record System : Type 0 where
  pub gettid : ℕ
  pub fopen_ok : Bool

-- `__local_init`, and whether it succeeds.
unfoldable pub local_init : System → LocalInfo → LocalInfo × Bool
local_init sys info =
    if sys.fopen_ok
    then (record info { tid = some sys.gettid; fout = some [] }, true)
    else (record info { tid = none; fout = none }, false)

unfoldable pub append_to : Option (List RecordFmt) → List RecordFmt → Option (List RecordFmt)
append_to none records = none
append_to (some written) records = some (written ++ records)

-- `writen`, where `fwrite` takes all that it is given, so that the loop has one round.
unfoldable pub writen : LocalInfo → List RecordFmt → LocalInfo
writen info records = record info { fout = append_to info.fout records }

unfoldable pub trace_flush : LocalInfo → LocalInfo
trace_flush info =
    if info.nb_record == 0
    then info
    else record (writen info (take info.nb_record info.cache)) { nb_record = 0 }

unfoldable pub timestamp_of : TimestampType → Timespec → RecordTs
timestamp_of timestamp_cycles ts = cycles ts.tv_nsec
timestamp_of timestamp_timespec ts = timespec ts

-- The number of the thread in a record; `none` is no number that a record gets.
unfoldable pub tid_of : LocalInfo → ℕ
tid_of info = elim info.tid [ none ↦ 0 | some tid ↦ tid ]

-- The record that `__record_to_cache` fills in.
abbrev pub entry : LocalInfo → ℕ → ℕ → ℕ → TimestampType → Timespec → RecordFmt
entry info loc idx sender type ts = record {
  tid = tid_of info;
  location = loc;
  probe_sender = sender;
  probe_idx = idx;
  timestamp = timestamp_of type ts;
}

-- `__record_to_cache` from the first assignment on.
unfoldable pub store : LocalInfo → RecordFmt → LocalInfo
store info new =
    let cache' = set info.cache info.nb_record new in
    let nb_record' = suc info.nb_record in
    if leb per_thread_cache_size nb_record'
    then record info {
      fout = (writen info (take per_thread_cache_size cache')).fout;
      cache = cache';
      nb_record = 0;
    }
    else record info { cache = cache'; nb_record = nb_record' }

-- The file is opened where it is not, and whether it is open then.
unfoldable pub open_file : System → LocalInfo → Option (List RecordFmt) → LocalInfo × Bool
open_file sys info none = local_init sys info
open_file sys info (some written) = (info, true)

-- `__record_to_cache`; no caller passes NULL for `ts`.
unfoldable pub record_to_cache :
    System → LocalInfo → ℕ → ℕ → ℕ → TimestampType → Option Timespec → LocalInfo
record_to_cache sys info loc idx sender type ts =
    let (info', is_open) = open_file sys info info.fout in
    if is_open
    then elim ts [ none ↦ info' | some t ↦ store info' (entry info' loc idx sender type t) ]
    else info'
