-- ===== src/Tracer/Cache.antt =====
-- A record that is stored is in the file or in the cache, in order, and no other is lost.
use pkt_sender.Prelude.{
  ℕ, suc, ◌<◌, ◌≡◌, refl, sym, ap, ◌∙◌, inl, inr, true, false, List, [], ◌∷◌, ◌++◌, Option, none,
  some, arith, leb, ◌==◌, length, take, set, length-set, Bool-cases, dec_lt,
}
use pkt_sender.Tracer.Defs.{
  LocalInfo, RecordFmt, System, Timespec, TimestampType, per_thread_cache_size, append_to, writen,
  trace_flush, entry, store, open_file, record_to_cache,
}
use pkt_sender.Prelude.Slots.{take-set}
use mathlib.Core.Option.{some-injective}
use mathlib.Core.List.{append-nil, append_assoc}

-- The file is open, the cache has its size, and it is not full between two calls.
pub record IsOpen (info : LocalInfo) : Type 0 where
  pub written : List RecordFmt
  pub opened : info.fout ≡ some written
  pub full : length info.cache ≡ per_thread_cache_size
  pub below : info.nb_record < per_thread_cache_size

abbrev pub records_of : Option (List RecordFmt) → List RecordFmt
records_of none = []
records_of (some written) = written

records_of-append_to :
    (fout : Option (List RecordFmt)) (written records : List RecordFmt)
    → fout ≡ some written
    → (records_of (append_to fout records) ≡ records_of fout ++ records)
      × (append_to fout records ≡ some (written ++ records))
unfolding append_to
records_of-append_to none written records e = cc
records_of-append_to (some w) written records e =
    (refl, ap (λ (t : List RecordFmt). some (t ++ records)) (some-injective w written e))

-- All records taken: those of the file, and then those of the cache.
abbrev pub log : LocalInfo → List RecordFmt
log info = records_of info.fout ++ take info.nb_record info.cache

-- What a call that takes records leaves: the records are at the end, and the state is as before.
pub record Adds (info : LocalInfo) (records : List RecordFmt) (info' : LocalInfo) : Type 0 where
  pub logged : log info' ≡ log info ++ records
  pub is_open : IsOpen info'
  pub same_tid : info'.tid ≡ info.tid

module _ (info : LocalInfo) (v : IsOpen info) (new : RecordFmt) where
  abbrev cache' : List RecordFmt
  cache' = set info.cache info.nb_record new

  more : take (suc info.nb_record) cache' ≡ take info.nb_record info.cache ++ (new ∷ [])
  more = take-set info.nb_record info.cache new (omega (arith, v.full, v.below))

  store-room : suc info.nb_record < per_thread_cache_size → Adds info (new ∷ []) (store info new)
  unfolding store
  store-room h = rw room record {
    logged =
        rw more
          (sym (append_assoc (records_of info.fout) (take info.nb_record info.cache) (new ∷ [])));
    is_open = record {
      written = v.written;
      opened = v.opened;
      full = length-set info.cache info.nb_record new ∙ v.full;
      below = h;
    };
    same_tid = refl;
  }
    where
      room : leb per_thread_cache_size (suc info.nb_record) ≡ false
      room = ground arith

  store-full : suc info.nb_record ≡ per_thread_cache_size → Adds info (new ∷ []) (store info new)
  unfolding store writen
  store-full h = rw no_room record {
    logged =
        append-nil (records_of (append_to info.fout (take per_thread_cache_size cache')))
        ∙ appended.0
        ∙ ap (λ (t : List RecordFmt). records_of info.fout ++ t) all
        ∙ sym (append_assoc (records_of info.fout) (take info.nb_record info.cache) (new ∷ []));
    is_open = record {
      written = v.written ++ take per_thread_cache_size cache';
      opened = appended.1;
      full = length-set info.cache info.nb_record new ∙ v.full;
      below = omega arith;
    };
    same_tid = refl;
  }
    where
      no_room : leb per_thread_cache_size (suc info.nb_record) ≡ true
      no_room = ground arith

      appended :
          (records_of (append_to info.fout (take per_thread_cache_size cache'))
            ≡ records_of info.fout ++ take per_thread_cache_size cache')
          × (append_to info.fout (take per_thread_cache_size cache')
              ≡ some (v.written ++ take per_thread_cache_size cache'))
      appended = records_of-append_to info.fout v.written _ v.opened

      all : take per_thread_cache_size cache' ≡ take info.nb_record info.cache ++ (new ∷ [])
      all = ap (λ (k : ℕ). take k cache') (sym h) ∙ more

  store-Adds : Adds info (new ∷ []) (store info new)
  store-Adds = elim (dec_lt (suc info.nb_record) per_thread_cache_size) [
    | yes room ↦ store-room room
    | no over ↦ store-full (omega (arith, v.below))
  ]

pub open_file-open :
    (sys : System) (info : LocalInfo) (fout : Option (List RecordFmt)) (written : List RecordFmt)
    → fout ≡ some written
    → open_file sys info fout ≡ (info, true)
unfolding open_file
open_file-open sys info none written e = cc
open_file-open sys info (some w) written e = refl

-- With an open file, `__record_to_cache` adds its record at the end of those of file and cache,
-- whether the cache fills up or not, and leaves the cache below its size.
pub record_to_cache-Adds :
    (sys : System) (info : LocalInfo) (loc idx sender : ℕ) (type : TimestampType) (ts : Timespec)
    → IsOpen info
    → Adds info
        (entry info loc idx sender type ts ∷ [])
        (record_to_cache sys info loc idx sender type (some ts))
unfolding record_to_cache
record_to_cache-Adds sys info loc idx sender type ts v =
    rw (open_file-open sys info info.fout v.written v.opened)
      (store-Adds info v (entry info loc idx sender type ts))

-- What a flush leaves: all records in the file, and none in the cache.
pub record Flushed (info info' : LocalInfo) : Type 0 where
  pub in_file : info'.fout ≡ some (log info)
  pub none_cached : info'.nb_record ≡ 0
  pub is_open : IsOpen info'
  pub same_tid : info'.tid ≡ info.tid

-- With an open file, `trace_flush` leaves the file with all records, those of the cache last, an
-- empty cache and a valid state.
pub trace_flush-Flushed : (info : LocalInfo) → IsOpen info → Flushed info (trace_flush info)
unfolding trace_flush writen
trace_flush-Flushed info v = elim (Bool-cases (info.nb_record == 0)) [
  | inl e ↦ rw e (empty (ground arith))
  | inr e ↦ rw e record {
    in_file = appended.1 ∙ ap some (rw v.opened refl);
    none_cached = refl;
    is_open = record {
      written = v.written ++ take info.nb_record info.cache;
      opened = appended.1;
      full = v.full;
      below = omega arith;
    };
    same_tid = refl;
  }
]
  where
    appended :
        (records_of (append_to info.fout (take info.nb_record info.cache))
          ≡ records_of info.fout ++ take info.nb_record info.cache)
        × (append_to info.fout (take info.nb_record info.cache)
            ≡ some (v.written ++ take info.nb_record info.cache))
    appended = records_of-append_to info.fout v.written _ v.opened

    empty : info.nb_record ≡ 0 → Flushed info info
    empty z = record {
      in_file = v.opened ∙ ap some (sym (rw (v.opened, z) (append-nil v.written)));
      none_cached = z;
      is_open = v;
      same_tid = refl;
    }
