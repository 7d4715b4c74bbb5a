-- ===== src/Args/Bounds.antt =====
-- `__parse_config` of src/main.c ends, and never writes past its array.
use pkt_sender.Prelude.{
  ℕ, zero, suc, ◌≤◌, ◌<◌, arith, inl, inr, Bool, ◌||◌, List, [], ◌∷◌, ◌++◌, Option, none, some, leb,
  ltb, ◌==◌, length, length-append, Bool-cases,
}
use pkt_sender.Config.Defs.{LcoreParams, max_lcore_params}
use pkt_sender.Args.Defs.{
  TextCalls, split_at, str_to_uint8, job_of, ConfigEnd, out_of_fuel, refused, accepted, entry_job,
  entry_lcore, parse_fields, parse_entry, with_entry, parse_open, parse_next, parse_loop,
  parse_config,
}

-- Fields that fit their bytes, and a job that is one.
abbrev pub FitsBytes : LcoreParams → Type 0
FitsBytes p = (p.port_id ≤ 255) × (p.job ≤ 1) × (p.lcore_id ≤ 255)

abbrev pub AllFit : List LcoreParams → Type 0
AllFit [] = Unit
AllFit (p ∷ ps) = FitsBytes p × AllFit ps

AllFit-append :
    (ps : List LcoreParams) (p : LcoreParams) → AllFit ps → FitsBytes p → AllFit (ps ++ (p ∷ []))
AllFit-append [] p h f = (f, tt)
AllFit-append (q ∷ ps) p h f = (h.0, AllFit-append ps p h.1 f)

-- The parsing ends, and the mappings that it accepts stand in the array.
abbrev pub EndsWell : ConfigEnd → Type 0
EndsWell out_of_fuel = ⊥
EndsWell (refused errno) = Unit
EndsWell (accepted errno ps) = (length ps ≤ max_lcore_params) × AllFit ps

-- What stands behind a character is shorter.
abbrev Shorter : ℕ → Option (List ℕ × List ℕ) → Type 0
Shorter n none = Unit
Shorter n (some (before, after)) = length after < n

split_at-Shorter : (c : ℕ) (s : List ℕ) → Shorter (length s) (split_at c s)
unfolding split_at
split_at-Shorter c [] = tt
split_at-Shorter c (x ∷ xs) = elim (Bool-cases (x == c)) [
  | inl e ↦ rw e (omega arith)
  | inr e ↦ rw e (longer (split_at c xs) (split_at-Shorter c xs))
]
  where
    longer :
        (o : Option (List ℕ × List ℕ))
        → Shorter (length xs) o
        → Shorter
            (suc (length xs))
            (elim o [ none ↦ none | some (before, after) ↦ some (x ∷ before, after) ])
    longer none h = tt
    longer (some (before, after)) h = omega arith

abbrev EntryFits : Bool × Option LcoreParams → Type 0
EntryFits (errno, none) = Unit
EntryFits (errno, some p) = FitsBytes p

abbrev Small : Option ℕ → Type 0
Small none = Unit
Small (some n) = n ≤ 255

abbrev IsJob : Option ℕ → Type 0
IsJob none = Unit
IsJob (some n) = n ≤ 1

job_of-IsJob : (s : List ℕ) → IsJob (job_of s)
unfolding job_of
job_of-IsJob [] = tt
job_of-IsJob (c ∷ []) = elim (Bool-cases (c == 82)) [
  | inl e ↦ rw e (omega arith)
  | inr e ↦ elim (Bool-cases (c == 84)) [ inl f ↦ rw (e, f) (omega arith) | inr f ↦ rw (e, f) tt ]
]
job_of-IsJob (c ∷ d ∷ s) = tt

module _ (calls : TextCalls) where
  str_to_uint8-Small : (errno : Bool) (s : List ℕ) → Small (str_to_uint8 calls errno s).1
  unfolding str_to_uint8
  str_to_uint8-Small errno s =
      elim (Bool-cases (
        (errno || (calls.strtoul s).sets_errno)
        || ((calls.strtoul s).no_digits || ltb 255 (calls.strtoul s).val))) [
          | inl e ↦ rw e tt
          | inr e ↦ rw e (ground arith)
        ]

  entry_job-EntryFits :
      (errno : Bool) (port : ℕ) (lcore : Option ℕ) (job : List ℕ)
      → port ≤ 255
      → Small lcore
      → EntryFits (entry_job calls errno port lcore job)
  unfolding entry_job
  entry_job-EntryFits errno port none job h k = tt
  entry_job-EntryFits errno port (some lcore) job h k = with_job (job_of job) (job_of-IsJob job)
    where
      with_job :
          (o : Option ℕ)
          → IsJob o
          → EntryFits (elim o [
            | none ↦ (errno, none)
            | some j ↦ (errno, some (record { port_id = port; job = j; lcore_id = lcore }))
          ])
      with_job none l = tt
      with_job (some j) l = (h, l, k)

  entry_lcore-EntryFits :
      (errno : Bool) (port : Option ℕ) (job lcore : List ℕ)
      → Small port
      → EntryFits (entry_lcore calls errno port job lcore)
  unfolding entry_lcore
  entry_lcore-EntryFits errno none job lcore h = tt
  entry_lcore-EntryFits errno (some port) job lcore h =
      entry_job-EntryFits (str_to_uint8 calls errno lcore).0 port (str_to_uint8 calls errno lcore).1
        job h (str_to_uint8-Small errno lcore)

  parse_fields-EntryFits :
      (errno : Bool) (fields : List (List ℕ)) → EntryFits (parse_fields calls errno fields)
  unfolding parse_fields
  parse_fields-EntryFits errno [] = tt
  parse_fields-EntryFits errno (a ∷ []) = tt
  parse_fields-EntryFits errno (a ∷ b ∷ []) = tt
  parse_fields-EntryFits errno (port ∷ job ∷ lcore ∷ []) =
      entry_lcore-EntryFits (str_to_uint8 calls errno port).0 (str_to_uint8 calls errno port).1 job
        lcore (str_to_uint8-Small errno port)
  parse_fields-EntryFits errno (a ∷ b ∷ c ∷ d ∷ s) = tt

  parse_entry-EntryFits : (errno : Bool) (str : List ℕ) → EntryFits (parse_entry calls errno str)
  unfolding parse_entry
  parse_entry-EntryFits errno str = elim (Bool-cases (leb 256 (length str))) [
    | inl e ↦ rw e tt
    | inr e ↦ rw e (parse_fields-EntryFits errno (calls.rte_strsplit str))
  ]

  -- The rest of the loop, for a text that is shorter than the fuel.
  abbrev Continues : ℕ → (List ℕ → Bool → List LcoreParams → ConfigEnd) → Type 0
  Continues n next =
      (p : List ℕ) (errno : Bool) (params : List LcoreParams)
      → length p < n
      → length params ≤ max_lcore_params
      → AllFit params
      → EndsWell (next p errno params)

  with_entry-EndsWell :
      (n : ℕ) (entry : Bool × Option LcoreParams) (params : List LcoreParams) (p : List ℕ)
      (next : List ℕ → Bool → List LcoreParams → ConfigEnd)
      → Continues n next
      → EntryFits entry
      → length p < n
      → length params < max_lcore_params
      → AllFit params
      → EndsWell (with_entry calls entry params (next p))
  unfolding with_entry
  with_entry-EndsWell n (errno, none) params p next go f lt room all = tt
  with_entry-EndsWell n (errno, some q) params p next go f lt room all =
      go p errno (params ++ (q ∷ [])) lt (omega (arith, length-append params (q ∷ [])))
        (AllFit-append params q all f)

  parse_open-EndsWell :
      (n : ℕ) (errno : Bool) (params : List LcoreParams) (o : Option (List ℕ × List ℕ))
      (next : List ℕ → Bool → List LcoreParams → ConfigEnd)
      → Continues n next
      → Shorter n o
      → length params < max_lcore_params
      → AllFit params
      → EndsWell (parse_open calls errno params o next)
  unfolding parse_open
  parse_open-EndsWell n errno params none next go short room all = tt
  parse_open-EndsWell n errno params (some (str, after)) next go short room all =
      with_entry-EndsWell n (parse_entry calls errno str) params after next go
        (parse_entry-EntryFits errno str) short room all

  weaken : (m n : ℕ) (o : Option (List ℕ × List ℕ)) → m ≤ n → Shorter m o → Shorter n o
  weaken m n none le h = tt
  weaken m n (some (b, a)) le h = omega arith

  parse_next-EndsWell :
      (n : ℕ) (errno : Bool) (params : List LcoreParams) (o : Option (List ℕ × List ℕ))
      (next : List ℕ → Bool → List LcoreParams → ConfigEnd)
      → Continues n next
      → Shorter (suc n) o
      → length params ≤ max_lcore_params
      → AllFit params
      → EndsWell (parse_next calls errno params o next)
  unfolding parse_next
  parse_next-EndsWell n errno params none next go short room all = (room, all)
  parse_next-EndsWell n errno params (some (before, p)) next go short room all =
      elim (Bool-cases (leb max_lcore_params (length params))) [
        | inl e ↦ rw e tt
        | inr e ↦ rw e (
            parse_open-EndsWell n errno params (split_at 41 p) next go
              (weaken (length p) n (split_at 41 p) (omega arith) (split_at-Shorter 41 p))
              (ground arith) all)
      ]

  parse_loop-EndsWell :
      (fuel : ℕ) → Continues fuel (λ p errno params. parse_loop calls fuel p errno params)
  unfolding parse_loop
  parse_loop-EndsWell zero p errno params lt room all = elim lt [ ]
  parse_loop-EndsWell (suc fuel) p errno params lt room all =
      parse_next-EndsWell fuel errno params (split_at 40 p)
        (λ p' errno' params'. parse_loop calls fuel p' errno' params') (parse_loop-EndsWell fuel)
        (weaken (length p) (suc fuel) (split_at 40 p) (omega arith) (split_at-Shorter 40 p)) room
        all

-- For every text the parsing ends, and what it accepts are at most 128 mappings, each of them with a
-- port and an lcore that fit a byte and with one of the two jobs.
pub parse_config-EndsWell :
    (calls : TextCalls) (errno : Bool) (q_arg : List ℕ) → EndsWell (parse_config calls errno q_arg)
unfolding parse_config
parse_config-EndsWell calls errno q_arg =
    parse_loop-EndsWell calls (suc (length q_arg)) q_arg errno [] (omega arith) (omega arith) tt
