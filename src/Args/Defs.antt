-- ===== src/Args/Defs.antt =====
-- `str_to_uint8` of src/util.h and `__parse_config` of src/main.c, over texts as lists of bytes
-- without the closing zero. `strtoul` (with base 0) and `rte_strsplit` of DPDK are parameters.
use pkt_sender.Prelude.{
  ℕ, zero, suc, Bool, ◌||◌, List, [], ◌∷◌, ◌++◌, Option, none, some, if◌then◌else◌, ltb, leb, ◌==◌,
  length,
}
use pkt_sender.Config.Defs.{LcoreParams, max_lcore_params}

-- What `strtoul` gives: whether it sets `errno`, whether it reads no digit, and the number.
pub record Strtoul : Type 0 where
  pub sets_errno : Bool
  pub no_digits : Bool
  pub val : ℕ

-- The functions of other libraries.
pub record TextCalls : Type 0 where
  pub strtoul : List ℕ → Strtoul
  pub rte_strsplit : List ℕ → List (List ℕ)

-- `strchr`: what stands before the first `c`, and what stands behind it; `none` where there is no `c`.
unfoldable pub split_at : ℕ → List ℕ → Option (List ℕ × List ℕ)
split_at c [] = none
split_at c (x ∷ xs) =
    if x == c
    then some ([], xs)
    else (elim (split_at c xs) [ none ↦ none | some (before, after) ↦ some (x ∷ before, after) ])

-- The answer of a conversion, with `errno`, which is never cleared.
unfoldable pub str_to_uint8 : TextCalls → Bool → List ℕ → Bool × Option ℕ
str_to_uint8 calls errno str =
    let r = calls.strtoul str in
    let errno' = errno || r.sets_errno in
    (errno', if errno' || (r.no_digits || ltb 255 r.val) then none else some r.val)

-- LCORE_JOB_RX for "R", LCORE_JOB_TX for "T".
unfoldable pub job_of : List ℕ → Option ℕ
job_of (c ∷ []) = if c == 82 then some 0 else if c == 84 then some 1 else none
job_of _ = none

-- How the parsing ends: by a lack of fuel, by -1, or with the mappings; `errno` stands with it.
pub data ConfigEnd : Type 0 where
  out_of_fuel : ConfigEnd
  refused : Bool → ConfigEnd
  accepted : Bool → List LcoreParams → ConfigEnd

module _ (calls : TextCalls) where
  -- The fields of a mapping, in the order in which the code reads them.
  unfoldable pub entry_job : Bool → ℕ → Option ℕ → List ℕ → Bool × Option LcoreParams
  entry_job errno port none job = (errno, none)
  entry_job errno port (some lcore) job = elim (job_of job) [
    | none ↦ (errno, none)
    | some j ↦ (errno, some (record { port_id = port; job = j; lcore_id = lcore }))
  ]

  unfoldable pub entry_lcore : Bool → Option ℕ → List ℕ → List ℕ → Bool × Option LcoreParams
  entry_lcore errno none job lcore = (errno, none)
  entry_lcore errno (some port) job lcore =
      let (errno', val) = str_to_uint8 calls errno lcore in entry_job errno' port val job

  unfoldable pub parse_fields : Bool → List (List ℕ) → Bool × Option LcoreParams
  parse_fields errno (port ∷ job ∷ lcore ∷ []) =
      let (errno', val) = str_to_uint8 calls errno port in entry_lcore errno' val job lcore
  parse_fields errno _ = (errno, none)

  -- The text between the parentheses: it has room in `s`, with its closing zero.
  unfoldable pub parse_entry : Bool → List ℕ → Bool × Option LcoreParams
  parse_entry errno str =
      if leb 256 (length str) then (errno, none) else parse_fields errno (calls.rte_strsplit str)

  -- The loop behind an opening parenthesis, and that which looks for the next. The text goes on at
  -- the closing parenthesis.
  unfoldable pub with_entry :
      Bool × Option LcoreParams
      → List LcoreParams
      → (Bool → List LcoreParams → ConfigEnd)
      → ConfigEnd
  with_entry (errno, none) params next = refused errno
  with_entry (errno, some p) params next = next errno (params ++ (p ∷ []))

  unfoldable pub parse_open :
      Bool
      → List LcoreParams
      → Option (List ℕ × List ℕ)
      → (List ℕ → Bool → List LcoreParams → ConfigEnd)
      → ConfigEnd
  parse_open errno params none next = refused errno
  parse_open errno params (some (str, after)) next =
      with_entry (parse_entry errno str) params (next after)

  unfoldable pub parse_next :
      Bool
      → List LcoreParams
      → Option (List ℕ × List ℕ)
      → (List ℕ → Bool → List LcoreParams → ConfigEnd)
      → ConfigEnd
  parse_next errno params none next = accepted errno params
  parse_next errno params (some (before, p)) next =
      if leb max_lcore_params (length params)
      then refused errno
      else parse_open errno params (split_at 41 p) next

  unfoldable pub parse_loop : ℕ → List ℕ → Bool → List LcoreParams → ConfigEnd
  parse_loop zero p0 errno params = out_of_fuel
  parse_loop (suc fuel) p0 errno params =
      parse_next errno params (split_at 40 p0)
        (λ p errno' params'. parse_loop fuel p errno' params')

  unfoldable pub parse_config : Bool → List ℕ → ConfigEnd
  parse_config errno q_arg = parse_loop (suc (length q_arg)) q_arg errno []
