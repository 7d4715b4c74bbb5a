-- ===== src/Args/RoundTrip.antt =====
-- `__parse_config` of src/main.c reads back mappings that are written in its syntax.
use pkt_sender.Prelude.{
  ℕ, zero, suc, ◌+◌, ◌/◌, ◌%◌, ◌≤◌, ◌<◌, ◌≡◌, refl, ap, ◌∙◌, arith, false, List, [], ◌∷◌, ◌++◌,
  none, some, if◌then◌else◌, leb, ltb, ◌==◌, length, length-append,
}
use mathlib.Core.List.{append-nil, append_assoc}
use pkt_sender.Config.Defs.{LcoreParams, max_lcore_params}
use pkt_sender.Args.Defs.{
  TextCalls, split_at, str_to_uint8, job_of, accepted, entry_job, entry_lcore, parse_fields,
  parse_entry, with_entry, parse_open, parse_next, parse_loop, parse_config,
}
use pkt_sender.Args.Bounds.{FitsBytes, AllFit}

abbrev pub Without : ℕ → List ℕ → Type 0
Without c [] = Unit
Without c (x ∷ xs) = ((x == c) ≡ false) × Without c xs

Without-append : (c : ℕ) (a b : List ℕ) → Without c a → Without c b → Without c (a ++ b)
Without-append c [] b h k = k
Without-append c (x ∷ a) b h k = (h.0, Without-append c a b h.1 k)

pub split_at-append : (c : ℕ) (a r : List ℕ) → Without c a → split_at c (a ++ (c ∷ r)) ≡ some (a, r)
unfolding split_at
split_at-append c [] r h = ground arith
split_at-append c (x ∷ a) r h = rw (h.0, split_at-append c a r h.1) refl

split_at-none : (c : ℕ) (a : List ℕ) → Without c a → split_at c a ≡ none
unfolding split_at
split_at-none c [] h = refl
split_at-none c (x ∷ a) h = rw (h.0, split_at-none c a h.1) refl

-- A number of one byte in decimal.
abbrev digit : ℕ → ℕ
digit n = 48 + n % 10

unfoldable pub decimal : ℕ → List ℕ
decimal n =
    if ltb n 10
    then digit n ∷ []
    else if ltb n 100
    then digit (n / 10) ∷ digit n ∷ []
    else digit (n / 100) ∷ digit (n / 10) ∷ digit n ∷ []

decimal-Without : (c n : ℕ) → c < 48 → Without c (decimal n)
unfolding decimal
decimal-Without c n h = ground arith

length-decimal : (n : ℕ) → length (decimal n) ≤ 3
unfolding decimal
length-decimal n = ground arith

job_text : ℕ → List ℕ
job_text job = if job == 0 then 82 ∷ [] else 84 ∷ []

-- What the code relies on: `strtoul` reads a decimal number, and `rte_strsplit` splits at the commas.
pub record ReadsTexts (calls : TextCalls) : Type 0 where
  pub reads :
      (n : ℕ)
      → n ≤ 255
      → calls.strtoul (decimal n) ≡ record { sets_errno = false; no_digits = false; val = n }
  pub splits :
      (a b c : List ℕ)
      → Without 44 a
      → Without 44 b
      → Without 44 c
      → calls.rte_strsplit (a ++ (44 ∷ (b ++ (44 ∷ c)))) ≡ a ∷ b ∷ c ∷ []

-- A mapping as it stands between parentheses: port, job and lcore.
entry_text : LcoreParams → List ℕ
entry_text p = decimal p.port_id ++ (44 ∷ (job_text p.job ++ (44 ∷ decimal p.lcore_id)))

-- Mappings in parentheses, with the text `sep` behind each.
unfoldable pub config_text : List ℕ → List LcoreParams → List ℕ
unfolding entry_text job_text
config_text sep [] = []
config_text sep (p ∷ ps) = 40 ∷ (entry_text p ++ (41 ∷ (sep ++ config_text sep ps)))

job_text-Without : (c job : ℕ) → c < 48 → Without c (job_text job)
unfolding job_text
job_text-Without c job h = ground arith

entry_text-Without : (p : LcoreParams) → Without 41 (entry_text p)
unfolding entry_text
entry_text-Without p =
    Without-append 41 (decimal p.port_id) (44 ∷ (job_text p.job ++ (44 ∷ decimal p.lcore_id)))
      (decimal-Without 41 p.port_id (omega arith))
      (
        refl,
        Without-append 41 (job_text p.job) (44 ∷ decimal p.lcore_id)
            (job_text-Without 41 p.job (omega arith))
            (refl, decimal-Without 41 p.lcore_id (omega arith)),
      )

length-entry_text : (p : LcoreParams) → length (entry_text p) < 256
unfolding entry_text job_text
length-entry_text p = ground (
  arith,
  length-append (decimal p.port_id) (44 ∷ (job_text p.job ++ (44 ∷ decimal p.lcore_id))),
  length-append (job_text p.job) (44 ∷ decimal p.lcore_id),
  length-decimal p.port_id,
  length-decimal p.lcore_id,
)

module _ (calls : TextCalls) (texts : ReadsTexts calls) where
  str_to_uint8-decimal : (n : ℕ) → n ≤ 255 → str_to_uint8 calls false (decimal n) ≡ (false, some n)
  unfolding str_to_uint8
  str_to_uint8-decimal n h = rw (texts.reads n h) (ground arith)

  job_of-job_text : (job : ℕ) → job ≤ 1 → job_of (job_text job) ≡ some job
  unfolding job_of job_text
  job_of-job_text zero h = refl
  job_of-job_text (suc zero) h = refl
  job_of-job_text (suc (suc n)) h = absurd (omega arith)

  entry_job-job_text :
      (port lcore job : ℕ)
      → job ≤ 1
      → entry_job calls false port (some lcore) (job_text job)
        ≡ (false, some (record { port_id = port; job = job; lcore_id = lcore }))
  unfolding entry_job
  entry_job-job_text port lcore job h = rw (job_of-job_text job h, entry_job) refl

  parse_entry-entry_text :
      (p : LcoreParams) → FitsBytes p → parse_entry calls false (entry_text p) ≡ (false, some p)
  unfolding parse_entry parse_fields entry_lcore
  parse_entry-entry_text p (port, job, lcore) =
      let short : leb 256 (length (entry_text p)) ≡ false = ground (arith, length-entry_text p) in
      let fields : calls.rte_strsplit (entry_text p)
          ≡ decimal p.port_id ∷ job_text p.job ∷ decimal p.lcore_id ∷ [] =
        unfold entry_text in
        texts.splits (decimal p.port_id) (job_text p.job) (decimal p.lcore_id)
          (decimal-Without 44 p.port_id (omega arith)) (job_text-Without 44 p.job (omega arith))
          (decimal-Without 44 p.lcore_id (omega arith)) in
      rw (short, fields, str_to_uint8-decimal p.port_id port, str_to_uint8-decimal p.lcore_id lcore)
        (entry_job-job_text p.port_id p.lcore_id p.job job)

  module _ (sep : List ℕ) (clean : Without 40 sep) where
    parse_loop-config_text :
        (fuel : ℕ) (lead : List ℕ) (params ps : List LcoreParams)
        → Without 40 lead
        → length ps < fuel
        → length params + length ps ≤ max_lcore_params
        → AllFit ps
        → parse_loop calls fuel (lead ++ config_text sep ps) false params
          ≡ accepted false (params ++ ps)
    unfolding parse_loop parse_next parse_open with_entry config_text
    parse_loop-config_text zero lead params ps w lt room fit = elim lt [ ]
    parse_loop-config_text (suc fuel) lead params [] w lt room fit =
        rw (append-nil, append-nil, split_at-none 40 lead w) refl
    parse_loop-config_text (suc fuel) lead params (p ∷ ps) w lt room fit =
        let free : leb max_lcore_params (length params) ≡ false = ground arith in
        rw
          (
            split_at-append 40 lead (entry_text p ++ (41 ∷ (sep ++ config_text sep ps))) w,
            free,
            split_at-append 41 (entry_text p) (sep ++ config_text sep ps) (entry_text-Without p),
            parse_entry-entry_text p fit.0,
          )
          (parse_loop-config_text fuel sep (params ++ (p ∷ [])) ps clean (omega arith)
              (omega (arith, length-append params (p ∷ []))) fit.1
            ∙ ap (λ (l : List LcoreParams). accepted false l) (append_assoc params (p ∷ []) ps))

length-config_text :
    (sep : List ℕ) (ps : List LcoreParams) → length ps ≤ length (config_text sep ps)
unfolding config_text
length-config_text sep [] = omega arith
length-config_text sep (p ∷ ps) = omega (
  arith,
  length-append (entry_text p) (41 ∷ (sep ++ config_text sep ps)),
  length-append sep (config_text sep ps),
  length-config_text sep ps,
)

-- Where `strtoul` reads decimal numbers and `rte_strsplit` splits at commas: up to 128 mappings
-- whose fields fit, written as "(port,R,lcore)" or "(port,T,lcore)" with any text without an
-- opening parenthesis behind each, are read back as they are, if `errno` is 0 before.
pub parse_config-config_text :
    (calls : TextCalls) (sep : List ℕ) (ps : List LcoreParams)
    → ReadsTexts calls
    → Without 40 sep
    → length ps ≤ 128
    → AllFit ps
    → parse_config calls false (config_text sep ps) ≡ accepted false ps
unfolding parse_config
parse_config-config_text calls sep ps texts clean room fit =
    parse_loop-config_text calls texts sep clean (suc (length (config_text sep ps))) [] [] ps tt
      (omega (arith, length-config_text sep ps)) (omega arith) fit
