-- ===== src/Dump/Command.antt =====
-- `cmd_dump` of tools/cmd_dump.c, with the files that it opens and closes. The answers of `getopt`
-- are a list, and what `fopen` gives is a parameter. A call that would open more input files than
-- `fin` has room for is `none`.
use pkt_sender.Prelude.{
  ℕ, zero, suc, Bool, true, false, List, [], ◌∷◌, ◌++◌, Option, none, some, if◌then◌else◌, length,
}
use pkt_sender.Ring.Create.{System}
use pkt_sender.Dump.Defs.{Read, Traces, Line, read_record, dump_all_traces}
use pkt_sender.Dump.Start.{init_trace_tbl, cmd_dump_trace_max}

-- What `getopt` finds in turn.
pub data DumpOpt : Type 0 where
  output_opt : (path : List ℕ) → DumpOpt
  unknown_opt : DumpOpt

-- The file of an option `-o` by its place, the default one, and the element of `fin`.
pub data Stream : Type 0 where
  output : ℕ → Stream
  default_output : Stream
  input : ℕ → Stream

pub data StreamCall : Type 0 where
  opens : Stream → StreamCall
  closes : Stream → StreamCall

-- The files: which paths can be written, and what those that can be read hold. With each record
-- comes what its key takes over from the stack.
pub record Files : Type 0 where
  pub can_write : List ℕ → Bool
  pub reads : List ℕ → Option (List Read)

abbrev pub cmd_dump_file_max : ℕ
cmd_dump_file_max = 10

-- "trace.data"
abbrev pub output_default_path : List ℕ
output_default_path = 116 ∷ 114 ∷ 97 ∷ 99 ∷ 101 ∷ 46 ∷ 100 ∷ 97 ∷ 116 ∷ 97 ∷ []

-- `__parse_args`: `fout`, the calls, and whether it goes on.
unfoldable pub parse_opts :
    Files → ℕ → Option Stream → List DumpOpt → Option Stream × List StreamCall × Bool
parse_opts files i fout [] = (fout, [], true)
parse_opts files i fout (output_opt path ∷ opts) =
    let (fout', calls, ok) = parse_opts files (suc i) (some (output i)) opts in
    if files.can_write path then (fout', opens (output i) ∷ calls, ok) else (none, [], false)
parse_opts files i fout (unknown_opt ∷ opts) = (fout, [], false)

unfoldable pub close_output : Option Stream → List StreamCall
close_output none = []
close_output (some f) = closes f ∷ []

-- The default output where no option names one.
unfoldable pub default_fout : Files → Option Stream → Option Stream × List StreamCall
default_fout files (some f) = (some f, [])
default_fout files none =
    if files.can_write output_default_path
    then (some default_output, opens default_output ∷ [])
    else (none, [])

unfoldable pub opened_input :
    Option (List Read) → Option (List (List Read) × Bool) → Option (List (List Read) × Bool)
opened_input none rest = some ([], false)
opened_input (some f) none = none
opened_input (some f) (some (fs, ok)) = some (f ∷ fs, ok)

-- The loop that opens the input files: those that are opened, and whether all are.
unfoldable pub open_inputs : Files → ℕ → List (List ℕ) → Option (List (List Read) × Bool)
open_inputs files room [] = some ([], true)
open_inputs files zero (arg ∷ args) = none
open_inputs files (suc room) (arg ∷ args) =
    opened_input (files.reads arg) (open_inputs files room args)

-- The calls for `n` elements of `fin`, from the element `i` on.
unfoldable pub opens_inputs : ℕ → ℕ → List StreamCall
opens_inputs zero i = []
opens_inputs (suc n) i = opens (input i) ∷ opens_inputs n (suc i)

unfoldable pub closes_inputs : ℕ → ℕ → List StreamCall
closes_inputs zero i = []
closes_inputs (suc n) i = closes (input i) ∷ closes_inputs n (suc i)

unfoldable pub next_input :
    Option (Traces × List Bool)
    → (Traces → Option (Traces × List Bool))
    → Option (Traces × List Bool)
next_input none rec = none
next_input (some (s, oks)) rec = elim (rec s) [
  | none ↦ none
  | some (s', oks') ↦ some (s', oks ++ oks')
]

-- The loop that reads the input files.
unfoldable pub load_inputs : Traces → List (List Read) → Option (Traces × List Bool)
load_inputs s [] = some (s, [])
load_inputs s (f ∷ fs) = next_input (read_record s f) (λ s'. load_inputs s' fs)

-- Whether the command returns 0, the lines that it prints, and its calls.
pub record Dumped : Type 0 where
  pub ok : Bool
  pub lines : List Line
  pub calls : List StreamCall

abbrev failed : List StreamCall → Option Dumped
failed calls = some (record { ok = false; lines = []; calls = calls })

-- The end, from the reading of the input files on.
unfoldable pub print_inputs :
    List StreamCall → Option Stream → List (List Read) → Option (Traces × List Bool) → Option Dumped
print_inputs calls fout fin none = none
print_inputs calls fout fin (some (s, oks)) = elim (dump_all_traces s) [
  | none ↦ none
  | some lines ↦ some (record {
    ok = true;
    lines = lines;
    calls = calls ++ (closes_inputs (length fin) 0 ++ close_output fout);
  })
]

unfoldable pub with_traces :
    List StreamCall → Option Stream → List (List Read) → Option Traces → Option Dumped
with_traces calls fout fin none = failed (calls ++ closes_inputs (length fin) 0)
with_traces calls fout fin (some s) = print_inputs calls fout fin (load_inputs s fin)

unfoldable pub with_inputs :
    System → List StreamCall → Option Stream → Option (List (List Read) × Bool) → Option Dumped
with_inputs sys calls fout none = none
with_inputs sys calls fout (some (fin, false)) =
    failed ((calls ++ opens_inputs (length fin) 0) ++ closes_inputs (length fin) 0)
with_inputs sys calls fout (some (fin, true)) =
    with_traces (calls ++ opens_inputs (length fin) 0) fout fin
      (init_trace_tbl sys cmd_dump_trace_max)

unfoldable pub with_output :
    System → Files → List (List ℕ) → List StreamCall → Option Stream → Option Dumped
with_output sys files args calls none = failed calls
with_output sys files args calls (some f) =
    with_inputs sys calls (some f) (open_inputs files cmd_dump_file_max args)

unfoldable pub cmd_dump : System → Files → List DumpOpt → List (List ℕ) → Option Dumped
cmd_dump sys files opts args =
    let (fout, calls, ok) = parse_opts files 0 none opts in
    let (fout', default_calls) = default_fout files fout in
    if ok
    then with_output sys files args (calls ++ default_calls) fout'
    else failed (calls ++ close_output fout)
