-- ===== src/Dump/Closing.antt =====
-- The input files of `cmd_dump`, which are closed on every path.
use pkt_sender.Prelude.{
  map, subst, ap, ◌≤◌, length, ℕ, suc, ◌≡◌, refl, sym, ◌∙◌, inl, inr, arith, Bool, true, false,
  List, [], ◌∷◌, ◌++◌, Option, none, some, length, Bool-cases,
}
use mathlib.Core.Option.{some-injective}
use pkt_sender.Ring.Create.{System}
use pkt_sender.Dump.Records.{IsConsistent}
use pkt_sender.Dump.Output.{AreInside, dump_all_traces_lem}
use pkt_sender.Dump.Loading.{
  AllInside, OpensInside, open_inputs-OpensInside, Loaded, load_inputs-Loaded,
}
use pkt_sender.Dump.Defs.{Read, line_of, Traces}
use pkt_sender.Dump.Start.{init_trace_tbl-IsStart, init_trace_tbl, cmd_dump_trace_max}
use pkt_sender.Dump.Command.{
  DumpOpt, output_opt, unknown_opt, Stream, output, default_output, StreamCall, opens, Files,
  Dumped, parse_opts, close_output, default_fout, output_default_path, opens_inputs, closes_inputs,
  open_inputs, load_inputs, print_inputs, with_traces, with_inputs, with_output, cmd_dump,
  cmd_dump_file_max,
}
use pkt_sender.Dump.Counts.{opened, closed, opened-append, closed-append, all_inputs}

-- Output streams, and calls that are about no element of `fin`.
pub record ForOutput (j : ℕ) (fout : Option Stream) (calls : List StreamCall) : Type 0 where
  pub not_opened : opened j calls ≡ 0
  pub not_closed : closed j calls ≡ 0
  pub no_input : closed j (close_output fout) ≡ 0

opened-close_output : (j : ℕ) (fout : Option Stream) → opened j (close_output fout) ≡ 0
unfolding close_output
opened-close_output j none = refl
opened-close_output j (some f) = refl

parse_opts-ForOutput :
    (j : ℕ) (files : Files) (i : ℕ) (fout : Option Stream) (opts : List DumpOpt)
    → closed j (close_output fout) ≡ 0
    → let (fout', calls, _) = parse_opts files i fout opts in ForOutput j fout' calls
unfolding parse_opts close_output
parse_opts-ForOutput j files i fout [] e = record {
  not_opened = refl;
  not_closed = refl;
  no_input = e;
}
parse_opts-ForOutput j files i fout (output_opt path ∷ opts) e =
    let rest = parse_opts-ForOutput j files (suc i) (some (output i)) opts refl in
    elim (Bool-cases (files.can_write path)) [
      | inl w ↦ rw w (record {
        not_opened = rest.not_opened;
        not_closed = rest.not_closed;
        no_input = rest.no_input;
      })
      | inr w ↦ rw w (record { not_opened = refl; not_closed = refl; no_input = refl })
    ]
parse_opts-ForOutput j files i fout (unknown_opt ∷ opts) e = record {
  not_opened = refl;
  not_closed = refl;
  no_input = e;
}

default_fout-ForOutput :
    (j : ℕ) (files : Files) (fout : Option Stream) (calls : List StreamCall)
    → ForOutput j fout calls
    → let (fout', more) = default_fout files fout in ForOutput j fout' (calls ++ more)
unfolding default_fout close_output
default_fout-ForOutput j files (some f) calls o = record {
  not_opened = opened-append j calls [] ∙ omega (arith, o.not_opened);
  not_closed = closed-append j calls [] ∙ omega (arith, o.not_closed);
  no_input = o.no_input;
}
default_fout-ForOutput j files none calls o =
    elim (Bool-cases (files.can_write output_default_path)) [
      | inl w ↦ rw w (record {
        not_opened =
            opened-append j calls (opens default_output ∷ []) ∙ omega (arith, o.not_opened);
        not_closed =
            closed-append j calls (opens default_output ∷ []) ∙ omega (arith, o.not_closed);
        no_input = refl;
      })
      | inr w ↦ rw w (record {
        not_opened = opened-append j calls [] ∙ omega (arith, o.not_opened);
        not_closed = closed-append j calls [] ∙ omega (arith, o.not_closed);
        no_input = refl;
      })
    ]

-- That a call returns, and what it has closed by then.
abbrev ClosesInputs : Option Dumped → Type 0
ClosesInputs result =
    (done : Dumped) × (result ≡ some done) × ((j : ℕ) → opened j done.calls ≡ closed j done.calls)

returned :
    (now : Dumped) → ((j : ℕ) → opened j now.calls ≡ closed j now.calls) → ClosesInputs (some now)
returned now even = (now, refl, even)

-- The calls of the command once its input files are open and closed again.
in_between :
    (j n : ℕ) (fout : Option Stream) (calls ending : List StreamCall)
    → ForOutput j fout calls
    → opened j ending ≡ 0
    → closed j ending ≡ 0
    → opened j ((calls ++ opens_inputs n 0) ++ (closes_inputs n 0 ++ ending))
      ≡ closed j ((calls ++ opens_inputs n 0) ++ (closes_inputs n 0 ++ ending))
in_between j n fout calls ending o e f =
    let inputs = all_inputs j n 0 in
    rw (opened-append, opened-append, opened-append, closed-append, closed-append, closed-append)
      (omega
        (arith, inputs.as_many, inputs.only_opened, inputs.only_closed, o.not_opened, o.not_closed))

-- The same where the output stays open.
stays_open :
    (j n : ℕ) (fout : Option Stream) (calls : List StreamCall)
    → ForOutput j fout calls
    → opened j ((calls ++ opens_inputs n 0) ++ closes_inputs n 0)
      ≡ closed j ((calls ++ opens_inputs n 0) ++ closes_inputs n 0)
stays_open j n fout calls o =
    let inputs = all_inputs j n 0 in
    rw (opened-append, opened-append, closed-append, closed-append)
      (omega
        (arith, inputs.as_many, inputs.only_opened, inputs.only_closed, o.not_opened, o.not_closed))

module _ (sys : System) (calls : List StreamCall) (fout : Option Stream)
    (outputs : (j : ℕ) → ForOutput j fout calls) where
  print_inputs-ClosesInputs :
      (fin : List (List Read)) (result : Option (Traces × List Bool))
      → Loaded result
      → ClosesInputs (print_inputs (calls ++ opens_inputs (length fin) 0) fout fin result)
  unfolding print_inputs
  print_inputs-ClosesInputs fin result (s, oks, e, v) =
      let (ks, printed, _) = dump_all_traces_lem s v in
      let ending = close_output fout in
      (
        record {
          ok = true;
          lines = map (line_of s) ks;
          calls =
              (calls ++ opens_inputs (length fin) 0) ++ (closes_inputs (length fin) 0 ++ ending);
        },
        rw (e, print_inputs, printed) refl,
        λ j.
            in_between j (length fin) fout calls ending (outputs j) (opened-close_output j fout)
              (outputs j).no_input,
      )

  with_traces-ClosesInputs :
      (fin : List (List Read)) (start : Option Traces)
      → AllInside fin
      → ((s : Traces) → start ≡ some s → IsConsistent s)
      → ClosesInputs (with_traces (calls ++ opens_inputs (length fin) 0) fout fin start)
  unfolding with_traces
  with_traces-ClosesInputs fin none a v =
      returned _ (λ j. stays_open j (length fin) fout calls (outputs j))
  with_traces-ClosesInputs fin (some s) a v =
      print_inputs-ClosesInputs fin (load_inputs s fin) (load_inputs-Loaded s fin (v s refl) a)

  with_inputs-ClosesInputs :
      (result : Option (List (List Read) × Bool))
      → OpensInside result
      → ClosesInputs (with_inputs sys calls fout result)
  unfolding with_inputs
  with_inputs-ClosesInputs none (fin, ok, e, a) = absurd (ground arith)
  with_inputs-ClosesInputs (some (fin, false)) r =
      returned _ (λ j. stays_open j (length fin) fout calls (outputs j))
  with_inputs-ClosesInputs (some (fin, true)) (fin', ok, e, a) =
      let same : fin' ≡ fin =
        ap (λ (p : List (List Read) × Bool). p.0) (sym (some-injective _ _ e)) in
      with_traces-ClosesInputs fin (init_trace_tbl sys cmd_dump_trace_max) (subst AllInside same a)
        (λ s f. (init_trace_tbl-IsStart sys 12 s (omega arith) (omega arith) f).consistent)

module _ (sys : System) (files : Files)
    (inside : (path : List ℕ) (f : List Read) → files.reads path ≡ some f → AreInside f)
    (args : List (List ℕ)) (few : length args ≤ 10) where
  with_output-ClosesInputs :
      (calls : List StreamCall) (fout : Option Stream)
      → ((j : ℕ) → ForOutput j fout calls)
      → ClosesInputs (with_output sys files args calls fout)
  unfolding with_output
  with_output-ClosesInputs calls none outputs =
      returned _ (λ j. (outputs j).not_opened ∙ sym (outputs j).not_closed)
  with_output-ClosesInputs calls (some f) outputs =
      with_inputs-ClosesInputs sys calls (some f) outputs (open_inputs files cmd_dump_file_max args)
        (open_inputs-OpensInside files inside cmd_dump_file_max args few)

  ends : (opts : List DumpOpt) → ClosesInputs (cmd_dump sys files opts args)
  unfolding cmd_dump close_output
  ends opts =
      let (fout, calls, ok) = parse_opts files 0 none opts in
      elim (Bool-cases ok) [
        | inl e ↦ rw e (
            with_output-ClosesInputs _ _ (λ j.
              default_fout-ForOutput j files fout calls
                (parse_opts-ForOutput j files 0 none opts refl)))
        | inr e ↦ rw e (
            returned _ (λ j.
              let o = parse_opts-ForOutput j files 0 none opts refl in
              rw (opened-append, closed-append)
                (omega
                  (arith, o.not_opened, o.not_closed, o.no_input, opened-close_output j fout))))
      ]

-- For at most 10 input files, whose records have locations below 16, and for all options and all
-- answers of the system: `cmd_dump` returns, with 0 or with an error, and has then closed each
-- element of `fin` as often as it has opened it.
pub cmd_dump-closed :
    (sys : System) (files : Files) (opts : List DumpOpt) (args : List (List ℕ))
    → ((path : List ℕ) (f : List Read) → files.reads path ≡ some f → AreInside f)
    → length args ≤ 10
    → (done : Dumped) × (cmd_dump sys files opts args ≡ some done)
      × ((j : ℕ) → opened j done.calls ≡ closed j done.calls)
cmd_dump-closed sys files opts args inside few = ends sys files inside args few opts
