-- ===== src/Dump/CommandTests.antt =====
-- `cmd_dump` of tools/cmd_dump.c with two trace files, of which the second cannot be read.
use pkt_sender.Prelude.{
  ℕ, List, arith, subst, inl, inr, Bool-cases, ◌≡◌, refl, true, false, [], ◌∷◌, none, some,
  if◌then◌else◌, ◌==◌,
}
use pkt_sender.Ring.Create.{System}
use mathlib.Core.Option.{some-injective}
use pkt_sender.Dump.Defs.{Read}
use pkt_sender.Dump.Output.{AreInside}
use pkt_sender.Dump.Command.{
  input, default_output, opens, closes, Files, Dumped, cmd_dump, parse_opts, default_fout,
  with_output, with_inputs, open_inputs, opened_input, opens_inputs, closes_inputs,
}
use pkt_sender.Dump.Counts.{opened, closed}
use pkt_sender.Dump.Closing.{cmd_dump-closed}

-- Nothing is asked of it before the input files are open.
abbrev refusing : System
refusing = record {
  open_ok = false;
  truncate_ok = λ n. false;
  map_ok = λ n. false;
  shared = record {
    is_mmap = 0;
    size = 0;
    data_size = 0;
    read_pos = 0;
    write_pos = 0;
    finish_pos = 0;
    bytes = [];
  };
}

-- The file "a" is there, and is empty.
abbrev one_file : Files
one_file = record {
  can_write = λ path. true;
  reads = λ path. elim path [ [] ↦ none | c ∷ cs ↦ if c == 97 then some [] else none ];
}

abbrev one_closed : Dumped
one_closed = record {
  ok = false;
  lines = [];
  calls = opens default_output ∷ opens (input 0) ∷ closes (input 0) ∷ [];
}

cmd_dump_a_b : cmd_dump refusing one_file [] ((97 ∷ []) ∷ (98 ∷ []) ∷ []) ≡ some one_closed
unfolding cmd_dump parse_opts default_fout with_output with_inputs open_inputs opened_input
    opens_inputs closes_inputs
cmd_dump_a_b = refl

one_file-inside : (path : List ℕ) (f : List Read) → one_file.reads path ≡ some f → AreInside f
one_file-inside [] f e = absurd (ground arith)
one_file-inside (c ∷ cs) f e = elim (Bool-cases (c == 97)) [
  | inl h ↦ let nothing : [] ≡ f = some-injective _ _ (rw h at e) in subst AreInside nothing tt
  | inr h ↦ let w : none ≡ some f = rw h at e in absurd (ground arith)
]

cmd_dump-closed_example :
    (done : Dumped) × (cmd_dump refusing one_file [] ((97 ∷ []) ∷ (98 ∷ []) ∷ []) ≡ some done)
    × ((j : ℕ) → opened j done.calls ≡ closed j done.calls)
cmd_dump-closed_example =
    cmd_dump-closed refusing one_file [] ((97 ∷ []) ∷ (98 ∷ []) ∷ []) one_file-inside (omega arith)
