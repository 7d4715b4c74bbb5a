-- ===== src/Dump/Loading.antt =====
-- The input files of `cmd_dump` are opened and read, where there are no more than `fin` has room for
-- and their records have locations below 16.
use pkt_sender.Prelude.{
  ℕ, zero, suc, ◌≤◌, ◌≡◌, refl, Bool, true, false, List, [], ◌∷◌, ◌++◌, Option, none, some, length,
  arith,
}
use pkt_sender.Dump.Defs.{Traces, Read, read_record}
use pkt_sender.Dump.Records.{IsConsistent}
use pkt_sender.Dump.Output.{AreInside, read_record-ReadsAll}
use pkt_sender.Dump.Command.{Files, opened_input, open_inputs, next_input, load_inputs}

abbrev pub AllInside : List (List Read) → Type 0
AllInside [] = Unit
AllInside (f ∷ fs) = AreInside f × AllInside fs

-- What the opening of the files gives.
abbrev pub OpensInside : Option (List (List Read) × Bool) → Type 0
OpensInside result =
    (fin : List (List Read)) × (ok : Bool) × (result ≡ some (fin, ok)) × AllInside fin

module _ (files : Files)
    (inside : (path : List ℕ) (f : List Read) → files.reads path ≡ some f → AreInside f) where
  opened_input-OpensInside :
      (path : List ℕ) (o : Option (List Read)) (rest : Option (List (List Read) × Bool))
      → files.reads path ≡ o
      → OpensInside rest
      → OpensInside (opened_input o rest)
  unfolding opened_input
  opened_input-OpensInside path none rest e r = ([], false, refl, tt)
  opened_input-OpensInside path (some f) rest e (fin, ok, r, a) =
      (f ∷ fin, ok, rw r refl, (inside path f e, a))

  pub open_inputs-OpensInside :
      (room : ℕ) (args : List (List ℕ))
      → length args ≤ room
      → OpensInside (open_inputs files room args)
  unfolding open_inputs
  open_inputs-OpensInside room [] h = ([], true, refl, tt)
  open_inputs-OpensInside zero (arg ∷ args) h = absurd (omega arith)
  open_inputs-OpensInside (suc room) (arg ∷ args) h =
      opened_input-OpensInside arg (files.reads arg) (open_inputs files room args) refl
        (open_inputs-OpensInside room args (omega arith))

-- What the reading of the files leaves.
abbrev pub Loaded : Option (Traces × List Bool) → Type 0
Loaded result = (s : Traces) × (oks : List Bool) × (result ≡ some (s, oks)) × IsConsistent s

next_input-Loaded :
    (first : Option (Traces × List Bool)) (rec : Traces → Option (Traces × List Bool))
    → Loaded first
    → ((s : Traces) → IsConsistent s → Loaded (rec s))
    → Loaded (next_input first rec)
unfolding next_input
next_input-Loaded first rec (s, oks, e, v) later =
    let (s', oks', f, v') = later s v in (s', oks ++ oks', rw (e, next_input, f) refl, v')

pub load_inputs-Loaded :
    (s : Traces) (fin : List (List Read))
    → IsConsistent s
    → AllInside fin
    → Loaded (load_inputs s fin)
unfolding load_inputs
load_inputs-Loaded s [] v a = (s, [], refl, v)
load_inputs-Loaded s (f ∷ fs) v a =
    let (s', oks, e, v', _) = read_record-ReadsAll s f v a.0 in
    next_input-Loaded (read_record s f) (λ t. load_inputs t fs) (s', oks, e, v')
      (λ t w. load_inputs-Loaded t fs w a.1)
