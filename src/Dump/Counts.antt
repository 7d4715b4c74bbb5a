-- ===== src/Dump/Counts.antt =====
-- How often `cmd_dump` of tools/cmd_dump.c opens and closes an element of `fin`.
use pkt_sender.Prelude.{
  ℕ, zero, suc, ◌+◌, ◌≡◌, refl, ap, arith, List, [], ◌∷◌, ◌++◌, if◌then◌else◌, ◌==◌,
}
use pkt_sender.Dump.Command.{
  output, default_output, input, StreamCall, opens, closes, opens_inputs, closes_inputs,
}

-- How often the element `j` of `fin` is opened and closed.
abbrev pub opened : ℕ → List StreamCall → ℕ
opened j [] = 0
opened j (opens (input i) ∷ calls) = (if i == j then 1 else 0) + opened j calls
opened j (opens (output i) ∷ calls) = opened j calls
opened j (opens default_output ∷ calls) = opened j calls
opened j (closes f ∷ calls) = opened j calls

abbrev pub closed : ℕ → List StreamCall → ℕ
closed j [] = 0
closed j (closes (input i) ∷ calls) = (if i == j then 1 else 0) + closed j calls
closed j (closes (output i) ∷ calls) = closed j calls
closed j (closes default_output ∷ calls) = closed j calls
closed j (opens f ∷ calls) = closed j calls

pub opened-append :
    (j : ℕ) (xs ys : List StreamCall) → opened j (xs ++ ys) ≡ opened j xs + opened j ys
opened-append j [] ys = omega arith
opened-append j (opens (input i) ∷ xs) ys = omega (arith, opened-append j xs ys)
opened-append j (opens (output i) ∷ xs) ys = opened-append j xs ys
opened-append j (opens default_output ∷ xs) ys = opened-append j xs ys
opened-append j (closes f ∷ xs) ys = opened-append j xs ys

pub closed-append :
    (j : ℕ) (xs ys : List StreamCall) → closed j (xs ++ ys) ≡ closed j xs + closed j ys
closed-append j [] ys = omega arith
closed-append j (closes (input i) ∷ xs) ys = omega (arith, closed-append j xs ys)
closed-append j (closes (output i) ∷ xs) ys = closed-append j xs ys
closed-append j (closes default_output ∷ xs) ys = closed-append j xs ys
closed-append j (opens f ∷ xs) ys = closed-append j xs ys

-- The calls for the elements of `fin`, by how often each is opened and closed.
pub record ForInputs (j : ℕ) (opening closing : List StreamCall) : Type 0 where
  pub as_many : opened j opening ≡ closed j closing
  pub only_opened : closed j opening ≡ 0
  pub only_closed : opened j closing ≡ 0

pub all_inputs : (j n i : ℕ) → ForInputs j (opens_inputs n i) (closes_inputs n i)
unfolding opens_inputs closes_inputs
all_inputs j zero i = record { as_many = refl; only_opened = refl; only_closed = refl }
all_inputs j (suc n) i =
    let rest = all_inputs j n (suc i) in
    record {
      as_many = ap (λ (c : ℕ). (if i == j then 1 else 0) + c) rest.as_many;
      only_opened = rest.only_opened;
      only_closed = rest.only_closed;
    }
