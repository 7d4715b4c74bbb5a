-- ===== src/Ring/Runs.antt =====
-- Several writers and one reader of a ring, in any order of their steps, are a queue of whole blocks.
use pkt_sender.Prelude.{ℕ, arith, ◌≡◌, refl, sym, ap, ◌∙◌, List, [], ◌++◌}
use mathlib.Core.List.{append-nil, append_assoc}
use pkt_sender.Ring.Defs.{Ring}
use pkt_sender.Ring.Valid.{IsValid, contents}
use pkt_sender.Ring.Shared.{Shared, blocks, Step}
use pkt_sender.Ring.Loads.{ArePending}
use pkt_sender.Ring.Kept.{pending, Kept, IsFresh, step-Kept}
use pkt_sender.Ring.Steps.{IsShared}

-- Any number of steps, with all bytes given and all bytes taken.
pub data Runs : Shared → List ℕ → List ℕ → Shared → Type 0 where
  stays : (s : Shared) → Runs s [] [] s
  goes_on :
      (s t u : Shared) (given_now taken_now given_then taken_then : List ℕ)
      → Step s t given_now taken_now
      → Runs t given_then taken_then u
      → Runs s (given_now ++ given_then) (taken_now ++ taken_then) u

abbrev pub AreFresh : {s u : Shared} {given taken : List ℕ} → Runs s given taken u → Type 0
AreFresh (stays _) = Unit
AreFresh (goes_on _ _ _ _ _ _ _ step run) = IsFresh step × AreFresh run

runs-Kept :
    (k : ℕ) (s u : Shared) (given taken : List ℕ)
    → IsShared k s.ring s.tickets
    → ArePending s.ring s.reserved s.loads
    → (run : Runs s given taken u) → AreFresh run
    → Kept k s u given taken
runs-Kept k s u given taken v w (stays _) fresh = record {
  is_shared = v;
  are_pending = w;
  in_order = sym (append-nil _);
}
runs-Kept k s u given taken v w (goes_on _ t _ given_now taken_now given_then taken_then step run)
      fresh =
    let first = step-Kept k s v w t given_now taken_now step fresh.0 in
    let rest =
      runs-Kept k t u given_then taken_then first.is_shared first.are_pending run fresh.1 in
    record {
      is_shared = rest.is_shared;
      are_pending = rest.are_pending;
      in_order =
          append_assoc taken_now taken_then (pending u)
          ∙ ap (λ (bs : List ℕ). taken_now ++ bs) rest.in_order
          ∙ sym (append_assoc taken_now (pending t) given_then)
          ∙ ap (λ (bs : List ℕ). bs ++ given_then) first.in_order
          ∙ append_assoc (pending s) given_now given_then;
    }

-- A ring that no writer is at.
abbrev pub at_rest : Ring → Shared
at_rest r = record { ring = r; tickets = []; loads = []; reserved = 0 }

at_rest-IsShared : {k : ℕ} {r : Ring} → IsValid k r → IsShared k r []
at_rest-IsShared v = record {
  is_power = v.is_power;
  small = v.small;
  full = v.full;
  read_in = v.read_in;
  write_in = v.write_in;
  finish_in = omega (arith, v.quiet, v.write_in);
  chain = rw v.quiet refl;
}

-- From a valid ring at rest, in any order of the steps of several writers and of one reader in
-- which no compare-and-swap on `write_pos` succeeds after another reservation since its writer
-- read the positions: the bytes that the reader has taken, those that it can take and the blocks
-- of the writers that have reserved and not published are together the bytes of the ring before
-- and the blocks in the order of their reservations.
pub runs-pending :
    {k : ℕ} {r : Ring} (u : Shared) (given taken : List ℕ)
    → IsValid k r
    → (run : Runs (at_rest r) given taken u) → AreFresh run
    → taken ++ (contents u.ring ++ blocks u.tickets) ≡ contents r ++ given
runs-pending {k} {r} u given taken v run fresh =
    (runs-Kept k (at_rest r) u given taken (at_rest-IsShared v) tt run fresh).in_order
    ∙ ap (λ (bs : List ℕ). bs ++ given) (append-nil (contents r))
