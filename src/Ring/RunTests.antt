-- ===== src/Ring/RunTests.antt =====
-- A run of two writers and a reader of a ring of tools/ringbuffer.c: both read the same positions,
-- so that the second has to try again; it copies its block first,
-- the first one publishes, and the reader takes four bytes.
use pkt_sender.Prelude.{ℕ, List, ◌≡◌, refl, arith, false, true, [], ◌∷◌, ◌++◌}
use pkt_sender.Prelude.Arrays.{blit}
use pkt_sender.Prelude.Words.{add32, sub32}
use pkt_sender.Ring.Defs.{
  Ring, win, reserve, copy_in, publish, get, umin, get_rest_size, get_used_size,
}
use pkt_sender.Ring.Valid.{IsValid, contents}
use pkt_sender.Ring.Shared.{
  Ticket, Load, Shared, blocks, Step, reads, wins, retries, copies, publishes, gets,
}
use pkt_sender.Ring.Runs.{Runs, stays, goes_on, AreFresh, at_rest, runs-pending}

abbrev two_bytes : Ring
two_bytes = record {
  is_mmap = 0;
  size = 32;
  data_size = 8;
  read_pos = 7;
  write_pos = 1;
  finish_pos = 1;
  bytes = 8 ∷ 0 ∷ 0 ∷ 0 ∷ 0 ∷ 0 ∷ 0 ∷ 7 ∷ [];
}

two_bytes-IsValid : IsValid 3 two_bytes
two_bytes-IsValid = omega arith

abbrev ticket_a : Ticket
ticket_a = record { write_old = 1; write_new = 3; buffer = 1 ∷ 2 ∷ []; len = 2; copied = false }

abbrev ticket_b : Ticket
ticket_b = record { write_old = 3; write_new = 4; buffer = 3 ∷ []; len = 1; copied = false }

abbrev a_copied : Ticket
a_copied = record ticket_a { copied = true }

abbrev b_copied : Ticket
b_copied = record ticket_b { copied = true }

abbrev load_a : Load
load_a = record { write_old = 1; write_new = 3; buffer = 1 ∷ 2 ∷ []; len = 2; at = 0 }

abbrev load_b : Load
load_b = record { write_old = 1; write_new = 2; buffer = 3 ∷ []; len = 1; at = 0 }

abbrev load_b_again : Load
load_b_again = record { write_old = 3; write_new = 4; buffer = 3 ∷ []; len = 1; at = 1 }

abbrev a_read : Shared
a_read = record (at_rest two_bytes) { loads = load_a ∷ [] }

abbrev both_read : Shared
both_read = record (at_rest two_bytes) { loads = load_b ∷ load_a ∷ [] }

abbrev a_in : Shared
a_in = record {
  ring = record two_bytes { write_pos = 3 };
  tickets = ticket_a ∷ [];
  loads = load_b ∷ [];
  reserved = 1;
}

abbrev b_failed : Shared
b_failed = record a_in { loads = [] }

abbrev b_read_again : Shared
b_read_again = record a_in { loads = load_b_again ∷ [] }

abbrev both_in : Shared
both_in = record {
  ring = record two_bytes { write_pos = 4 };
  tickets = ticket_a ∷ ticket_b ∷ [];
  loads = [];
  reserved = 2;
}

abbrev b_there : Shared
b_there = record both_in {
  ring = record two_bytes { write_pos = 4; bytes = 8 ∷ 0 ∷ 0 ∷ 3 ∷ 0 ∷ 0 ∷ 0 ∷ 7 ∷ [] };
  tickets = ticket_a ∷ b_copied ∷ [];
}

abbrev both_there : Shared
both_there = record both_in {
  ring = record two_bytes { write_pos = 4; bytes = 8 ∷ 1 ∷ 2 ∷ 3 ∷ 0 ∷ 0 ∷ 0 ∷ 7 ∷ [] };
  tickets = a_copied ∷ b_copied ∷ [];
}

abbrev a_out : Shared
a_out = record both_there {
  ring = record both_there.ring { finish_pos = 3 };
  tickets = b_copied ∷ [];
}

abbrev taken_four : Shared
taken_four = record a_out { ring = record a_out.ring { read_pos = 3 } }

unfoldable step_read_a : Step (at_rest two_bytes) a_read [] []
unfolding reserve get_rest_size add32 sub32
step_read_a =
    reads (1 ∷ 2 ∷ []) 2 1 3 (record two_bytes { write_pos = 3 }) (omega arith) (omega arith) refl
      refl refl refl

unfoldable step_read_b : Step a_read both_read [] []
unfolding reserve get_rest_size add32 sub32
step_read_b =
    reads (3 ∷ []) 1 1 2 (record two_bytes { write_pos = 2 }) (omega arith) (omega arith) refl refl
      refl refl

unfoldable step_win_a : Step both_read a_in (1 ∷ 2 ∷ []) []
unfolding win
step_win_a = wins (load_b ∷ []) [] load_a a_in.ring refl refl refl refl refl

unfoldable step_retry_b : Step a_in b_failed [] []
unfolding win
step_retry_b = retries [] [] load_b refl refl refl refl refl

unfoldable step_read_b_again : Step b_failed b_read_again [] []
unfolding reserve get_rest_size add32 sub32
step_read_b_again =
    reads (3 ∷ []) 1 3 4 both_in.ring (omega arith) (omega arith) refl refl refl refl

unfoldable step_win_b : Step b_read_again both_in (3 ∷ []) []
unfolding win
step_win_b = wins [] [] load_b_again both_in.ring refl refl refl refl refl

unfoldable step_copy_b : Step both_in b_there [] []
unfolding copy_in blit umin add32 sub32
step_copy_b = copies (ticket_a ∷ []) [] ticket_b refl refl refl refl refl

unfoldable step_copy_a : Step b_there both_there [] []
unfolding copy_in blit umin add32 sub32
step_copy_a = copies [] (b_copied ∷ []) ticket_a refl refl refl refl refl

unfoldable step_publish_a : Step both_there a_out [] []
unfolding publish
step_publish_a = publishes [] (b_copied ∷ []) a_copied a_out.ring refl refl refl refl refl refl

unfoldable step_get : Step a_out taken_four [] (7 ∷ 8 ∷ 1 ∷ 2 ∷ [])
unfolding get umin get_used_size add32 sub32
step_get = gets 5 refl refl refl

abbrev out : List ℕ
out = 7 ∷ 8 ∷ 1 ∷ 2 ∷ []

abbrev run : Runs (at_rest two_bytes) (1 ∷ 2 ∷ 3 ∷ []) (7 ∷ 8 ∷ 1 ∷ 2 ∷ []) taken_four
run = goes_on _ a_read _ [] [] (1 ∷ 2 ∷ 3 ∷ []) out step_read_a (
    goes_on _ both_read _ [] [] (1 ∷ 2 ∷ 3 ∷ []) out step_read_b (
      goes_on _ a_in _ (1 ∷ 2 ∷ []) [] (3 ∷ []) out step_win_a (
        goes_on _ b_failed _ [] [] (3 ∷ []) out step_retry_b (
          goes_on _ b_read_again _ [] [] (3 ∷ []) out step_read_b_again (
            goes_on _ both_in _ (3 ∷ []) [] [] out step_win_b (
              goes_on _ b_there _ [] [] [] out step_copy_b (
                goes_on _ both_there _ [] [] [] out step_copy_a (
                  goes_on _ a_out _ [] [] [] out step_publish_a
                    (goes_on _ taken_four _ [] out [] [] step_get (stays taken_four))))))))))

run-AreFresh : AreFresh run
unfolding step_read_a step_read_b step_win_a step_retry_b step_read_b_again step_win_b step_copy_b
    step_copy_a step_publish_a step_get
run-AreFresh = (tt, (tt, (refl, (tt, (tt, (refl, (tt, (tt, (tt, (tt, tt))))))))))

runs-pending_example :
    (7 ∷ 8 ∷ 1 ∷ 2 ∷ []) ++ (contents taken_four.ring ++ blocks taken_four.tickets)
    ≡ contents two_bytes ++ (1 ∷ 2 ∷ 3 ∷ [])
runs-pending_example =
    runs-pending taken_four (1 ∷ 2 ∷ 3 ∷ []) (7 ∷ 8 ∷ 1 ∷ 2 ∷ []) two_bytes-IsValid run run-AreFresh
