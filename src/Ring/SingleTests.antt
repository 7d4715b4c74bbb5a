-- ===== src/Ring/SingleTests.antt =====
-- A run of one writer and a reader of a ring of tools/ringbuffer.c.
use pkt_sender.Prelude.{◌≡◌, refl, arith, true, [], ◌∷◌, ◌++◌}
use pkt_sender.Prelude.Arrays.{blit}
use pkt_sender.Prelude.Words.{add32, sub32}
use pkt_sender.Ring.Defs.{
  Ring, win, reserve, copy_in, publish, get, umin, get_rest_size, get_used_size,
}
use pkt_sender.Ring.Valid.{IsValid, contents}
use pkt_sender.Ring.Shared.{
  Ticket, Load, ticket_of, Shared, blocks, Step, reads, wins, copies, publishes, gets,
}
use pkt_sender.Ring.Runs.{Runs, stays, goes_on, at_rest}
use pkt_sender.Ring.Single.{AreSingle, single-pending}

abbrev one_byte : Ring
one_byte = record {
  is_mmap = 0;
  size = 28;
  data_size = 4;
  read_pos = 3;
  write_pos = 0;
  finish_pos = 0;
  bytes = 0 ∷ 0 ∷ 0 ∷ 9 ∷ [];
}

one_byte-IsValid : IsValid 2 one_byte
one_byte-IsValid = omega arith

abbrev load : Load
load = record { write_old = 0; write_new = 2; buffer = 5 ∷ 6 ∷ []; len = 2; at = 0 }

abbrev done_copy : Ticket
done_copy = record (ticket_of load) { copied = true }

abbrev has_read : Shared
has_read = record (at_rest one_byte) { loads = load ∷ [] }

abbrev has_won : Shared
has_won = record {
  ring = record one_byte { write_pos = 2 };
  tickets = ticket_of load ∷ [];
  loads = [];
  reserved = 1;
}

abbrev has_copied : Shared
has_copied = record has_won {
  ring = record one_byte { write_pos = 2; bytes = 5 ∷ 6 ∷ 0 ∷ 9 ∷ [] };
  tickets = done_copy ∷ [];
}

abbrev has_published : Shared
has_published = record has_copied { ring = record has_copied.ring { finish_pos = 2 }; tickets = [] }

abbrev has_taken : Shared
has_taken = record has_published { ring = record has_published.ring { read_pos = 1 } }

unfoldable step_read : Step (at_rest one_byte) has_read [] []
unfolding reserve get_rest_size add32 sub32
step_read = reads (5 ∷ 6 ∷ []) 2 0 2 has_won.ring (omega arith) (omega arith) refl refl refl refl

unfoldable step_win : Step has_read has_won (5 ∷ 6 ∷ []) []
unfolding win
step_win = wins [] [] load has_won.ring refl refl refl refl refl

unfoldable step_copy : Step has_won has_copied [] []
unfolding copy_in blit umin add32 sub32
step_copy = copies [] [] (ticket_of load) refl refl refl refl refl

unfoldable step_publish : Step has_copied has_published [] []
unfolding publish
step_publish = publishes [] [] done_copy has_published.ring refl refl refl refl refl refl

unfoldable step_get : Step has_published has_taken [] (9 ∷ 5 ∷ [])
unfolding get umin get_used_size add32 sub32
step_get = gets 2 refl refl refl

abbrev run : Runs (at_rest one_byte) (5 ∷ 6 ∷ []) (9 ∷ 5 ∷ []) has_taken
run = goes_on _ has_read _ [] [] (5 ∷ 6 ∷ []) (9 ∷ 5 ∷ []) step_read (
    goes_on _ has_won _ (5 ∷ 6 ∷ []) [] [] (9 ∷ 5 ∷ []) step_win (
      goes_on _ has_copied _ [] [] [] (9 ∷ 5 ∷ []) step_copy (
        goes_on _ has_published _ [] [] [] (9 ∷ 5 ∷ []) step_publish
          (goes_on _ has_taken _ [] (9 ∷ 5 ∷ []) [] [] step_get (stays has_taken)))))

run-AreSingle : AreSingle run
unfolding step_read step_win step_copy step_publish step_get
run-AreSingle = ((refl, refl), (tt, (tt, (tt, (tt, tt)))))

single-pending_example :
    (9 ∷ 5 ∷ []) ++ (contents has_taken.ring ++ blocks has_taken.tickets)
    ≡ contents one_byte ++ (5 ∷ 6 ∷ [])
single-pending_example =
    single-pending has_taken (5 ∷ 6 ∷ []) (9 ∷ 5 ∷ []) one_byte-IsValid run run-AreSingle
