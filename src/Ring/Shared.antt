-- ===== src/Ring/Shared.antt =====
-- A ring of tools/ringbuffer.c under several writers and one reader, step by step: a writer reads the
-- positions and tests the room, tries its compare-and-swap on `write_pos` until it succeeds, copies
-- its block, and publishes it. A reading is one step, at the time when `read_pos` is read; so are
-- the copy of a block and a call of `ringbuffer_get`, which touch different bytes. Of the loop that
-- publishes, only the try that succeeds is a step.
use pkt_sender.Prelude.{
  ℕ, suc, none, ◌≤◌, ◌<◌, ◌≡◌, Bool, true, false, List, [], ◌∷◌, ◌++◌, some, length, take,
}
use pkt_sender.Ring.Defs.{Ring, reserve, win, copy_in, publish, get}

-- A writer between its reservation and its publication, and whether its block is copied.
pub record Ticket : Type 0 where
  pub write_old : ℕ
  pub write_new : ℕ
  pub buffer : List ℕ
  pub len : ℕ
  pub copied : Bool

-- A writer that has read the positions and found room, and has not tried its compare-and-swap:
-- what it will try, and how many reservations there were when it read.
pub record Load : Type 0 where
  pub write_old : ℕ
  pub write_new : ℕ
  pub buffer : List ℕ
  pub len : ℕ
  pub at : ℕ

-- The writers that have reserved, in the order of their reservations, those that have not, and
-- the number of reservations so far, which the code does not keep.
pub record Shared : Type 0 where
  pub ring : Ring
  pub tickets : List Ticket
  pub loads : List Load
  pub reserved : ℕ

abbrev pub ticket_of : Load → Ticket
ticket_of l = record {
  write_old = l.write_old;
  write_new = l.write_new;
  buffer = l.buffer;
  len = l.len;
  copied = false;
}

abbrev pub block : Ticket → List ℕ
block t = take t.len t.buffer

-- The bytes that writers have reserved and not published.
abbrev pub blocks : List Ticket → List ℕ
blocks [] = []
blocks (t ∷ ts) = block t ++ blocks ts

-- A step from `s` to `u`, with the bytes that a writer brings and those that the reader takes.
pub data Step (s u : Shared) (given taken : List ℕ) : Type 0 where
  reads :
      (buffer : List ℕ) (len write_old write_new : ℕ) (r : Ring)
      → 0 < len
      → len ≤ length buffer
      → reserve s.ring len ≡ some (write_old, write_new, r)
      → u ≡ record s {
        loads =
            record {
              write_old = write_old;
              write_new = write_new;
              buffer = buffer;
              len = len;
              at = s.reserved;
            }
            ∷ s.loads;
      }
      → given ≡ []
      → taken ≡ []
      → Step s u given taken
  wins :
      (before after : List Load) (l : Load) (r : Ring)
      → s.loads ≡ before ++ (l ∷ after)
      → win s.ring l.write_old l.write_new ≡ some r
      → u ≡ record {
        ring = r;
        tickets = s.tickets ++ (ticket_of l ∷ []);
        loads = before ++ after;
        reserved = suc s.reserved;
      }
      → given ≡ take l.len l.buffer
      → taken ≡ []
      → Step s u given taken
  retries :
      (before after : List Load) (l : Load)
      → s.loads ≡ before ++ (l ∷ after)
      → win s.ring l.write_old l.write_new ≡ none
      → u ≡ record s { loads = before ++ after }
      → given ≡ []
      → taken ≡ []
      → Step s u given taken
  copies :
      (before after : List Ticket) (t : Ticket)
      → s.tickets ≡ before ++ (t ∷ after)
      → t.copied ≡ false
      → u ≡ record s {
        ring = copy_in s.ring t.write_old t.buffer t.len;
        tickets = before ++ (record t { copied = true } ∷ after);
      }
      → given ≡ []
      → taken ≡ []
      → Step s u given taken
  publishes :
      (before after : List Ticket) (t : Ticket) (r : Ring)
      → s.tickets ≡ before ++ (t ∷ after)
      → t.copied ≡ true
      → publish s.ring t.write_old t.write_new ≡ some r
      → u ≡ record s { ring = r; tickets = before ++ after }
      → given ≡ []
      → taken ≡ []
      → Step s u given taken
  gets :
      (len : ℕ)
      → u ≡ record s { ring = (get s.ring len).2 }
      → given ≡ []
      → taken ≡ (get s.ring len).1
      → Step s u given taken
