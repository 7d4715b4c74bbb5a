-- ===== src/Ring/Kept.antt =====
-- What a step of a writer or of the reader of a shared ring keeps, where no compare-and-swap succeeds
-- with positions that are out of date.
use pkt_sender.Prelude.{
  ℕ, suc, ◌≤◌, ◌<◌, arith, length, ◌≡◌, refl, sym, ap, subst, ◌∙◌, true, List, [], ◌∷◌, ◌++◌, some,
  take, take-append-drop,
}
use mathlib.Core.List.{append-nil, append_assoc}
use pkt_sender.Ring.Defs.{Ring, copy_in, win, publish, get}
use pkt_sender.Ring.Valid.{contents}
use pkt_sender.Ring.Shared.{
  Ticket, Load, ticket_of, Shared, block, blocks, Step, reads, wins, retries, copies, publishes,
  gets,
}
use pkt_sender.Ring.Loads.{
  ArePending, ArePending-at, ArePending-without, ArePending-kept, ArePending-stale,
}
use pkt_sender.Ring.Steps.{
  IsShared, Reserved, reserve-Reserved, reserved-IsShared, copied-IsShared, copied-contents,
  published-first,
}
use pkt_sender.Ring.Interleaved.{
  n, got_bytes, got_ring, moved-contents, moved-IsShared, moved-total, win-some, published-IsShared,
  published-contents, publish-some, blocks-append,
}

-- All that is in the ring for the reader, now or once the writers are through.
abbrev pub pending : Shared → List ℕ
pending s = contents s.ring ++ blocks s.tickets

-- The compare-and-swap of a writer compares positions, and succeeds also where `write_pos` has come
-- back to what it was. A step is fresh if there was no reservation since the writer read.
abbrev pub IsFresh : {s u : Shared} {given taken : List ℕ} → Step s u given taken → Type 0
IsFresh {s} (wins before after l r line e state f g) = l.at ≡ s.reserved
IsFresh (reads buffer len old new r pos le e state f g) = Unit
IsFresh (retries before after l line e state f g) = Unit
IsFresh (copies before after t line new state f g) = Unit
IsFresh (publishes before after t r line copied e state f g) = Unit
IsFresh (gets len state f g) = Unit

-- What a step keeps: the ring is in order, and the bytes go through it like through a queue.
pub record Kept (k : ℕ) (s u : Shared) (given taken : List ℕ) : Type 0 where
  pub is_shared : IsShared k u.ring u.tickets
  pub are_pending : ArePending u.ring u.reserved u.loads
  pub in_order : taken ++ pending u ≡ pending s ++ given

module _ (k : ℕ) (s : Shared) (v : IsShared k s.ring s.tickets)
    (w : ArePending s.ring s.reserved s.loads) where
  -- The same as `Kept`, for a state that is given by its parts.
  from_parts :
      (u u' : Shared) (given taken given' taken' : List ℕ)
      → u ≡ u'
      → given ≡ given'
      → taken ≡ taken'
      → Kept k s u' given' taken'
      → Kept k s u given taken
  from_parts u u' given taken given' taken' e f g kept = rw (e, f, g) kept

  reads-Kept :
      (buffer : List ℕ) (len write_old write_new : ℕ) (r : Ring)
      → 0 < len
      → len ≤ length buffer
      → Reserved s.ring len (write_old, write_new, r)
      → Kept k s
          (record s {
            loads =
                record {
                  write_old = write_old;
                  write_new = write_new;
                  buffer = buffer;
                  len = len;
                  at = s.reserved;
                }
                ∷ s.loads;
          })
          []
          []
  reads-Kept buffer len write_old write_new r pos le done = record {
    is_shared = v;
    are_pending = (
      record {
        not_later = omega arith;
        some_bytes = pos;
        given = le;
        holds = λ e. (done.old, done.new, done.room);
      },
      w,
    );
    in_order = sym (append-nil _);
  }

  wins-Kept :
      (before after : List Load) (l : Load) (r : Ring)
      → s.loads ≡ before ++ (l ∷ after)
      → win s.ring l.write_old l.write_new ≡ some r
      → l.at ≡ s.reserved
      → Kept k s
          (record {
            ring = r;
            tickets = s.tickets ++ (ticket_of l ∷ []);
            loads = before ++ after;
            reserved = suc s.reserved;
          })
          (take l.len l.buffer)
          []
  wins-Kept before after l r line e fresh =
      let (_, done) = win-some s.ring r l.write_old l.write_new e in
      let w' = subst (λ (ls : List Load). ArePending s.ring s.reserved ls) line w in
      let p = ArePending-at s.ring s.reserved before after l w' in
      let (old, new, room) = p.holds fresh in
      record {
        is_shared =
            rw (done, old, new)
              (reserved-IsShared k s.ring s.tickets v l.len l.buffer p.some_bytes p.given room);
        are_pending =
            ArePending-stale s.ring r s.reserved (before ++ after)
              (ArePending-without s.ring s.reserved before after l w');
        in_order = rw done (
            ap (λ (bs : List ℕ). contents s.ring ++ bs)
              (blocks-append s.tickets _
                ∙ ap (λ (bs : List ℕ). blocks s.tickets ++ bs) (append-nil (take l.len l.buffer)))
            ∙ sym (append_assoc (contents s.ring) (blocks s.tickets) (take l.len l.buffer)));
      }

  retries-Kept :
      (before after : List Load) (l : Load)
      → s.loads ≡ before ++ (l ∷ after)
      → Kept k s (record s { loads = before ++ after }) [] []
  retries-Kept before after l line = record {
    is_shared = v;
    are_pending =
        ArePending-without s.ring s.reserved before after l
          (subst (λ (ls : List Load). ArePending s.ring s.reserved ls) line w);
    in_order = sym (append-nil _);
  }

  copy_in-ArePending :
      (t : Ticket) → ArePending (copy_in s.ring t.write_old t.buffer t.len) s.reserved s.loads
  unfolding copy_in
  copy_in-ArePending t = ArePending-kept s.ring _ s.reserved s.loads refl refl (omega arith) w

  copies-Kept :
      (before after : List Ticket) (t : Ticket)
      → s.tickets ≡ before ++ (t ∷ after)
      → Kept k s
          (record s {
            ring = copy_in s.ring t.write_old t.buffer t.len;
            tickets = before ++ (record t { copied = true } ∷ after);
          })
          []
          []
  copies-Kept before after t line = record {
    is_shared = copied-IsShared k s.ring s.tickets v before after t line;
    are_pending = copy_in-ArePending t;
    in_order =
        rw (copied-contents k s.ring s.tickets v before after t line, line)
          (ap (λ (bs : List ℕ). contents s.ring ++ bs)
              (blocks-append before _ ∙ sym (blocks-append before (t ∷ after)))
            ∙ sym (append-nil _));
  }

  publishes-Kept :
      (before after : List Ticket) (t : Ticket) (r : Ring)
      → s.tickets ≡ before ++ (t ∷ after)
      → t.copied ≡ true
      → publish s.ring t.write_old t.write_new ≡ some r
      → Kept k s (record s { ring = r; tickets = before ++ after }) [] []
  publishes-Kept before after t r line copied e =
      let (finish, done) = publish-some s.ring r t.write_old t.write_new e in
      let (first, _) = published-first k s.ring s.tickets v before after t line (sym finish) in
      let head : s.tickets ≡ t ∷ after =
        line ∙ ap (λ (ts : List Ticket). ts ++ (t ∷ after)) first in
      let v' = subst (λ (ts : List Ticket). IsShared k s.ring ts) head v in
      rw (done, first, head)
        (record {
          is_shared = published-IsShared k s.ring t after v';
          are_pending = ArePending-kept s.ring _ s.reserved s.loads refl refl (omega arith) w;
          in_order =
              ap (λ (bs : List ℕ). bs ++ blocks after)
                (published-contents k s.ring t after v' copied)
              ∙ append_assoc (contents s.ring) (block t) (blocks after)
              ∙ sym (append-nil _);
        })

  gets-Kept : (len : ℕ) → Kept k s (record s { ring = (get s.ring len).2 }) [] (get s.ring len).1
  gets-Kept len =
      rw (got_ring k s.ring s.tickets v len, got_bytes k s.ring s.tickets v len)
        (record {
          is_shared = moved-IsShared k s.ring s.tickets v len;
          are_pending =
              ArePending-kept s.ring _ s.reserved s.loads refl refl
                (moved-total k s.ring s.tickets v len) w;
          in_order =
              ap
                (λ (bs : List ℕ).
                  take (n k s.ring s.tickets v len) (contents s.ring) ++ (bs ++ blocks s.tickets))
                (moved-contents k s.ring s.tickets v len)
              ∙ sym (
                  append_assoc (take (n k s.ring s.tickets v len) (contents s.ring)) _
                    (blocks s.tickets))
              ∙ ap (λ (bs : List ℕ). bs ++ blocks s.tickets) (take-append-drop _ _)
              ∙ sym (append-nil _);
        })

  pub step-Kept :
      (u : Shared) (given taken : List ℕ) (step : Step s u given taken)
      → IsFresh step
      → Kept k s u given taken
  step-Kept u given taken (reads buffer len old new r pos le e state f g) fresh =
      from_parts u _ given taken _ _ state f g (
        reads-Kept buffer len old new r pos le
          (reserve-Reserved k s.ring s.tickets v len (old, new, r) e))
  step-Kept u given taken (wins before after l r line e state f g) fresh =
      from_parts u _ given taken _ _ state f g (wins-Kept before after l r line e fresh)
  step-Kept u given taken (retries before after l line e state f g) fresh =
      from_parts u _ given taken _ _ state f g (retries-Kept before after l line)
  step-Kept u given taken (copies before after t line new state f g) fresh =
      from_parts u _ given taken _ _ state f g (copies-Kept before after t line)
  step-Kept u given taken (publishes before after t r line copied e state f g) fresh =
      from_parts u _ given taken _ _ state f g (publishes-Kept before after t r line copied e)
  step-Kept u given taken (gets len state f g) fresh =
      from_parts u _ given taken _ _ state f g (gets-Kept len)
