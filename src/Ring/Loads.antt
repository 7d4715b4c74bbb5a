-- ===== src/Ring/Loads.antt =====
-- The writers of a shared ring that have read its positions: what they found holds until another
-- writer reserves.
use pkt_sender.Prelude.{
  ℕ, suc, ◌+◌, ◌≤◌, ◌<◌, ◌≡◌, sym, subst, ◌∙◌, List, [], ◌∷◌, ◌++◌, length, arith,
}
use pkt_sender.Ring.Defs.{Ring}
use pkt_sender.Ring.Window.{wrap}
use pkt_sender.Ring.Steps.{total}
use pkt_sender.Ring.Shared.{Load}

-- A writer that has read, in a ring with so many reservations so far.
pub record IsPending (r : Ring) (reserved : ℕ) (l : Load) : Type 0 where
  pub not_later : l.at ≤ reserved
  pub some_bytes : 0 < l.len
  pub given : l.len ≤ length l.buffer
  pub holds :
      l.at ≡ reserved
      → (l.write_old ≡ r.write_pos)
        × (l.write_new ≡ wrap r.data_size (r.write_pos + l.len))
        × (total r + l.len < r.data_size)

abbrev pub ArePending : Ring → ℕ → List Load → Type 0
ArePending r reserved [] = Unit
ArePending r reserved (l ∷ ls) = IsPending r reserved l × ArePending r reserved ls

pub ArePending-map :
    (r r' : Ring) (n n' : ℕ) (ls : List Load)
    → ((l : Load) → IsPending r n l → IsPending r' n' l)
    → ArePending r n ls
    → ArePending r' n' ls
ArePending-map r r' n n' [] f a = a
ArePending-map r r' n n' (l ∷ ls) f a = (f l a.0, ArePending-map r r' n n' ls f a.1)

pub ArePending-at :
    (r : Ring) (n : ℕ) (before after : List Load) (l : Load)
    → ArePending r n (before ++ (l ∷ after))
    → IsPending r n l
ArePending-at r n [] after l a = a.0
ArePending-at r n (b ∷ before) after l a = ArePending-at r n before after l a.1

pub ArePending-without :
    (r : Ring) (n : ℕ) (before after : List Load) (l : Load)
    → ArePending r n (before ++ (l ∷ after))
    → ArePending r n (before ++ after)
ArePending-without r n [] after l a = a.1
ArePending-without r n (b ∷ before) after l a = (a.0, ArePending-without r n before after l a.1)

-- A step that moves no `write_pos` and takes no room away.
pub ArePending-kept :
    (r r' : Ring) (n : ℕ) (ls : List Load)
    → r'.data_size ≡ r.data_size
    → r'.write_pos ≡ r.write_pos
    → total r' ≤ total r
    → ArePending r n ls
    → ArePending r' n ls
ArePending-kept r r' n ls size write less a =
    ArePending-map r r' n n ls
      (λ l p. record {
        not_later = p.not_later;
        some_bytes = p.some_bytes;
        given = p.given;
        holds = λ e.
            let (old, new, room) = p.holds e in
            (
              old ∙ sym write,
              rw (size, write) new,
              subst (λ (m : ℕ). total r' + l.len < m) (sym size) (omega (arith, room, less)),
            );
      })
      a

-- After a reservation, all that the others read is out of date.
pub ArePending-stale :
    (r r' : Ring) (n : ℕ) (ls : List Load) → ArePending r n ls → ArePending r' (suc n) ls
ArePending-stale r r' n ls a =
    ArePending-map r r' n (suc n) ls
      (λ l p. record {
        not_later = omega (arith, p.not_later);
        some_bytes = p.some_bytes;
        given = p.given;
        holds = λ e. absurd (omega (arith, p.not_later, e));
      })
      a
