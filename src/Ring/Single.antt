-- ===== src/Ring/Single.antt =====
-- One writer and one reader, for which the comment above `ringbuffer_put` asks for no lock: what the
-- writer has read is never out of date.
use pkt_sender.Prelude.{ℕ, ◌≡◌, refl, sym, ap, ◌∙◌, inl, inr, ◌⊎◌, List, [], ◌∷◌, ◌++◌}
use pkt_sender.Ring.Defs.{Ring}
use pkt_sender.Ring.Valid.{IsValid, contents}
use pkt_sender.Ring.Shared.{
  Load, Shared, blocks, Step, reads, wins, retries, copies, publishes, gets,
}
use pkt_sender.Ring.Kept.{IsFresh}
use pkt_sender.Ring.Runs.{Runs, stays, goes_on, AreFresh, at_rest, runs-pending}

-- A writer reads the positions only when no writer is between its reading and its publication.
abbrev pub IsSingle : {s u : Shared} {given taken : List ℕ} → Step s u given taken → Type 0
IsSingle {s} (reads buffer len old new r pos le e state f g) = (s.loads ≡ []) × (s.tickets ≡ [])
IsSingle (wins before after l r line e state f g) = Unit
IsSingle (retries before after l line e state f g) = Unit
IsSingle (copies before after t line new state f g) = Unit
IsSingle (publishes before after t r line copied e state f g) = Unit
IsSingle (gets len state f g) = Unit

abbrev pub AreSingle : {s u : Shared} {given taken : List ℕ} → Runs s given taken u → Type 0
AreSingle (stays _) = Unit
AreSingle (goes_on _ _ _ _ _ _ _ step run) = IsSingle step × AreSingle run

-- At most one writer has read, and there was no reservation since.
abbrev UpToDate : Shared → Type 0
UpToDate s = (s.loads ≡ []) ⊎ ((l : Load) × (s.loads ≡ l ∷ []) × (l.at ≡ s.reserved))

not_empty : (before after : List Load) (l : Load) → [] ≡ before ++ (l ∷ after) → ⊥
not_empty [] after l e = cc
not_empty (b ∷ before) after l e = cc

only_one :
    (before after : List Load) (l l' : Load)
    → l' ∷ [] ≡ before ++ (l ∷ after)
    → (l' ≡ l) × (before ++ after ≡ [])
only_one [] after l l' e = (cc, cc)
only_one (b ∷ before) after l l' e = absurd (not_empty before after l cc)

-- The writer that tries its compare-and-swap is the one that has read.
the_writer :
    (s : Shared) (before after : List Load) (l : Load)
    → UpToDate s
    → s.loads ≡ before ++ (l ∷ after)
    → (l.at ≡ s.reserved) × (before ++ after ≡ [])
the_writer s before after l (inl none_read) line =
    absurd (not_empty before after l (sym none_read ∙ line))
the_writer s before after l (inr (l', one, fresh)) line =
    let (same, rest) = only_one before after l l' (sym one ∙ line) in
    (ap (λ (x : Load). x.at) (sym same) ∙ fresh, rest)

step-UpToDate :
    (s u : Shared) (given taken : List ℕ) (step : Step s u given taken)
    → UpToDate s
    → IsSingle step
    → IsFresh step × UpToDate u
step-UpToDate s u given taken (reads buffer len old new r pos le e state f g) v single =
    (tt, rw (state, single.0) (inr (_, refl, refl)))
step-UpToDate s u given taken (wins before after l r line e state f g) v single =
    let (fresh, rest) = the_writer s before after l v line in (fresh, rw state (inl rest))
step-UpToDate s u given taken (retries before after l line e state f g) v single =
    let (fresh, rest) = the_writer s before after l v line in (tt, rw state (inl rest))
step-UpToDate s u given taken (copies before after t line new state f g) v single = (tt, rw state v)
step-UpToDate s u given taken (publishes before after t r line copied e state f g) v single =
    (tt, rw state v)
step-UpToDate s u given taken (gets len state f g) v single = (tt, rw state v)

runs-AreFresh :
    (s u : Shared) (given taken : List ℕ) (run : Runs s given taken u)
    → UpToDate s
    → AreSingle run
    → AreFresh run
runs-AreFresh s u given taken (stays _) v single = tt
runs-AreFresh s u given taken (goes_on _ t _ g1 t1 g2 t2 step run) v single =
    let (fresh, v') = step-UpToDate s t g1 t1 step v single.0 in
    (fresh, runs-AreFresh t u g2 t2 run v' single.1)

-- From a valid ring at rest, in any order of the steps of one reader and of writers of which one
-- reads the positions only when no other is between its reading and its publication: the bytes
-- that the reader has taken, those that it can take and the block that is reserved and not
-- published are together the bytes of the ring before and the blocks in the order of their
-- reservations.
pub single-pending :
    {k : ℕ} {r : Ring} (u : Shared) (given taken : List ℕ)
    → IsValid k r
    → (run : Runs (at_rest r) given taken u) → AreSingle run
    → taken ++ (contents u.ring ++ blocks u.tickets) ≡ contents r ++ given
single-pending {k} {r} u given taken v run single =
    runs-pending u given taken v run (runs-AreFresh (at_rest r) u given taken run (inl refl) single)
