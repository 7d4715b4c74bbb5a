-- ===== src/Transmitter/Unrolled.antt =====
-- The unrolled loop of `__pktmbuf_alloc_bulk` does what the plain loop does.
use pkt_sender.Prelude.{
  ℕ, zero, suc, ◌+◌, ◌*◌, ◌/◌, ◌%◌, ◌<◌, ◌≡◌, refl, sym, ◌∙◌, true, false, Option, none, some,
  arith, ◌==◌,
}
use pkt_sender.Transmitter.Defs.{Mbufs, init_mbuf, then_do, bodies, unrolled, duff}

module _ (headroom : ℕ) where
  then_do_assoc :
      (o : Option Mbufs) (f g : Mbufs → Option Mbufs)
      → then_do (then_do o f) g ≡ then_do o (λ m. then_do (f m) g)
  unfolding then_do
  then_do_assoc none f g = refl
  then_do_assoc (some m) f g = refl

  then_do-same :
      (o : Option Mbufs) (f g : Mbufs → Option Mbufs)
      → ((m : Mbufs) → f m ≡ g m)
      → then_do o f ≡ then_do o g
  unfolding then_do
  then_do-same none f g h = refl
  then_do-same (some m) f g h = h m

  bodies_none : (i : ℕ) (m : Mbufs) → bodies headroom 0 i m ≡ some m
  unfolding bodies
  bodies_none i m = refl

  bodies-eq :
      (n k i j : ℕ) (m : Mbufs) → n ≡ k → i ≡ j → bodies headroom n i m ≡ bodies headroom k j m
  bodies-eq n k i j m e f = rw (e, f) refl

  -- The first copies, and then the others.
  bodies-add :
      (n k idx j total : ℕ) (m : Mbufs)
      → j ≡ idx + n
      → total ≡ n + k
      → then_do (bodies headroom n idx m) (λ x. bodies headroom k j x) ≡ bodies headroom total idx m
  unfolding bodies then_do
  bodies-add zero k idx j total m e f = bodies-eq k total j idx m (omega arith) (omega arith)
  bodies-add (suc n) k idx j zero m e f = absurd (omega arith)
  bodies-add (suc n) k idx j (suc total) m e f =
      then_do_assoc (init_mbuf headroom idx m) _ _
      ∙ then_do-same (init_mbuf headroom idx m) _ _
          (λ x. bodies-add n k (suc idx) j total x (omega arith) (omega arith))

  unrolled-bodies :
      (fuel rounds count idx left : ℕ) (m : Mbufs)
      → count ≡ idx + left
      → left ≡ 4 * rounds
      → rounds < fuel
      → unrolled headroom fuel count idx m ≡ bodies headroom left idx m
  unfolding unrolled
  unrolled-bodies zero rounds count idx left m c e lt = absurd (omega arith)
  unrolled-bodies (suc fuel) zero count idx left m c e lt =
      let here : (idx == count) ≡ true = ground arith in
      rw here (sym (bodies-eq left 0 idx idx m (omega arith) refl ∙ bodies_none idx m))
  unrolled-bodies (suc fuel) (suc rounds) count idx left m c e lt =
      let further : (idx == count) ≡ false = ground arith in
      rw further (
        then_do-same (bodies headroom 4 idx m) _ _ (λ x.
          unrolled-bodies fuel rounds count (idx + 4) (4 * rounds) x (omega arith) refl
            (omega arith))
        ∙ bodies-add 4 (4 * rounds) idx (idx + 4) left m refl (omega arith))

-- For any count, the loop of `__pktmbuf_alloc_bulk`, entered in the middle, initialises the mbufs
-- 0 to `count` - 1, each once and in this order, or panics where one of them is in use, as a
-- plain loop over them does.
pub duff-bodies :
    (headroom count : ℕ) (m : Mbufs) → duff headroom count m ≡ bodies headroom count 0 m
unfolding duff
duff-bodies headroom count m =
    then_do-same headroom (bodies headroom (count % 4) 0 m) _ _ (λ x.
      unrolled-bodies headroom (suc (count / 4)) (count / 4) count (count % 4) (4 * (count / 4)) x
        (omega arith) refl (omega arith))
    ∙ bodies-add headroom (count % 4) (4 * (count / 4)) 0 (count % 4) count m (omega arith)
        (omega arith)
