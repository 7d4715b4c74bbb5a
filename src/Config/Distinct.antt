-- ===== src/Config/Distinct.antt =====
-- Every mapping that is kept is valid, and no two are for one queue.
use pkt_sender.Prelude.{
  ℕ, ◌≤◌, ◌≡◌, refl, ◌∙◌, inl, inr, Bool, true, false, not, ◌&&◌, ◌||◌, List, [], ◌∷◌, ◌++◌, arith,
  ◌==◌, length, take, Bool-cases,
}
use pkt_sender.Config.Defs.{LcoreParams, Machine, is_valid, same_queue, check_loop}
use pkt_sender.Config.Kept.{clashes, keep, kept, Compacts, check_loop-Compacts}

abbrev pub AreValid : Machine → List LcoreParams → Type 0
AreValid m [] = Unit
AreValid m (p ∷ params) = (is_valid m p ≡ true) × AreValid m params

abbrev pub AreApart : List LcoreParams → Type 0
AreApart [] = Unit
AreApart (p ∷ params) = (clashes p params ≡ false) × AreApart params

==-sym : (a b : ℕ) → (a == b) ≡ (b == a)
==-sym a b = ground arith

same_queue-sym : (p q : LcoreParams) → same_queue p q ≡ same_queue q p
unfolding same_queue
same_queue-sym p q = rw (==-sym p.port_id q.port_id, ==-sym p.job q.job) refl

AreValid-append :
    (m : Machine) (acc : List LcoreParams) (p : LcoreParams)
    → AreValid m acc
    → is_valid m p ≡ true
    → AreValid m (acc ++ (p ∷ []))
AreValid-append m [] p v e = (e, tt)
AreValid-append m (q ∷ acc) p v e = (v.0, AreValid-append m acc p v.1 e)

or-false : (a b : Bool) → (a || b) ≡ false → (a ≡ false) × (b ≡ false)
or-false true b e = cc
or-false false b e = (refl, e)

and-not : (a b : Bool) → (a && not b) ≡ true → (a ≡ true) × (b ≡ false)
and-not false b e = cc
and-not true true e = cc
and-not true false e = (refl, refl)

clashes-append :
    (q p : LcoreParams) (acc : List LcoreParams)
    → clashes q acc ≡ false
    → same_queue q p ≡ false
    → clashes q (acc ++ (p ∷ [])) ≡ false
unfolding clashes
clashes-append q p [] c e = rw e refl
clashes-append q p (r ∷ acc) c e =
    let (differs, later) = or-false (same_queue q r) (clashes q acc) c in
    rw differs (clashes-append q p acc later e)

AreApart-append :
    (acc : List LcoreParams) (p : LcoreParams)
    → AreApart acc
    → clashes p acc ≡ false
    → AreApart (acc ++ (p ∷ []))
unfolding clashes
AreApart-append [] p a c = (refl, tt)
AreApart-append (q ∷ acc) p a c =
    let (differs, later) = or-false (same_queue p q) (clashes p acc) c in
    (clashes-append q p acc a.0 (same_queue-sym q p ∙ differs), AreApart-append acc p a.1 later)

module _ (m : Machine) where
  kept-good :
      (acc params : List LcoreParams)
      → AreValid m acc
      → AreApart acc
      → AreValid m (kept m acc params) × AreApart (kept m acc params)
  unfolding kept keep
  kept-good acc [] v a = (v, a)
  kept-good acc (p ∷ params) v a = elim (Bool-cases (is_valid m p && not (clashes p acc))) [
    | inr e ↦ rw e (kept-good acc params v a)
    | inl e ↦
        let (ok, free) = and-not (is_valid m p) (clashes p acc) e in
        rw e (
          kept-good (acc ++ (p ∷ [])) params (AreValid-append m acc p v ok)
            (AreApart-append acc p a free))
  ]

-- After the loop of `__check_mapping` over up to as many mappings as the array has, those in
-- front are valid, and no two are for one port and job.
pub check_loop-apart :
    (m : Machine) (params : List LcoreParams) (nb : ℕ)
    → nb ≤ length params
    → let (params', real_cnt) = check_loop m nb 0 params 0 in
      AreValid m (take real_cnt params') × AreApart (take real_cnt params')
check_loop-apart m params nb h = rw done.entries (kept-good m [] (take nb params) tt tt)
  where
    done : Compacts m nb 0 0 params (check_loop m nb 0 params 0)
    done = check_loop-Compacts m nb 0 0 params (omega arith) (omega arith)
