-- ===== src/Cuckoo/Moves.antt =====
-- What a call of `make_space_bucket` keeps: each entry, in one of its two buckets, but for the place
-- that it makes free.
use pkt_sender.Prelude.{
  ℕ, ◌/◌, ◌≡◌, ◌≢◌, refl, sym, ap, subst, ◌∙◌, true, false, arith, ◌==◌, bit_and, ℕ_discrete,
}
use pkt_sender.Cuckoo.Defs.{Entry, Buckets, is_null, update}
use pkt_sender.Cuckoo.Space.{next_bucket, push_entry}

-- The entry `p` is in use, and is not the place that is free.
abbrev pub Live : Buckets → ℕ → ℕ → Type 0
Live s hole p = (is_null (s.entry p) ≡ false) × (p ≢ hole)

-- An entry is in the bucket that its current signature gives, its two signatures are the two of
-- its key, in one order or the other, and no two entries are for one key. `IsPair` says the second,
-- and `IsSame` says of two indexes of keys that the keys are one.
pub record Placed (m : ℕ) (IsPair : ℕ → ℕ → ℕ → Type 0) (IsSame : ℕ → ℕ → Type 0) (s : Buckets)
    (hole : ℕ) : Type 0 where
  pub located : (p : ℕ) → Live s hole p → p / 4 ≡ bit_and (s.entry p).current m
  pub paired :
      (p : ℕ) → Live s hole p → IsPair (s.entry p).key_idx (s.entry p).current (s.entry p).alt
  pub apart :
      (p q : ℕ)
      → Live s hole p
      → Live s hole q
      → IsSame (s.entry p).key_idx (s.entry q).key_idx
      → p ≡ q

-- The same keys are in use in both.
pub record Keeps (s s' : Buckets) (hole : ℕ) : Type 0 where
  pub there :
      (p : ℕ)
      → is_null (s.entry p) ≡ false
      → (q : ℕ) × Live s' hole q × ((s'.entry q).key_idx ≡ (s.entry p).key_idx)
  pub back :
      (q : ℕ)
      → Live s' hole q
      → (p : ℕ) × (is_null (s.entry p) ≡ false) × ((s'.entry q).key_idx ≡ (s.entry p).key_idx)

pub update_self {ℓ} : {A : Type ℓ} (f : ℕ → A) (p : ℕ) (x : A) → update f p x p ≡ x
update_self f p x = let e : (p == p) ≡ true = ground arith in rw e refl

pub update-ne {ℓ} : {A : Type ℓ} (f : ℕ → A) (p q : ℕ) (x : A) → q ≢ p → update f p x q ≡ f q
update-ne f p q x ne = let e : (q == p) ≡ false = ground arith in rw e refl

-- A null entry with its signatures exchanged.
abbrev swap : Entry → Entry
swap e = record { current = e.alt; alt = e.current; key_idx = e.key_idx }

is_null-swap : (e : Entry) → is_null e ≡ false → is_null (swap e) ≡ false
unfolding is_null
is_null-swap e h = ground arith

module _ (m : ℕ) (IsPair : ℕ → ℕ → ℕ → Type 0) (IsSame : ℕ → ℕ → Type 0)
    (flip : (i c a : ℕ) → IsPair i c a → IsPair i a c) where
  module _ (s : Buckets) (p q : ℕ) (placed : Placed m IsPair IsSame s q) (live : Live s q p)
      (at : q / 4 ≡ next_bucket m s p) where
    abbrev s' : Buckets
    s' = push_entry s p q

    at_q : s'.entry q ≡ swap (s.entry p)
    unfolding push_entry
    at_q = update_self s.entry q (swap (s.entry p))

    other : (x : ℕ) → x ≢ q → s'.entry x ≡ s.entry x
    unfolding push_entry
    other x ne = update-ne s.entry q x (swap (s.entry p)) ne

    same_idx : (s'.entry q).key_idx ≡ (s.entry p).key_idx
    same_idx = ap (λ (e : Entry). e.key_idx) at_q

    -- A live entry that is not at `q` was live, and did not move.
    stayed : (x : ℕ) → x ≢ q → Live s' p x → Live s q x
    stayed x ne l = (subst (λ (e : Entry). is_null e ≡ false) (other x ne) l.0, ne)

    q-Live : Live s' p q
    q-Live = (rw at_q (is_null-swap (s.entry p) live.0), λ e. live.1 (sym e))

    pub push-Placed : Placed m IsPair IsSame s' p
    unfolding next_bucket
    push-Placed = record {
      located = λ x l. elim (ℕ_discrete x q) [
        | yes same ↦
            subst (λ (y : ℕ). y / 4 ≡ bit_and (s'.entry y).current m) (sym same) (rw at_q at)
        | no ne ↦ rw (other x ne) (placed.located x (stayed x ne l))
      ];
      paired = λ x l. elim (ℕ_discrete x q) [
        | yes same ↦
            subst (λ (y : ℕ). IsPair (s'.entry y).key_idx (s'.entry y).current (s'.entry y).alt)
              (sym same) (rw at_q (flip _ _ _ (placed.paired p live)))
        | no ne ↦ rw (other x ne) (placed.paired x (stayed x ne l))
      ];
      apart = λ x y lx ly same. elim (ℕ_discrete x q) [
        | yes ex ↦ elim (ℕ_discrete y q) [
          | yes ey ↦ ex ∙ sym ey
          | no ney ↦ absurd (
              ly.1 (
                sym (
                  placed.apart p y live (stayed y ney ly) (
                    subst (λ (i : ℕ). IsSame i (s.entry y).key_idx)
                      (ap (λ (z : ℕ). (s'.entry z).key_idx) ex ∙ same_idx)
                      (subst (λ (e : Entry). IsSame (s'.entry x).key_idx e.key_idx) (other y ney)
                        same)))))
        ]
        | no nex ↦ elim (ℕ_discrete y q) [
          | yes ey ↦ absurd (
              lx.1 (
                placed.apart x p (stayed x nex lx) live (
                  subst (λ (i : ℕ). IsSame (s.entry x).key_idx i)
                    (ap (λ (z : ℕ). (s'.entry z).key_idx) ey ∙ same_idx)
                    (subst (λ (e : Entry). IsSame e.key_idx (s'.entry y).key_idx) (other x nex)
                      same))))
          | no ney ↦ placed.apart x y (stayed x nex lx) (stayed y ney ly) (
              subst (λ (e : Entry). IsSame e.key_idx (s.entry y).key_idx) (other x nex)
                (subst (λ (e : Entry). IsSame (s'.entry x).key_idx e.key_idx) (other y ney) same))
        ]
      ];
    }

    pub push-Keeps : (s0 : Buckets) → Keeps s0 s q → Keeps s0 s' p
    push-Keeps s0 k = record {
      there = λ x n.
          let (y, l, e) = k.there x n in
          elim (ℕ_discrete y p) [
            | yes same ↦ (q, q-Live, same_idx ∙ sym (ap (λ (z : ℕ). (s.entry z).key_idx) same) ∙ e)
            | no ne ↦ (
              y,
              (subst (λ (e : Entry). is_null e ≡ false) (sym (other y l.1)) l.0, ne),
              ap (λ (e : Entry). e.key_idx) (other y l.1) ∙ e,
            )
          ];
      back = λ y l. elim (ℕ_discrete y q) [
        | yes same ↦
            let (x, n, e) = k.back p live in
            (x, n, ap (λ (z : ℕ). (s'.entry z).key_idx) same ∙ same_idx ∙ e)
        | no ne ↦
            let (x, n, e) = k.back y (stayed y ne l) in
            (x, n, ap (λ (e : Entry). e.key_idx) (other y ne) ∙ e)
      ];
    }

-- Entries that are left as they were, where others are cleared, are still in place.
pub Placed-fewer :
    (m : ℕ) (IsPair : ℕ → ℕ → ℕ → Type 0) (IsSame : ℕ → ℕ → Type 0) (s s' : Buckets)
    (hole hole' : ℕ)
    → ((x : ℕ) → Live s' hole' x → Live s hole x × (s'.entry x ≡ s.entry x))
    → Placed m IsPair IsSame s hole
    → Placed m IsPair IsSame s' hole'
Placed-fewer m IsPair IsSame s s' hole hole' same v = record {
  located = λ x l. rw (same x l).1 (v.located x (same x l).0);
  paired = λ x l. rw (same x l).1 (v.paired x (same x l).0);
  apart = λ x y lx ly e. v.apart x y (same x lx).0 (same y ly).0 (
      subst (λ (a : Entry). IsSame a.key_idx (s.entry y).key_idx) (same x lx).1
        (subst (λ (a : Entry). IsSame (s'.entry x).key_idx a.key_idx) (same y ly).1 e));
}
