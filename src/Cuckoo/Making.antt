-- ===== src/Cuckoo/Making.antt =====
-- What `make_space_bucket` of tools/cuckoohash.c leaves, whether it makes room or not.
use pkt_sender.Prelude.{
  ℕ, zero, suc, ◌*◌, ◌/◌, ◌≡◌, ◌≢◌, refl, sym, ap, subst, ◌∙◌, true, false, Option, none, some,
  arith, ◌==◌, bit_and, ℕ_discrete,
}
use pkt_sender.Cuckoo.Defs.{Entry, Buckets, is_null, update, first_in}
use pkt_sender.Cuckoo.Space.{
  next_bucket, set_flag, push_entry, find_spare, after_push, make_space_body, make_space_bucket,
}
use pkt_sender.Cuckoo.Search.{IsFull, Spares, FindsIn, find_spare-Spares, first_in-FindsIn}
use pkt_sender.Cuckoo.Moves.{Live, Placed, Keeps, update_self, update-ne, push-Placed, push-Keeps}

-- The bucket is full, and so are the alternative buckets of its entries.
abbrev pub IsJammed : ℕ → Buckets → ℕ → Type 0
IsJammed m s b = (q : ℕ) → q / 4 ≡ b → (is_null (s.entry q) ≡ false) × IsFull s (next_bucket m s q)

-- The entries that calls above are about to push stay where they are, whatever room is made.
abbrev pub IsSafe : ℕ → Buckets → Type 0
IsSafe m s = (x : ℕ) → s.flag x ≢ 0 → IsJammed m s (x / 4)

-- Nothing is changed.
pub record Same (s s' : Buckets) : Type 0 where
  pub entries : (p : ℕ) → s'.entry p ≡ s.entry p
  pub flags : (p : ℕ) → s'.flag p ≡ s.flag p

module _ (m : ℕ) (IsPair : ℕ → ℕ → ℕ → Type 0) (IsSame : ℕ → ℕ → Type 0)
    (flip : (i c a : ℕ) → IsPair i c a → IsPair i a c) where
  -- The place `p` of bucket `b` is free, all else is kept, and no flag is left.
  pub record Made (s : Buckets) (b : ℕ) (s' : Buckets) (p : ℕ) : Type 0 where
    pub in_bucket : p / 4 ≡ b
    pub unflagged : s.flag p ≡ 0
    pub flags : (x : ℕ) → s'.flag x ≡ s.flag x
    pub flagged : (x : ℕ) → s.flag x ≢ 0 → s'.entry x ≡ s.entry x
    pub placed : Placed m IsPair IsSame s' p
    pub keeps : Keeps s s' p

  abbrev pub Ensures : Buckets → ℕ → Option (Buckets × Option ℕ) → Type 0
  Ensures s b none = Unit
  Ensures s b (some (s', none)) = Same s s'
  Ensures s b (some (s', some p)) = Made s b s' p

  -- A flag is no part of an entry.
  IsFull-set_flag : (s : Buckets) (p c : ℕ) → IsFull s c → IsFull (set_flag s p 1) c
  unfolding set_flag
  IsFull-set_flag s p c f = f

  Placed-set_flag :
      (s : Buckets) (p f hole : ℕ)
      → Placed m IsPair IsSame s hole
      → Placed m IsPair IsSame (set_flag s p f) hole
  unfolding set_flag
  Placed-set_flag s p f hole v = record { located = v.located; paired = v.paired; apart = v.apart }

  Keeps-set_flag :
      (s s' : Buckets) (p f g hole : ℕ)
      → Keeps (set_flag s p f) s' hole
      → Keeps s (set_flag s' p g) hole
  unfolding set_flag
  Keeps-set_flag s s' p f g hole k = record { there = k.there; back = k.back }

  module _ (s : Buckets) (b : ℕ) (wf : (hole : ℕ) → Placed m IsPair IsSame s hole)
      (full : IsFull s b) (safe : IsSafe m s) where
    flagged-push : (p q x : ℕ) → x ≢ q → (push_entry s p q).entry x ≡ s.entry x
    unfolding push_entry
    flagged-push p q x ne = update-ne s.entry q x _ ne

    -- An alternative bucket has room.
    spare_lem :
        (p q : ℕ)
        → p / 4 ≡ b
        → q / 4 ≡ next_bucket m s p
        → is_null (s.entry q) ≡ true
        → Made s b (push_entry s p q) p
    unfolding push_entry
    spare_lem p q at here null = record {
      in_bucket = at;
      unflagged = elim (ℕ_discrete (s.flag p) 0) [
        | yes e ↦ e
        | no ne ↦ cc ((safe p ne p refl).1 q here, null)
      ];
      flags = λ x. refl;
      flagged = λ x ne. flagged-push p q x (λ e. unused x e (safe x ne x refl).0);
      placed = push-Placed m IsPair IsSame flip s p q (wf q) live here;
      keeps = push-Keeps m IsPair IsSame flip s p q (wf q) live here s (record {
        there = λ x n. (x, (n, λ e. unused x e n), refl);
        back = λ x l. (x, l.0, refl);
      });
    }
      where
        unused : (x : ℕ) → x ≡ q → is_null (s.entry x) ≡ false → ⊥
        unused x e n = cc (subst (λ (y : ℕ). is_null (s.entry y) ≡ true) (sym e) null, n)

        live : Live s q p
        live = (full p at, λ e. unused p e (full p at))

    -- The flag that is set before the call and cleared after it is as before.
    restored :
        (p x : ℕ) (f : ℕ → ℕ)
        → s.flag p ≡ 0
        → ((y : ℕ) → f y ≡ update s.flag p 1 y)
        → update f p 0 x ≡ s.flag x
    restored p x f z h = elim (ℕ_discrete x p) [
      | yes e ↦ ap (update f p 0) e ∙ update_self f p 0 ∙ sym z ∙ ap s.flag (sym e)
      | no ne ↦ update-ne f p x 0 ne ∙ h x ∙ update-ne s.flag p x 1 ne
    ]

    still_flagged : (p x : ℕ) → s.flag x ≢ 0 → update s.flag p 1 x ≢ 0
    still_flagged p x ne e = elim (ℕ_discrete x p) [
      | yes same ↦
          absurd
            (omega (arith, sym (update_self s.flag p 1) ∙ ap (update s.flag p 1) (sym same) ∙ e))
      | no other ↦ ne (sym (update-ne s.flag p x 1 other) ∙ e)
    ]

    is_flagged : (p : ℕ) → update s.flag p 1 p ≢ 0
    is_flagged p e = absurd (omega (arith, sym (update_self s.flag p 1) ∙ e))

    module _ (p : ℕ) (at : p / 4 ≡ b) (z : s.flag p ≡ 0) where
      after_push_lem :
          (r : Option (Buckets × Option ℕ))
          → Ensures (set_flag s p 1) (next_bucket m s p) r
          → Ensures s b (after_push p r)
      unfolding after_push set_flag push_entry next_bucket
      after_push_lem none e = tt
      after_push_lem (some (s2, none)) e = record {
        entries = e.entries;
        flags = λ x. restored p x s2.flag z e.flags;
      }
      after_push_lem (some (s2, some q)) e = record {
        in_bucket = at;
        unflagged = z;
        flags = λ x. restored p x s2.flag z e.flags;
        flagged = λ x ne.
            update-ne s2.entry q x _
              (λ same. still_flagged p x ne (ap (update s.flag p 1) same ∙ e.unflagged))
            ∙ e.flagged x (still_flagged p x ne);
        placed =
            push-Placed m IsPair IsSame flip (set_flag s2 p 0) p q
              (Placed-set_flag s2 p 0 q e.placed) live here;
        keeps =
            push-Keeps m IsPair IsSame flip (set_flag s2 p 0) p q
              (Placed-set_flag s2 p 0 q e.placed) live here s (Keeps-set_flag s s2 p 1 0 q e.keeps);
      }
        where
          unmoved : s2.entry p ≡ s.entry p
          unmoved = e.flagged p (is_flagged p)

          live : Live s2 q p
          live = (
            subst (λ (x : Entry). is_null x ≡ false) (sym unmoved) (full p at),
            λ same. is_flagged p (ap (update s.flag p 1) same ∙ e.unflagged),
          )

          here : q / 4 ≡ next_bucket m s2 p
          here = e.in_bucket ∙ sym (ap (λ (x : Entry). bit_and x.alt m) unmoved)

    body_lem :
        (o : Option (ℕ × ℕ)) (u : Option ℕ) (rec : ℕ → Option (Buckets × Option ℕ))
        → Spares m s 4 (4 * b) o
        → FindsIn (λ p. s.flag p == 0) b u
        → ((p : ℕ)
            → p / 4 ≡ b
            → IsJammed m s b
            → Ensures (set_flag s p 1) (next_bucket m s p) (rec p))
        → Ensures s b (make_space_body s o u rec)
    unfolding make_space_body
    body_lem (some (p, q)) u rec f g h = spare_lem p q (omega (arith, f.0, f.1)) f.2 f.3
    body_lem none none rec f g h = record { entries = λ p. refl; flags = λ p. refl }
    body_lem none (some p) rec f g h =
        after_push_lem p g.0 (ground (arith, g.1)) (rec p)
          (h p g.0 (λ q at. (full q at, f q (omega arith) (omega arith))))

  -- With the next entry flagged too, all flagged entries are in jammed buckets.
  IsSafe-set_flag :
      (s : Buckets) (b p : ℕ) → IsSafe m s → p / 4 ≡ b → IsJammed m s b → IsSafe m (set_flag s p 1)
  unfolding set_flag next_bucket
  IsSafe-set_flag s b p safe at jam = λ x ne. elim (ℕ_discrete x p) [
    | yes same ↦
        subst (IsJammed m s) {x = b} {y = x / 4} (sym at ∙ ap (λ (y : ℕ). y / 4) (sym same)) jam
    | no other ↦ safe x (λ e. ne (update-ne s.flag p x 1 other ∙ e))
  ]

  -- On a full bucket, with each entry where its signatures say, no two for one key, and a flag
  -- only in buckets from which no entry can move, `make_space_bucket` either runs out of fuel,
  -- or frees one place of the bucket, and all else is kept, each entry where its signatures
  -- say; or changes nothing. Where it does not run out of fuel, the flags are as before.
  pub make_space_bucket-Ensures :
      (fuel : ℕ) (s : Buckets) (b : ℕ)
      → ((hole : ℕ) → Placed m IsPair IsSame s hole)
      → IsFull s b
      → IsSafe m s
      → Ensures s b (make_space_bucket m fuel s b)
  unfolding make_space_bucket
  make_space_bucket-Ensures zero s b wf full safe = tt
  make_space_bucket-Ensures (suc fuel) s b wf full safe =
      body_lem s b wf full safe (find_spare m s 4 (4 * b)) (first_in (λ p. s.flag p == 0) b)
        (λ p. make_space_bucket m fuel (set_flag s p 1) (next_bucket m s p))
        (find_spare-Spares m s 4 (4 * b)) (first_in-FindsIn _ b)
        (λ p at jam.
          make_space_bucket-Ensures fuel (set_flag s p 1) (next_bucket m s p)
            (λ hole. Placed-set_flag s p 1 hole (wf hole))
            (IsFull-set_flag s p (next_bucket m s p) (jam p at).1)
            (IsSafe-set_flag s b p safe at jam))
