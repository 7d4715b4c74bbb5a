-- ===== src/Ring/Pending.antt =====
-- The bytes of the writers of a shared ring, by their distance from the read position.
use pkt_sender.Prelude.{
  ℕ, ◌+◌, ◌≤◌, ◌<◌, ◌≡◌, refl, sym, ap, ◌∙◌, inl, inr, ◌⊎◌, arith, true, false, List, [], ◌∷◌, ◌++◌,
  length, get_or,
}
use pkt_sender.Ring.Window.{wrap}
use pkt_sender.Ring.Copy.{copies, copies-new, copies-old}
use pkt_sender.Ring.Shared.{Ticket}

module _ (size read : ℕ) where
  -- The byte that lies `i` bytes from the read position.
  abbrev pub byte_at : List ℕ → ℕ → ℕ
  byte_at bytes i = get_or bytes (wrap size (read + i)) 0

  abbrev pub HoldsBlock : List ℕ → ℕ → Ticket → Type 0
  HoldsBlock bytes off t = (m : ℕ) → m < t.len → byte_at bytes (off + m) ≡ get_or t.buffer m 0

  -- The writers from distance `off` on, up to `total`: each takes the place behind the one before.
  abbrev pub Chain : List ℕ → ℕ → ℕ → List Ticket → Type 0
  Chain bytes total off [] = off ≡ total
  Chain bytes total off (t ∷ ts) =
      (t.write_old ≡ wrap size (read + off))
      × (t.write_new ≡ wrap size (read + (off + t.len)))
      × (0 < t.len)
      × (t.len ≤ length t.buffer)
      × (t.copied ≡ true → HoldsBlock bytes off t)
      × Chain bytes total (off + t.len) ts

  pub Chain-le :
      (bytes : List ℕ) (total off : ℕ) (ts : List Ticket) → Chain bytes total off ts → off ≤ total
  Chain-le bytes total off [] c = omega arith
  Chain-le bytes total off (t ∷ ts) c = omega (arith, Chain-le bytes total (off + t.len) ts c.5)

  -- A new writer goes to the end.
  pub Chain-append :
      (bytes : List ℕ) (total off : ℕ) (ts : List Ticket) (t : Ticket)
      → Chain bytes total off ts
      → t.write_old ≡ wrap size (read + total)
      → t.write_new ≡ wrap size (read + (total + t.len))
      → 0 < t.len
      → t.len ≤ length t.buffer
      → t.copied ≡ false
      → Chain bytes (total + t.len) off (ts ++ (t ∷ []))
  Chain-append bytes total off [] t c old new pos le fresh = (
    old ∙ ap (λ (i : ℕ). wrap size (read + i)) (sym c),
    new ∙ ap (λ (i : ℕ). wrap size (read + (i + t.len))) (sym c),
    pos,
    le,
    (λ e. absurd (let w : false ≡ true = sym fresh ∙ e in cc)),
    omega arith,
  )
  Chain-append bytes total off (u ∷ ts) t c old new pos le fresh = (
    c.0,
    c.1,
    c.2,
    c.3,
    c.4,
    Chain-append bytes total (off + u.len) ts t c.5 old new pos le fresh,
  )

  -- Bytes that are the same from `off` on.
  pub Chain-same :
      (bytes bytes' : List ℕ) (total off : ℕ) (ts : List Ticket)
      → ((i : ℕ) → off ≤ i → i < total → byte_at bytes' i ≡ byte_at bytes i)
      → Chain bytes total off ts
      → Chain bytes' total off ts
  Chain-same bytes bytes' total off [] same c = c
  Chain-same bytes bytes' total off (t ∷ ts) same c = (
    c.0,
    c.1,
    c.2,
    c.3,
    (λ e m lt.
        same (off + m) (omega arith) (omega (arith, Chain-le bytes total (off + t.len) ts c.5))
        ∙ c.4 e m lt),
    Chain-same bytes bytes' total (off + t.len) ts (λ i le lt. same i (omega arith) lt) c.5,
  )

  -- The place of one of the writers, and the line once its block is copied or while it is not.
  pub record Place (bytes : List ℕ) (total off : ℕ) (before ts : List Ticket) (t : Ticket)
      : Type 0 where
    pub at : ℕ
    pub here : t.write_old ≡ wrap size (read + at)
    pub goes_to : t.write_new ≡ wrap size (read + (at + t.len))
    pub after_off : off ≤ at
    pub within : at + t.len ≤ total
    pub given : t.len ≤ length t.buffer
    pub is_first : (before ≡ []) ⊎ (off < at)
    pub copied_in :
        (bytes' : List ℕ)
        → HoldsBlock bytes' at t
        → ((i : ℕ)
            → off ≤ i
            → i < total
            → (i < at) ⊎ (at + t.len ≤ i)
            → byte_at bytes' i ≡ byte_at bytes i)
        → Chain bytes' total off (before ++ (record t { copied = true } ∷ ts))

  pub place_of :
      (bytes : List ℕ) (total off : ℕ) (before ts : List Ticket) (t : Ticket)
      → Chain bytes total off (before ++ (t ∷ ts))
      → Place bytes total off before ts t
  place_of bytes total off [] ts t c =
      let le = Chain-le bytes total (off + t.len) ts c.5 in
      record {
        at = off;
        here = c.0;
        goes_to = c.1;
        after_off = omega arith;
        within = le;
        given = c.3;
        is_first = inl refl;
        copied_in = λ bytes' holds same. (
          c.0,
          c.1,
          c.2,
          c.3,
          (λ e. holds),
          Chain-same bytes bytes' total (off + t.len) ts
              (λ i lo hi. same i (omega arith) hi (inr lo)) c.5,
        );
      }
  place_of bytes total off (b ∷ before) ts t c =
      let p = place_of bytes total (off + b.len) before ts t c.5 in
      record {
        at = p.at;
        here = p.here;
        goes_to = p.goes_to;
        after_off = omega (arith, p.after_off);
        within = p.within;
        given = p.given;
        is_first = inr (omega (arith, p.after_off, c.2));
        copied_in = λ bytes' holds same. (
          c.0,
          c.1,
          c.2,
          c.3,
          (λ e m lt.
              same (off + m) (omega arith) (omega (arith, p.after_off, p.within))
                (inl (omega (arith, p.after_off)))
              ∙ c.4 e m lt),
          p.copied_in bytes' holds (λ i lo hi out. same i (omega arith) hi out),
        );
      }

  module _ (bytes : List ℕ) (full : length bytes ≡ size) (in_size : read < size) where
    module _ (o : ℕ) (buffer : List ℕ) (len : ℕ) (fits : o + len < size)
        (given : len ≤ length buffer) where
      abbrev after : List ℕ
      after = copies bytes size (wrap size (read + o)) buffer len

      pub copies_here : (m : ℕ) → m < len → byte_at after (o + m) ≡ get_or buffer m 0
      copies_here m h =
          ap (λ (j : ℕ). get_or after j 0) same_place
          ∙ copies-new bytes size (wrap size (read + o)) buffer len full (ground arith)
              (omega arith) given m h
        where
          same_place : wrap size (read + (o + m)) ≡ wrap size (wrap size (read + o) + m)
          same_place = ground arith

      pub copies_elsewhere :
          (i : ℕ) → i < size → (i < o) ⊎ (o + len ≤ i) → byte_at after i ≡ byte_at bytes i
      copies_elsewhere i lt out =
          copies-old bytes size (wrap size (read + o)) buffer len full (ground arith) (omega arith)
            given (wrap size (read + i)) (ground arith) (ground arith) (ground arith)
