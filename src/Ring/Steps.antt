-- ===== src/Ring/Steps.antt =====
-- One step of a writer or of the reader of a shared ring.
use pkt_sender.Prelude.{
  ℕ, ◌+◌, ◌-◌, ◌^◌, ◌≤◌, ◌<◌, ◌≡◌, refl, sym, ap, subst, ◌∙◌, inl, inr, ◌⊎◌, arith, bit_and, true,
  false, List, [], ◌∷◌, ◌++◌, none, some, length, get_or, leb, Bool-cases,
}
use mathlib.Core.Option.{some-injective}
use pkt_sender.Prelude.Words.{add32, sub32, mask-add32}
use pkt_sender.Ring.Defs.{Ring, get_rest_size, reserve, copy_in}
use pkt_sender.Ring.Window.{wrap, distance}
use pkt_sender.Ring.Copy.{copies, length-copies, copy_in-lem}
use pkt_sender.Ring.Valid.{used, contents, get_rest_size-distance}
use pkt_sender.Ring.Shared.{Ticket}
use pkt_sender.Ring.Pending.{
  byte_at, Chain, Chain-append, Place, place_of, copies_here, copies_elsewhere,
}
use pkt_sender.Ring.Blocks.{window_same}

-- How many bytes are reserved and not yet read.
abbrev pub total : Ring → ℕ
total r = distance r.data_size r.read_pos r.write_pos

-- A ring in use: its writers stand in line from `finish_pos` to `write_pos`.
pub record IsShared (k : ℕ) (r : Ring) (tickets : List Ticket) : Type 0 where
  pub is_power : r.data_size ≡ 2 ^ k
  pub small : k ≤ 31
  pub full : length r.bytes ≡ r.data_size
  pub read_in : r.read_pos < r.data_size
  pub write_in : r.write_pos < r.data_size
  pub finish_in : r.finish_pos < r.data_size
  pub chain : Chain r.data_size r.read_pos r.bytes (total r) (used r) tickets

-- What a successful reservation means.
pub record Reserved (r : Ring) (len : ℕ) (done : ℕ × ℕ × Ring) : Type 0 where
  pub room : total r + len < r.data_size
  pub old : done.0 ≡ r.write_pos
  pub new : done.1 ≡ wrap r.data_size (r.write_pos + len)
  pub ring : done.2 ≡ record r { write_pos = wrap r.data_size (r.write_pos + len) }

module _ (k : ℕ) (r : Ring) (tickets : List Ticket) (v : IsShared k r tickets) where
  pub reserve-Reserved :
      (len : ℕ) (done : ℕ × ℕ × Ring) → reserve r len ≡ some done → Reserved r len done
  unfolding reserve
  reserve-Reserved len done e =
      let rest : get_rest_size r.write_pos r.read_pos r.data_size ≡ r.data_size - total r =
        get_rest_size-distance k r.data_size r.write_pos r.read_pos v.is_power v.small v.write_in
          v.read_in in
      elim (Bool-cases (leb (r.data_size - total r) len)) [
        | inl no_room ↦ let w : none ≡ some done = rw (rest, no_room) at e in absurd (ground arith)
        | inr room ↦
            let w = some-injective _ _ (rw (rest, room) at e) in
            let fits : total r + len < r.data_size = ground arith in
            let moved : bit_and (add32 r.write_pos len) (sub32 r.data_size 1)
                ≡ wrap r.data_size (r.write_pos + len) =
              mask-add32 k r.data_size v.is_power v.small r.write_pos len v.write_in
                (omega arith) in
            subst (λ (d : ℕ × ℕ × Ring). Reserved r len d) w
              (record {
                room = fits;
                old = refl;
                new = moved;
                ring = ap (λ (p : ℕ). record r { write_pos = p }) moved;
              })
      ]

  -- The ring and the writers after a reservation; the bytes that the reader sees stay.
  pub reserved-IsShared :
      (len : ℕ) (buffer : List ℕ)
      → 0 < len
      → len ≤ length buffer
      → total r + len < r.data_size
      → IsShared k
          (record r { write_pos = wrap r.data_size (r.write_pos + len) })
          (tickets
            ++ (record {
              write_old = r.write_pos;
              write_new = wrap r.data_size (r.write_pos + len);
              buffer = buffer;
              len = len;
              copied = false;
            }
                ∷ []))
  reserved-IsShared len buffer pos given room =
      let longer : distance r.data_size r.read_pos (wrap r.data_size (r.write_pos + len))
          ≡ total r + len =
        ground (arith, v.write_in, v.read_in) in
      record {
        is_power = v.is_power;
        small = v.small;
        full = v.full;
        read_in = v.read_in;
        write_in = ground (arith, v.write_in);
        finish_in = v.finish_in;
        chain = rw longer (
            Chain-append r.data_size r.read_pos r.bytes (total r) (used r) tickets _ v.chain
              (ground (arith, v.write_in, v.read_in)) (ground (arith, v.write_in, v.read_in)) pos
              given refl);
      }

  -- A block is copied: the bytes that the reader sees stay, and so do those of the other writers.
  module _ (before after : List Ticket) (t : Ticket) (line : tickets ≡ before ++ (t ∷ after)) where
    pub place : Place r.data_size r.read_pos r.bytes (total r) (used r) before after t
    place = place_of r.data_size r.read_pos r.bytes (total r) (used r) before after t (
        subst (λ (ts : List Ticket). Chain r.data_size r.read_pos r.bytes (total r) (used r) ts)
          line v.chain)

    abbrev copied_bytes : List ℕ
    copied_bytes = copies r.bytes r.data_size t.write_old t.buffer t.len

    total-lt : total r < r.data_size
    total-lt = ground (arith, v.read_in, v.write_in)

    inside : t.write_old < r.data_size
    inside = rw place.here (ground (arith, v.read_in, place.within, total-lt))

    fits : place.at + t.len < r.data_size
    fits = omega (arith, place.within, total-lt)

    copied_here :
        (m : ℕ)
        → m < t.len
        → byte_at r.data_size r.read_pos copied_bytes (place.at + m) ≡ get_or t.buffer m 0
    copied_here = rw place.here (
        copies_here r.data_size r.read_pos r.bytes v.full v.read_in place.at t.buffer t.len fits
          place.given)

    copied_elsewhere :
        (i : ℕ)
        → i < r.data_size
        → (i < place.at) ⊎ (place.at + t.len ≤ i)
        → byte_at r.data_size r.read_pos copied_bytes i ≡ byte_at r.data_size r.read_pos r.bytes i
    copied_elsewhere = rw place.here (
        copies_elsewhere r.data_size r.read_pos r.bytes v.full v.read_in place.at t.buffer t.len
          fits place.given)

    pub copied-IsShared :
        IsShared k
          (copy_in r t.write_old t.buffer t.len)
          (before ++ (record t { copied = true } ∷ after))
    copied-IsShared =
        rw (copy_in-lem k r t.write_old t.buffer t.len v.is_power v.small inside) (record {
          is_power = v.is_power;
          small = v.small;
          full =
              length-copies r.bytes r.data_size t.write_old t.buffer t.len v.full inside
                (omega (arith, fits)) place.given;
          read_in = v.read_in;
          write_in = v.write_in;
          finish_in = v.finish_in;
          chain =
              place.copied_in copied_bytes copied_here
                (λ i lo hi out. copied_elsewhere i (omega (arith, total-lt)) out);
        })

    pub copied-contents : contents (copy_in r t.write_old t.buffer t.len) ≡ contents r
    copied-contents = rw (copy_in-lem k r t.write_old t.buffer t.len v.is_power v.small inside) (
        window_same r.data_size r.read_pos copied_bytes r.bytes (used r) (λ i lt.
          copied_elsewhere i (omega (arith, place.after_off, fits))
            (inl (omega (arith, place.after_off)))))

    -- Only the first writer can publish, and only its block goes to the reader.
    pub published-first : t.write_old ≡ r.finish_pos → (before ≡ []) × (place.at ≡ used r)
    published-first e =
        let same : place.at ≡ used r =
          let w : wrap r.data_size (r.read_pos + place.at) ≡ r.finish_pos = sym place.here ∙ e in
          ground (arith, v.read_in, v.finish_in, fits) in
        (elim place.is_first [ inl first ↦ first | inr lt ↦ absurd (omega arith) ], same)
