-- ===== src/Ring/Interleaved.antt =====
-- Several writers and one reader of a ring: what a `ringbuffer_get` and a publication do to what is seen.
use pkt_sender.Prelude.{
  ℕ, ◌+◌, ◌-◌, ◌≤◌, ◌<◌, min, ◌≡◌, refl, sym, ap, ◌∙◌, inl, inr, arith, true, List, [], ◌∷◌, ◌++◌,
  none, some, take, drop, ◌==◌, Bool-cases, ℕ_discrete,
}
use mathlib.Core.Option.{some-injective}
use mathlib.Core.List.{append_assoc}
use pkt_sender.Ring.Defs.{Ring, win, publish, get, umin, get_used_size}
use pkt_sender.Ring.Window.{wrap}
use pkt_sender.Ring.Valid.{IsValid, used, contents}
use pkt_sender.Ring.Get.{drained, get-none, get-some, contents-drained}
use pkt_sender.Ring.Shared.{Ticket, block, blocks}
use pkt_sender.Ring.Pending.{Chain-le}
use pkt_sender.Ring.Blocks.{Chain-moved, window-block}
use pkt_sender.Ring.Steps.{total, IsShared}

get-write :
    (r : Ring) (w len : ℕ)
    → get (record r { write_pos = w }) len
      ≡ ((get r len).0, (get r len).1, record (get r len).2 { write_pos = w })
unfolding get
get-write r w len =
    elim (Bool-cases (umin len (get_used_size r.finish_pos r.read_pos r.data_size) == 0)) [
      | inl e ↦ rw e refl
      | inr e ↦ rw e refl
    ]

module _ (k : ℕ) (r : Ring) (tickets : List Ticket) (v : IsShared k r tickets) (len : ℕ) where
  -- The ring as the reader knows it.
  abbrev seen : Ring
  seen = record r { write_pos = r.finish_pos }

  seen-IsValid : IsValid k seen
  seen-IsValid = record {
    is_power = v.is_power;
    small = v.small;
    full = v.full;
    read_in = v.read_in;
    write_in = v.finish_in;
    quiet = refl;
  }

  abbrev pub n : ℕ
  n = min len (used r)

  abbrev pub moved : Ring
  moved = record r { read_pos = wrap r.data_size (r.read_pos + n) }

  -- What the reader gets, and the ring after it.
  got :
      get r len
      ≡ ((get seen len).0, (get seen len).1, record (get seen len).2 { write_pos = r.write_pos })
  got = get-write seen r.write_pos len

  pub got_bytes : (get r len).1 ≡ take n (contents r)
  got_bytes = elim (ℕ_discrete n 0) [
    | yes e ↦ rw (got, get-none seen-IsValid len e, e) refl
    | no ne ↦ rw (got, get-some seen-IsValid len ne) refl
  ]

  pub got_ring : (get r len).2 ≡ moved
  unfolding drained
  got_ring = elim (ℕ_discrete n 0) [
    | yes e ↦
        let stays : wrap r.data_size (r.read_pos + n) ≡ r.read_pos = ground (arith, v.read_in) in
        rw (got, get-none seen-IsValid len e)
          (ap (λ (p : ℕ). record r { read_pos = p }) (sym stays))
    | no ne ↦ rw (got, get-some seen-IsValid len ne) refl
  ]

  pub moved-contents : contents moved ≡ drop n (contents r)
  unfolding drained
  moved-contents = contents-drained seen-IsValid len

  pub moved-total : total moved ≤ total r
  moved-total =
      let first = Chain-le r.data_size r.read_pos r.bytes (total r) (used r) tickets v.chain in
      let fewer : total moved ≡ total r - n = ground (arith, first, v.read_in, v.write_in) in
      omega arith

  pub moved-IsShared : IsShared k moved tickets
  moved-IsShared =
      let first = Chain-le r.data_size r.read_pos r.bytes (total r) (used r) tickets v.chain in
      let last : total r < r.data_size = ground (arith, v.read_in, v.write_in) in
      let fewer : total moved ≡ total r - n = ground (arith, first, v.read_in, v.write_in) in
      let fewer_used : used moved ≡ used r - n = ground (arith, first, v.read_in, v.finish_in) in
      record {
        is_power = v.is_power;
        small = v.small;
        full = v.full;
        read_in = ground (arith, first, v.read_in);
        write_in = v.write_in;
        finish_in = v.finish_in;
        chain =
            rw (fewer, fewer_used)
              (Chain-moved r.data_size r.read_pos n v.read_in r.bytes (total r) (used r) tickets
                (omega arith) last v.chain);
      }

-- Only the first writer can publish, and its block is then what the reader sees last.
module _ (k : ℕ) (r : Ring) (t : Ticket) (after : List Ticket) (v : IsShared k r (t ∷ after)) where
  abbrev pub published : Ring
  published = record r { finish_pos = t.write_new }

  behind : used r + t.len ≤ total r
  behind = Chain-le r.data_size r.read_pos r.bytes (total r) (used r + t.len) after v.chain.5

  last : total r < r.data_size
  last = ground (arith, v.read_in, v.write_in)

  more_used : used published ≡ used r + t.len
  more_used = rw v.chain.1 (ground (arith, behind, last, v.read_in))

  pub published-IsShared : IsShared k published after
  published-IsShared = record {
    is_power = v.is_power;
    small = v.small;
    full = v.full;
    read_in = v.read_in;
    write_in = v.write_in;
    finish_in = rw v.chain.1 (ground (arith, behind, last, v.read_in));
    chain = rw more_used v.chain.5;
  }

  pub published-contents : t.copied ≡ true → contents published ≡ contents r ++ block t
  published-contents copied =
      rw more_used
        (window-block r.data_size r.read_pos r.bytes (used r) t v.chain.3 (v.chain.4 copied))

pub win-some :
    (r done : Ring) (old new : ℕ)
    → win r old new ≡ some done
    → (r.write_pos ≡ old) × (done ≡ record r { write_pos = new })
unfolding win
win-some r done old new e = elim (Bool-cases (r.write_pos == old)) [
  | inl same ↦ (ground arith, sym (some-injective _ _ (rw same at e)))
  | inr other ↦ let w : none ≡ some done = rw other at e in absurd (ground arith)
]

pub publish-some :
    (r done : Ring) (old new : ℕ)
    → publish r old new ≡ some done
    → (r.finish_pos ≡ old) × (done ≡ record r { finish_pos = new })
unfolding publish
publish-some r done old new e = elim (Bool-cases (r.finish_pos == old)) [
  | inl same ↦ (ground arith, sym (some-injective _ _ (rw same at e)))
  | inr other ↦ let w : none ≡ some done = rw other at e in absurd (ground arith)
]

pub blocks-append : (ts us : List Ticket) → blocks (ts ++ us) ≡ blocks ts ++ blocks us
blocks-append [] us = refl
blocks-append (t ∷ ts) us =
    ap (λ (bs : List ℕ). block t ++ bs) (blocks-append ts us)
    ∙ sym (append_assoc (block t) (blocks ts) (blocks us))
