-- ===== src/Ring/Put.antt =====
-- `ringbuffer_put` of a single thread puts a block on the queue.
use pkt_sender.Prelude.{
  ℕ, ◌+◌, ◌-◌, ◌≤◌, ◌<◌, bit_and, ◌≡◌, inl, inr, refl, sym, ap, ◌∙◌, List, ◌++◌, none, some, true,
  false, arith, ltb, leb, ◌==◌, length, take, length-take, Bool-cases,
}
use pkt_sender.Prelude.Words.{add32, sub32, mask-add32}
use pkt_sender.Ring.Defs.{Ring, get_rest_size, reserve, copy_in, publish, put}
use pkt_sender.Ring.Window.{wrap, distance, window}
use pkt_sender.Ring.Copy.{copies, length-copies, copy_in-lem}
use pkt_sender.Ring.Queue
use pkt_sender.Ring.Valid.{IsValid, used, contents, length-contents, get_rest_size-distance}
use pkt_sender.Ring.Append.{window-copies}

-- What a call has done: it returned, the queue's answer, and the ring is at rest again.
pub record Put (k : ℕ) (r : Ring) (block : List ℕ) (done : ℕ × Ring) : Type 0 where
  pub refines : (done.0, contents done.1) ≡ Queue.put r.data_size (contents r) block
  pub valid : IsValid k done.1

module _ {k : ℕ} {r : Ring} (v : IsValid k r) (buffer : List ℕ) (len : ℕ)
    (given : len ≤ length buffer) where
  open r use {data_size, read_pos, write_pos}

  room : get_rest_size write_pos read_pos data_size ≡ data_size - used r
  room =
      get_rest_size-distance k data_size write_pos read_pos v.is_power v.small v.write_in v.read_in
      ∙ ap (λ (w : ℕ). data_size - distance data_size read_pos w) (sym v.quiet)

  reserve-full : data_size ≤ used r + len → reserve r len ≡ none
  unfolding reserve
  reserve-full h = rw (room, no_room)
    where
      no_room : leb (data_size - used r) len ≡ true
      no_room = ground arith

  put-full : data_size ≤ used r + len → put r buffer len ≡ some (0, r)
  unfolding put
  put-full h = rw (reserve-full h, put)

  target : ℕ
  target = wrap data_size (write_pos + len)

  reserve-room :
      used r + len < data_size
      → reserve r len ≡ some (write_pos, target, record r { write_pos = target })
  unfolding reserve target
  reserve-room h = rw (room, fits, moved)
    where
      fits : leb (data_size - used r) len ≡ false
      fits = ground arith

      moved : bit_and (add32 write_pos len) (sub32 data_size 1) ≡ wrap data_size (write_pos + len)
      moved = mask-add32 k data_size v.is_power v.small write_pos len v.write_in (omega arith)

  -- The ring when the block is in.
  filled : Ring
  filled = record r {
    write_pos = target;
    finish_pos = target;
    bytes = copies r.bytes data_size write_pos buffer len;
  }

  publish-filled :
      publish (copy_in (record r { write_pos = target }) write_pos buffer len) write_pos target
      ≡ some filled
  unfolding publish filled
  publish-filled = rw (
    copy_in-lem k (record r { write_pos = target }) write_pos buffer len v.is_power v.small
        v.write_in,
    publish,
    caught_up,
  )
    where
      caught_up : (r.finish_pos == write_pos) ≡ true
      caught_up = ground (arith, v.quiet)

  put-room : used r + len < data_size → put r buffer len ≡ some (len, filled)
  unfolding put
  put-room h = rw (reserve-room h, put) (rw (publish-filled, put))

  contents-filled : used r + len < data_size → contents filled ≡ contents r ++ take len buffer
  unfolding filled target
  contents-filled h =
      ap (window (copies r.bytes data_size write_pos buffer len) data_size read_pos) longer
      ∙ rw here at (
          window-copies r.bytes data_size read_pos (used r) buffer len v.full v.read_in
            (omega arith) given)
    where
      here : wrap data_size (read_pos + used r) ≡ write_pos
      here = ground (arith, v.quiet)

      longer : distance data_size read_pos (wrap data_size (write_pos + len)) ≡ used r + len
      longer = ground (arith, v.quiet)

  filled-IsValid : used r + len < data_size → IsValid k filled
  unfolding filled target
  filled-IsValid h = record {
    is_power = v.is_power;
    small = v.small;
    full =
        length-copies r.bytes data_size write_pos buffer len v.full v.write_in (omega arith) given;
    read_in = v.read_in;
    write_in = ground arith;
    quiet = refl;
  }

-- On a valid ring at rest, and for a buffer of at least `len` bytes, `ringbuffer_put` of one
-- thread returns; its answer and the bytes held are those of the queue (all of the block at the
-- back, or nothing where the room is not more than the block), and the ring is valid again.
pub put_refines :
    {k : ℕ} {r : Ring} (buffer : List ℕ) (len : ℕ)
    → IsValid k r
    → len ≤ length buffer
    → (done : ℕ × Ring) × (put r buffer len ≡ some done) × Put k r (take len buffer) done
unfolding Queue.put
put_refines {k} {r} buffer len v given = elim (Bool-cases (ltb (used r + len) r.data_size)) [
  | inl e ↦ (
    (len, filled v buffer len given),
    put-room v buffer len given (ground arith),
    record {
      refines = rw (length-contents r, taken, e, contents-filled v buffer len given (ground arith));
      valid = filled-IsValid v buffer len given (ground arith);
    },
  )
  | inr e ↦ (
    (0, r),
    put-full v buffer len given (ground arith),
    record { refines = rw (length-contents r, taken, e); valid = v },
  )
]
  where
    taken : length (take len buffer) ≡ len
    taken = omega (arith, length-take len buffer)
