-- ===== src/Ring/Get.antt =====
-- `ringbuffer_get` takes from the front of the queue.
use pkt_sender.Prelude.{
  ℕ, zero, suc, ◌+◌, ◌-◌, ◌<◌, min, bit_and, ◌≡◌, inl, inr, ◌≢◌, refl, sym, ap, ◌∙◌, List, [], ◌∷◌,
  ◌++◌, true, false, arith, ℕ_discrete, if◌then◌else◌, ltb, ◌==◌, length, take, drop, Bool-cases,
}
use pkt_sender.Prelude.Words.{add32, sub32, mask-add32, bit_and-mask32, size-le}
use pkt_sender.Ring.Defs.{Ring, get_used_size, umin, get}
use pkt_sender.Ring.Window.{wrap, distance, window, take-window, drop-window, window-two_parts}
use pkt_sender.Ring.Copy.{umin-eq-min}
use pkt_sender.Ring.Queue
use pkt_sender.Ring.Valid.{IsValid, used, contents, length-contents, get_used_size-distance}
use native.Mathlib.Nat.{mod-eq_of_lt, zero-min, min-zero, suc-min-suc}
use mathlib.Core.List.{append-nil}

part_if_some : (n : ℕ) (xs : List ℕ) → (if ltb 0 n then take n xs else []) ≡ take n xs
part_if_some zero xs = refl
part_if_some (suc n) xs = ground arith

part_if_any :
    (l n : ℕ) (front xs : List ℕ)
    → (if ltb l n then front ++ take (n - l) xs else front) ≡ front ++ take (n - l) xs
part_if_any l n front xs = elim (Bool-cases (ltb l n)) [
  | inl e ↦ rw e
  | inr e ↦ let none_left : n - l ≡ 0 = ground arith in rw (e, none_left, append-nil)
]

module _ {k : ℕ} {r : Ring} (v : IsValid k r) (len : ℕ) where
  open r use {data_size, read_pos, finish_pos, bytes}

  -- How many bytes the call hands over.
  abbrev pub count : ℕ
  count = min len (used r)

  used-lt : used r < data_size
  used-lt = ground (arith, v.quiet)

  size-count : umin len (get_used_size finish_pos read_pos data_size) ≡ count
  size-count =
      umin-eq-min len _
      ∙ ap (min len) (
          get_used_size-distance k data_size finish_pos read_pos v.is_power v.small
            (omega (arith, v.quiet)) v.read_in)

  unmasked : bit_and read_pos (sub32 data_size 1) ≡ read_pos
  unmasked = bit_and-mask32 k data_size v.is_power v.small read_pos ∙ mod-eq_of_lt v.read_in

  to_end : sub32 data_size read_pos ≡ data_size - read_pos
  unfolding sub32
  to_end = omega (arith, size-le k data_size v.is_power v.small, v.read_in)

  moved : bit_and (add32 read_pos count) (sub32 data_size 1) ≡ wrap data_size (read_pos + count)
  moved =
      mask-add32 k data_size v.is_power v.small read_pos (min len (used r)) v.read_in
        (omega (arith, used-lt))

  -- The ring when the bytes are out.
  unfoldable pub drained : Ring
  drained = record r { read_pos = wrap data_size (read_pos + count) }

  pub get-none : count ≡ 0 → get r len ≡ (0, [], r)
  unfolding get
  get-none e = rw (size-count, nothing)
    where
      nothing : (count == 0) ≡ true
      nothing = ground arith

  pub get-some : count ≢ 0 → get r len ≡ (count, take count (contents r), drained)
  unfolding get drained
  get-some ne =
      rw (size-count, unmasked, to_end, umin-eq-min, part_if_some, part_if_any, moved)
        (rw (something, out) refl)
    where
      something : (count == 0) ≡ false
      something = ground arith

      out :
          take (min count (data_size - read_pos)) (drop read_pos bytes)
            ++ take (count - min count (data_size - read_pos)) bytes
          ≡ take count (contents r)
      out =
          window-two_parts bytes data_size read_pos count v.full v.read_in (omega (arith, used-lt))
          ∙ sym (take-window bytes data_size count read_pos (used r) (omega arith))

  pub contents-drained : contents drained ≡ drop count (contents r)
  unfolding drained
  contents-drained =
      ap (window bytes data_size (wrap data_size (read_pos + count))) shorter
      ∙ sym (
          drop-window bytes data_size count read_pos (used r) v.read_in (omega (arith, used-lt))
            (omega arith))
    where
      shorter : distance data_size (wrap data_size (read_pos + count)) finish_pos ≡ used r - count
      shorter = ground (arith, used-lt, v.quiet)

  drained-IsValid : IsValid k drained
  unfolding drained
  drained-IsValid = record {
    is_power = v.is_power;
    small = v.small;
    full = v.full;
    read_in = ground (arith, used-lt);
    write_in = v.write_in;
    quiet = v.quiet;
  }

take-min : (n : ℕ) (xs : List ℕ) → take (min n (length xs)) xs ≡ take n xs
take-min zero xs = rw zero-min
take-min (suc n) [] = rw min-zero
take-min (suc n) (x ∷ xs) = rw suc-min-suc (ap (◌∷◌ x) (take-min n xs))

drop-min : (n : ℕ) (xs : List ℕ) → drop (min n (length xs)) xs ≡ drop n xs
drop-min zero xs = rw zero-min
drop-min (suc n) [] = rw min-zero
drop-min (suc n) (x ∷ xs) = rw suc-min-suc (drop-min n xs)

-- On a valid ring, `ringbuffer_get` gives the count, the bytes and the rest of the queue that
-- taking `len` bytes from its front gives, and the ring is valid again.
pub get_refines :
    {k : ℕ} {r : Ring} (len : ℕ)
    → IsValid k r
    → let (n, out, r') = get r len in
      ((n, out, contents r') ≡ Queue.get (contents r) len) × IsValid k r'
unfolding Queue.get
get_refines {k} {r} len v =
    rw (← take-min len (contents r), ← drop-min len (contents r), length-contents r)
      (elim (ℕ_discrete (count v len) 0) [
        | yes e ↦ rw (get-none v len e, e) (refl, v)
        | no ne ↦ rw (get-some v len ne, contents-drained v len) (refl, drained-IsValid v len)
      ])
