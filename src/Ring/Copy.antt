-- ===== src/Ring/Copy.antt =====
-- What `copy_in` leaves in the data area: the new bytes round from the reserved position, and the
-- bytes outside the reserved space as they were.
use pkt_sender.Prelude.{
  ℕ, zero, suc, ◌+◌, ◌-◌, ◌^◌, ◌≤◌, ◌<◌, min, bit_and, ◌≡◌, ◌⊎◌, inl, inr, refl, sym, ap, ◌∙◌, List,
  arith, if◌then◌else◌, ltb, length, take, drop, get_or, Bool-cases, length-take, length-drop,
}
use pkt_sender.Prelude.Arrays.{
  blit, length-blit, get_or-blit_in, get_or-blit_out, get_or-take, get_or-drop,
}
use pkt_sender.Prelude.Words.{sub32, bit_and-mask32, size-le}
use native.Mathlib.Nat.{mod-eq_of_lt, zero-add}
use pkt_sender.Ring.Defs.{Ring, copy_in, umin}
use pkt_sender.Ring.Window.{wrap}

pub umin-eq-min : (a b : ℕ) → umin a b ≡ min a b
unfolding umin
umin-eq-min a b = ground arith

module _ (xs : List ℕ) (s : ℕ) (a b : List ℕ) (fits : s + length a ≤ length xs)
    (apart : length b ≤ s) where
  two_copies : List ℕ
  two_copies = blit (blit xs s a) 0 b

  two_copies-first : (j : ℕ) → j < length a → get_or two_copies (s + j) 0 ≡ get_or a j 0
  unfolding two_copies
  two_copies-first j h =
      get_or-blit_out (blit xs s a) 0 b 0 (s + j) (rw length-blit (omega arith)) (inr (omega arith))
      ∙ get_or-blit_in xs s a 0 j fits h

  two_copies-second : (j : ℕ) → j < length b → get_or two_copies j 0 ≡ get_or b j 0
  unfolding two_copies
  two_copies-second j h =
      ap (λ (i : ℕ). get_or (blit (blit xs s a) 0 b) i 0) (sym (zero-add j))
      ∙ get_or-blit_in (blit xs s a) 0 b 0 j (rw length-blit (omega arith)) h

  two_copies-out :
      (j : ℕ) → length b ≤ j → (j < s) ⊎ (s + length a ≤ j) → get_or two_copies j 0 ≡ get_or xs j 0
  unfolding two_copies
  two_copies-out j h o =
      get_or-blit_out (blit xs s a) 0 b 0 j (rw length-blit (omega arith)) (inr (omega arith))
      ∙ get_or-blit_out xs s a 0 j fits o

-- A copy of `len` bytes to position `start`, in two parts where it goes round the end.
pub copies : List ℕ → ℕ → ℕ → List ℕ → ℕ → List ℕ
unfolding two_copies
copies bytes size start buffer len =
    let l = min len (size - start) in
    blit (blit bytes start (take l buffer)) 0 (take (len - l) (drop l buffer))

module _ (bytes : List ℕ) (size start : ℕ) (buffer : List ℕ) (len : ℕ) (full : length bytes ≡ size)
    (inside : start < size) (fits : len ≤ size) (given : len ≤ length buffer) where
  first : List ℕ
  first = take (min len (size - start)) buffer

  second : List ℕ
  second = take (len - min len (size - start)) (drop (min len (size - start)) buffer)

  length-first : length first ≡ min len (size - start)
  unfolding first
  length-first = omega (arith, length-take (min len (size - start)) buffer)

  length-second : length second ≡ len - min len (size - start)
  unfolding second
  length-second = omega (
    arith,
    length-take (len - min len (size - start)) (drop (min len (size - start)) buffer),
    length-drop (min len (size - start)) buffer,
  )

  pub length-copies : length (copies bytes size start buffer len) ≡ size
  unfolding copies
  length-copies = rw (length-blit, length-blit) full

  low :
      (m : ℕ)
      → m < len
      → start + m < size
      → get_or (copies bytes size start buffer len) (start + m) 0 ≡ get_or buffer m 0
  unfolding copies first second
  low m h in_size =
      two_copies-first bytes start first second (omega (arith, length-first))
        (omega (arith, length-second)) m (omega (arith, length-first))
      ∙ get_or-take (min len (size - start)) buffer m 0 (omega arith)

  high :
      (m : ℕ)
      → m < len
      → size ≤ start + m
      → get_or (copies bytes size start buffer len) (start + m - size) 0 ≡ get_or buffer m 0
  unfolding copies first second
  high m h past =
      two_copies-second bytes start first second (omega (arith, length-first))
        (omega (arith, length-second)) (start + m - size) (omega (arith, length-second))
      ∙ get_or-take (len - l) (drop l buffer) (start + m - size) 0 (omega arith)
      ∙ get_or-drop l buffer (start + m - size) 0
      ∙ ap (λ (i : ℕ). get_or buffer i 0) (omega arith)
    where
      l : ℕ
      l = min len (size - start)

  -- The copied bytes, read round from `start`.
  pub copies-new :
      (m : ℕ)
      → m < len
      → get_or (copies bytes size start buffer len) (wrap size (start + m)) 0 ≡ get_or buffer m 0
  copies-new m h = ground (arith, low m h, high m h)

  -- Outside them nothing changes.
  pub copies-old :
      (j : ℕ)
      → j < size
      → start + len - size ≤ j
      → (j < start) ⊎ (start + len ≤ j)
      → get_or (copies bytes size start buffer len) j 0 ≡ get_or bytes j 0
  unfolding copies first second
  copies-old j h after outside =
      two_copies-out bytes start first second (omega (arith, length-first))
        (omega (arith, length-second)) j (omega (arith, length-second))
        (elim outside [ inl p ↦ inl p | inr p ↦ inr (omega (arith, length-first)) ])

-- A copy of no byte may be left out.
copy_if_any :
    (xs : List ℕ) (i l len : ℕ) (ys : List ℕ)
    → (if ltb l len then blit xs i (take (len - l) ys) else xs) ≡ blit xs i (take (len - l) ys)
unfolding blit
copy_if_any xs i l len ys = elim (Bool-cases (ltb l len)) [
  | inl e ↦ rw e
  | inr e ↦ let none_left : len - l ≡ 0 = ground arith in rw (e, none_left)
]

copy_if_some :
    (xs : List ℕ) (i n : ℕ) (ys : List ℕ)
    → (if ltb 0 n then blit xs i (take n ys) else xs) ≡ blit xs i (take n ys)
unfolding blit
copy_if_some xs i zero ys = refl
copy_if_some xs i (suc n) ys = ground arith

-- The masks of the code do nothing to a position inside the ring.
pub copy_in-copies :
    (k : ℕ) (r : Ring) (start : ℕ) (buffer : List ℕ) (len : ℕ)
    → r.data_size ≡ 2 ^ k
    → k ≤ 31
    → start < r.data_size
    → (copy_in r start buffer len).bytes ≡ copies r.bytes r.data_size start buffer len
unfolding copies copy_in
copy_in-copies k r start buffer len e small inside =
    rw (unmasked, rest, umin-eq-min)
      (rw
        (
          copy_if_some r.bytes start (min len (r.data_size - start)) buffer,
          copy_if_any _ 0 (min len (r.data_size - start)) len,
        )
        refl)
  where
    unmasked : bit_and start (sub32 r.data_size 1) ≡ start
    unmasked = bit_and-mask32 k r.data_size e small start ∙ mod-eq_of_lt inside

    rest : sub32 r.data_size start ≡ r.data_size - start
    rest = unfold sub32 in omega (arith, size-le k r.data_size e small)

-- `copy_in` changes the data area and nothing else.
pub copy_in-lem :
    (k : ℕ) (r : Ring) (start : ℕ) (buffer : List ℕ) (len : ℕ)
    → r.data_size ≡ 2 ^ k
    → k ≤ 31
    → start < r.data_size
    → copy_in r start buffer len ≡ record r { bytes = copies r.bytes r.data_size start buffer len }
unfolding copy_in
copy_in-lem k r start buffer len e small inside =
    λ i. record r { bytes = copy_in-copies k r start buffer len e small inside i }
