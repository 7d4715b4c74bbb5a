-- ===== src/Ring/Append.antt =====
-- Copying a block just past the bytes held.
use pkt_sender.Prelude.{
  ℕ, ◌+◌, ◌-◌, ◌≤◌, ◌<◌, ◌≡◌, inl, inr, sym, ap, ◌∙◌, List, ◌++◌, arith, ltb, length, take, get_or,
  length-append, length-take, Bool-cases,
}
use pkt_sender.Prelude.Arrays.{list_ext, get_or-append_left, get_or-append_right, get_or-take}
use pkt_sender.Ring.Window.{wrap, window, length-window, get_or-window}
use pkt_sender.Ring.Copy.{copies, copies-new, copies-old}

module _ (bytes : List ℕ) (size start n : ℕ) (buffer : List ℕ) (len : ℕ)
    (full : length bytes ≡ size) (inside : start < size) (fits : n + len ≤ size)
    (given : len ≤ length buffer) where
  landing : ℕ
  landing = wrap size (start + n)

  landing-lt : landing < size
  unfolding landing
  landing-lt = ground arith

  after : List ℕ
  after = copies bytes size landing buffer len

  at_old :
      (i : ℕ)
      → i < n
      → get_or (window after size start (n + len)) i 0
        ≡ get_or (window bytes size start n ++ take len buffer) i 0
  unfolding after landing
  at_old i h =
      get_or-window after size start (n + len) i (omega arith)
      ∙ copies-old bytes size landing buffer len full landing-lt (omega arith) given
          (wrap size (start + i)) (ground arith) (ground arith) (ground arith)
      ∙ sym (get_or-window bytes size start n i h)
      ∙ sym (
          get_or-append_left (window bytes size start n) (take len buffer) i 0 (rw length-window h))

  at_new :
      (i m : ℕ)
      → i ≡ n + m
      → m < len
      → get_or (window after size start (n + len)) i 0
        ≡ get_or (window bytes size start n ++ take len buffer) i 0
  unfolding after
  at_new i m e h =
      get_or-window after size start (n + len) i (omega arith)
      ∙ ap (λ (j : ℕ). get_or after j 0) same_place
      ∙ copies-new bytes size landing buffer len full landing-lt (omega arith) given m h
      ∙ sym (get_or-take len buffer m 0 h)
      ∙ sym (
          get_or-append_right (window bytes size start n) (take len buffer) i m 0
            (rw length-window e))
    where
      same_place : wrap size (start + i) ≡ wrap size (landing + m)
      same_place = unfold landing in ground arith

  -- A block copied just past a window makes the window longer by that block.
  pub window-copies :
      window (copies bytes size (wrap size (start + n)) buffer len) size start (n + len)
      ≡ window bytes size start n ++ take len buffer
  unfolding after landing
  window-copies = list_ext _ _ 0 as_long λ i h. elim (Bool-cases (ltb i n)) [
    | inl e ↦ at_old i (ground arith)
    | inr e ↦
        let below : i < n + len = rw length-window at h in
        at_new i (i - n) (ground arith) (ground arith)
  ]
    where
      as_long :
          length (window after size start (n + len))
          ≡ length (window bytes size start n ++ take len buffer)
      as_long =
          rw (length-append, length-window, length-window) (omega (arith, length-take len buffer))
