-- ===== src/Ring/Window.antt =====
-- The bytes of a ring from a position on, going round at the end of the data area.
use pkt_sender.Prelude.{
  ℕ, zero, suc, ◌+◌, ◌-◌, ◌≤◌, ◌<◌, min, ◌≡◌, inl, inr, refl, sym, ap, ap₂, ◌∙◌, List, [], ◌∷◌,
  ◌++◌, arith, if◌then◌else◌, ltb, leb, length, take, drop, get_or, Bool-cases, length-append,
  length-take, length-drop,
}
use pkt_sender.Prelude.Arrays.{
  list_ext, get_or-append_left, get_or-append_right, get_or-take, get_or-drop,
}

-- The index of a position that has gone past the end at most once.
abbrev pub wrap : ℕ → ℕ → ℕ
wrap size i = if ltb i size then i else i - size

-- How far `to` lies ahead of `start`.
abbrev pub distance : ℕ → ℕ → ℕ → ℕ
distance size start to = if leb start to then to - start else to + size - start

module _ (bytes : List ℕ) (size : ℕ) where
  unfoldable pub window : ℕ → ℕ → List ℕ
  window start zero = []
  window start (suc n) = get_or bytes (wrap size start) 0 ∷ window (start + 1) n

  pub length-window : (start n : ℕ) → length (window start n) ≡ n
  unfolding window
  length-window start zero = refl
  length-window start (suc n) = ap suc (length-window (start + 1) n)

  pub get_or-window :
      (start n i : ℕ) → i < n → get_or (window start n) i 0 ≡ get_or bytes (wrap size (start + i)) 0
  unfolding window
  get_or-window start zero i h = elim h [ ]
  get_or-window start (suc n) zero h = ap (λ (j : ℕ). get_or bytes (wrap size j) 0) (omega arith)
  get_or-window start (suc n) (suc i) h =
      get_or-window (start + 1) n i (omega arith)
      ∙ ap (λ (j : ℕ). get_or bytes (wrap size j) 0) (omega arith)

  pub take-window : (m start n : ℕ) → m ≤ n → take m (window start n) ≡ window start m
  unfolding window
  take-window zero start n h = refl
  take-window (suc m) start zero h = elim h [ ]
  take-window (suc m) start (suc n) h =
      ap (◌∷◌ (get_or bytes (wrap size start) 0)) (take-window m (start + 1) n (omega arith))

  drop-window_past : (m start n : ℕ) → m ≤ n → drop m (window start n) ≡ window (start + m) (n - m)
  unfolding window
  drop-window_past zero start n h = ap₂ window (omega arith) (omega arith)
  drop-window_past (suc m) start zero h = elim h [ ]
  drop-window_past (suc m) start (suc n) h =
      drop-window_past m (start + 1) n (omega arith) ∙ ap₂ window (omega arith) (omega arith)

  window-wrap :
      (start n : ℕ) → start + n ≤ size + size → window start n ≡ window (wrap size start) n
  window-wrap start n h = list_ext _ _ 0 (rw (length-window, length-window)) λ i p.
      let below : i < n = rw length-window at p in
      get_or-window start n i below
      ∙ ap (λ (j : ℕ). get_or bytes j 0) (ground arith)
      ∙ sym (get_or-window (wrap size start) n i below)

  -- What is left of a window without its first `m` bytes.
  pub drop-window :
      (m start n : ℕ)
      → start < size
      → n ≤ size
      → m ≤ n
      → drop m (window start n) ≡ window (wrap size (start + m)) (n - m)
  drop-window m start n inside fits h =
      drop-window_past m start n h ∙ window-wrap (start + m) (n - m) (omega arith)

  -- A window is the part of the array from its start, and the part at the array's beginning.
  pub window-two_parts :
      (start n : ℕ)
      → length bytes ≡ size
      → start < size
      → n ≤ size
      → take (min n (size - start)) (drop start bytes) ++ take (n - min n (size - start)) bytes
        ≡ window start n
  window-two_parts start n full inside fits =
      list_ext _ _ 0 (rw (length-append, length-window, length-part, length-rest) (omega arith))
        λ i p.
          let below : i < n = omega (arith, (rw (length-append, length-part, length-rest) at p)) in
          elim (Bool-cases (ltb i l)) [
            | inl e ↦
                get_or-append_left part rest i 0 (rw length-part (ground arith))
                ∙ get_or-take l (drop start bytes) i 0 (ground arith)
                ∙ get_or-drop start bytes i 0
                ∙ ap (λ (j : ℕ). get_or bytes j 0) (ground arith)
                ∙ sym (get_or-window start n i below)
            | inr e ↦
                get_or-append_right part rest i (i - l) 0 (rw length-part (ground arith))
                ∙ get_or-take (n - l) bytes (i - l) 0 (ground arith)
                ∙ ap (λ (j : ℕ). get_or bytes j 0) (ground arith)
                ∙ sym (get_or-window start n i below)
          ]
    where
      l : ℕ
      l = min n (size - start)

      part : List ℕ
      part = take l (drop start bytes)

      rest : List ℕ
      rest = take (n - l) bytes

      length-part : length part ≡ l
      length-part = omega (arith, length-take l (drop start bytes), length-drop start bytes)

      length-rest : length rest ≡ n - l
      length-rest = omega (arith, length-take (n - l) bytes)
