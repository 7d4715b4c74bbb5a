-- ===== src/Ring/Blocks.antt =====
-- What the reader of a shared ring sees, and the line of the writers when it goes on.
use pkt_sender.Prelude.{
  ℕ, ◌+◌, ◌-◌, ◌≤◌, ◌<◌, ◌≡◌, refl, sym, ap, subst, ◌∙◌, inl, inr, arith, List, [], ◌∷◌, ◌++◌,
  length, get_or, ltb, Bool-cases, length-append, length-take,
}
use pkt_sender.Prelude.Arrays.{list_ext, get_or-append_left, get_or-append_right, get_or-take}
use pkt_sender.Ring.Window.{wrap, window, length-window, get_or-window}
use pkt_sender.Ring.Shared.{Ticket, block}
use pkt_sender.Ring.Pending.{byte_at, HoldsBlock, Chain, Chain-le}

module _ (size read : ℕ) where
  -- Windows from the read position, by their bytes.
  pub window_same :
      (bytes bytes' : List ℕ) (n : ℕ)
      → ((i : ℕ) → i < n → byte_at size read bytes i ≡ byte_at size read bytes' i)
      → window bytes size read n ≡ window bytes' size read n
  window_same bytes bytes' n same = list_ext _ _ 0 (rw (length-window, length-window) refl) λ i h.
      let below : i < n = rw length-window at h in
      get_or-window bytes size read n i below
      ∙ same i below
      ∙ sym (get_or-window bytes' size read n i below)

  -- A window grows by the block behind it.
  pub window-block :
      (bytes : List ℕ) (n : ℕ) (t : Ticket)
      → t.len ≤ length t.buffer
      → HoldsBlock size read bytes n t
      → window bytes size read (n + t.len) ≡ window bytes size read n ++ block t
  window-block bytes n t given holds = list_ext _ _ 0 as_long λ i h. elim (Bool-cases (ltb i n)) [
    | inl e ↦
        let below : i < n = ground arith in
        get_or-window bytes size read (n + t.len) i (omega arith)
        ∙ sym (get_or-window bytes size read n i below)
        ∙ sym (get_or-append_left (window bytes size read n) (block t) i 0 (rw length-window below))
    | inr e ↦
        let below : i < n + t.len = rw length-window at h in
        let le : n ≤ i = ground arith in
        let back : n + (i - n) ≡ i = omega arith in
        get_or-window bytes size read (n + t.len) i below
        ∙ ap (λ (j : ℕ). byte_at size read bytes j) (sym back)
        ∙ holds (i - n) (omega arith)
        ∙ sym (get_or-take t.len t.buffer (i - n) 0 (omega arith))
        ∙ sym (
            get_or-append_right (window bytes size read n) (block t) i (i - n) 0
              (rw length-window (sym back)))
  ]
    where
      as_long :
          length (window bytes size read (n + t.len)) ≡ length (window bytes size read n ++ block t)
      as_long =
          rw (length-append, length-window, length-window)
            (omega (arith, length-take t.len t.buffer))

-- The reader goes on by `n` bytes, and every distance shrinks by them.
module _ (size read n : ℕ) (in_size : read < size) (bytes : List ℕ) where
  wrap_moved :
      (i : ℕ) → n ≤ i → i < size → wrap size (wrap size (read + n) + (i - n)) ≡ wrap size (read + i)
  wrap_moved i le lt = ground arith

  pub Chain-moved :
      (total off : ℕ) (ts : List Ticket)
      → n ≤ off
      → total < size
      → Chain size read bytes total off ts
      → Chain size (wrap size (read + n)) bytes (total - n) (off - n) ts
  Chain-moved total off [] le lt c = omega arith
  Chain-moved total off (t ∷ ts) le lt c =
      let within = Chain-le size read bytes total (off + t.len) ts c.5 in
      let shifted : (m : ℕ) → off - n + m ≡ off + m - n = λ m. omega arith in
      (
        c.0 ∙ sym (wrap_moved off le (omega arith)),
        c.1
            ∙ sym (wrap_moved (off + t.len) (omega arith) (omega arith))
            ∙ ap (λ (i : ℕ). wrap size (wrap size (read + n) + i)) (sym (shifted t.len)),
        c.2,
        c.3,
        (λ e m h.
            ap (λ (i : ℕ). get_or bytes (wrap size (wrap size (read + n) + i)) 0) (shifted m)
            ∙ ap (λ (i : ℕ). get_or bytes i 0) (wrap_moved (off + m) (omega arith) (omega arith))
            ∙ c.4 e m h),
        subst (λ (i : ℕ). Chain size (wrap size (read + n)) bytes (total - n) i ts)
            (sym (shifted t.len)) (Chain-moved total (off + t.len) ts (omega arith) lt c.5),
      )
