-- ===== src/Crc/Message.antt =====
-- `hash_crc32c` over a whole message.
use pkt_sender.Prelude.{
  ℕ, suc, ◌+◌, ◌*◌, ◌/◌, ◌^◌, ◌<◌, bit_and, bit_or, bit_xor, ◌≡◌, refl, ap, ◌∙◌, List, [], ◌∷◌,
  arith, length,
}
use pkt_sender.Prelude.Bits.{bit_and-mask, bit_or-disjoint, zero-bit_or, bit_xor-lt}
use pkt_sender.Crc.Reference.{
  crc_bits, crc_bytes, little_endian, AreBytes, crc_bytes-little_endian, crc_bits-lt,
}
use pkt_sender.Crc.Hash.{crc32c_u32, crc32c_u64, hash_crc32c}
use pkt_sender.Crc.Slicing.{crc32c_u32-eq-crc_bits, crc32c_u64-eq-crc_bits}

-- Zeros after the message, up to a multiple of four bytes, or of eight where five to seven are left.
unfoldable pub zero_pad : List ℕ → List ℕ
zero_pad [] = []
zero_pad (a ∷ []) = a ∷ 0 ∷ 0 ∷ 0 ∷ []
zero_pad (a ∷ b ∷ []) = a ∷ b ∷ 0 ∷ 0 ∷ []
zero_pad (a ∷ b ∷ c ∷ []) = a ∷ b ∷ c ∷ 0 ∷ []
zero_pad (a ∷ b ∷ c ∷ d ∷ []) = a ∷ b ∷ c ∷ d ∷ []
zero_pad (a ∷ b ∷ c ∷ d ∷ e ∷ []) = a ∷ b ∷ c ∷ d ∷ e ∷ 0 ∷ 0 ∷ 0 ∷ []
zero_pad (a ∷ b ∷ c ∷ d ∷ e ∷ f ∷ []) = a ∷ b ∷ c ∷ d ∷ e ∷ f ∷ 0 ∷ 0 ∷ []
zero_pad (a ∷ b ∷ c ∷ d ∷ e ∷ f ∷ g ∷ []) = a ∷ b ∷ c ∷ d ∷ e ∷ f ∷ g ∷ 0 ∷ []
zero_pad (a ∷ b ∷ c ∷ d ∷ e ∷ f ∷ g ∷ h ∷ rest) = a ∷ b ∷ c ∷ d ∷ e ∷ f ∷ g ∷ h ∷ zero_pad rest

four_bytes :
    (a b c d word init_val : ℕ)
    → AreBytes (a ∷ b ∷ c ∷ d ∷ [])
    → word ≡ little_endian (a ∷ b ∷ c ∷ d ∷ [])
    → init_val < 2 ^ 32
    → crc32c_u32 word init_val ≡ crc_bytes init_val (a ∷ b ∷ c ∷ d ∷ [])
unfolding little_endian
four_bytes a b c d word init_val bytes e h =
    crc32c_u32-eq-crc_bits word init_val (omega arith) h
    ∙ ap (λ (w : ℕ). crc_bits 32 (bit_xor init_val w)) e
    ∙ crc_bytes-little_endian (a ∷ b ∷ c ∷ d ∷ []) init_val bytes

eight_bytes :
    (a b c d e f g h word init_val : ℕ)
    → AreBytes (a ∷ b ∷ c ∷ d ∷ e ∷ f ∷ g ∷ h ∷ [])
    → word ≡ little_endian (a ∷ b ∷ c ∷ d ∷ e ∷ f ∷ g ∷ h ∷ [])
    → init_val < 2 ^ 32
    → crc32c_u64 word init_val ≡ crc_bytes init_val (a ∷ b ∷ c ∷ d ∷ e ∷ f ∷ g ∷ h ∷ [])
unfolding little_endian
eight_bytes a b c d e f g h word init_val bytes eq small =
    crc32c_u64-eq-crc_bits word init_val (omega arith) small
    ∙ ap (λ (w : ℕ). crc_bits 64 (bit_xor init_val w)) eq
    ∙ crc_bytes-little_endian (a ∷ b ∷ c ∷ d ∷ e ∷ f ∷ g ∷ h ∷ []) init_val bytes

-- The bytes that the `switch` gathers in `temp`, as a little-endian number.
or_2 :
    (a b : ℕ)
    → AreBytes (a ∷ b ∷ [])
    → bit_or (bit_or 0 (b * 2 ^ 8)) a ≡ little_endian (a ∷ b ∷ 0 ∷ 0 ∷ [])
unfolding little_endian
or_2 a b h =
    rw (zero-bit_or, bit_or-disjoint 8 (b * 2 ^ 8) a (omega arith) (omega arith)) (omega arith)

or_3 :
    (a b c : ℕ)
    → AreBytes (a ∷ b ∷ c ∷ [])
    → bit_or (bit_or (bit_or 0 (c * 2 ^ 16)) (b * 2 ^ 8)) a ≡ little_endian (a ∷ b ∷ c ∷ 0 ∷ [])
unfolding little_endian
or_3 a b c h =
    rw (zero-bit_or, bit_or-disjoint 16 (c * 2 ^ 16) (b * 2 ^ 8) (omega arith) (omega arith))
      (bit_or-disjoint 8 (c * 2 ^ 16 + b * 2 ^ 8) a (omega arith) (omega arith) ∙ omega arith)

or_5 :
    (a b c d e : ℕ)
    → AreBytes (a ∷ b ∷ c ∷ d ∷ e ∷ [])
    → bit_or (bit_or 0 (e * 2 ^ 32)) (little_endian (a ∷ b ∷ c ∷ d ∷ []))
      ≡ little_endian (a ∷ b ∷ c ∷ d ∷ e ∷ 0 ∷ 0 ∷ 0 ∷ [])
unfolding little_endian
or_5 a b c d e h =
    rw zero-bit_or (bit_or-disjoint 32 (e * 2 ^ 32) _ (omega arith) (omega arith) ∙ omega arith)

or_6 :
    (a b c d e f : ℕ)
    → AreBytes (a ∷ b ∷ c ∷ d ∷ e ∷ f ∷ [])
    → bit_or (bit_or (bit_or 0 (f * 2 ^ 40)) (e * 2 ^ 32)) (little_endian (a ∷ b ∷ c ∷ d ∷ []))
      ≡ little_endian (a ∷ b ∷ c ∷ d ∷ e ∷ f ∷ 0 ∷ 0 ∷ [])
unfolding little_endian
or_6 a b c d e f h =
    rw (zero-bit_or, bit_or-disjoint 40 (f * 2 ^ 40) (e * 2 ^ 32) (omega arith) (omega arith))
      (bit_or-disjoint 32 (f * 2 ^ 40 + e * 2 ^ 32) _ (omega arith) (omega arith) ∙ omega arith)

or_7 :
    (a b c d e f g : ℕ)
    → AreBytes (a ∷ b ∷ c ∷ d ∷ e ∷ f ∷ g ∷ [])
    → bit_or
        (bit_or (bit_or (bit_or 0 (g * 2 ^ 48)) (f * 2 ^ 40)) (e * 2 ^ 32))
        (little_endian (a ∷ b ∷ c ∷ d ∷ []))
      ≡ little_endian (a ∷ b ∷ c ∷ d ∷ e ∷ f ∷ g ∷ 0 ∷ [])
unfolding little_endian
or_7 a b c d e f g h =
    rw (zero-bit_or, bit_or-disjoint 48 (g * 2 ^ 48) (f * 2 ^ 40) (omega arith) (omega arith))
      (rw (bit_or-disjoint 40 (g * 2 ^ 48 + f * 2 ^ 40) (e * 2 ^ 32) (omega arith) (omega arith)) (
        bit_or-disjoint 32 (g * 2 ^ 48 + f * 2 ^ 40 + e * 2 ^ 32) _ (omega arith) (omega arith)
        ∙ omega arith))

crc_bytes-lt : (bs : List ℕ) (c : ℕ) → AreBytes bs → c < 2 ^ 32 → crc_bytes c bs < 2 ^ 32
unfolding crc_bytes
crc_bytes-lt [] c bytes h = h
crc_bytes-lt (b ∷ bs) c bytes h =
    crc_bytes-lt bs _ bytes.1 (crc_bits-lt 8 (bit_xor c b) (bit_xor-lt 32 c b h (omega arith)))

-- One round of the loop.
hash_crc32c_round :
    (a b c d e f g h : ℕ) (rest : List ℕ) (init_val : ℕ)
    → hash_crc32c
        (a ∷ b ∷ c ∷ d ∷ e ∷ f ∷ g ∷ h ∷ rest)
        (length (a ∷ b ∷ c ∷ d ∷ e ∷ f ∷ g ∷ h ∷ rest))
        init_val
      ≡ hash_crc32c rest
          (length rest)
          (crc32c_u64 (little_endian (a ∷ b ∷ c ∷ d ∷ e ∷ f ∷ g ∷ h ∷ [])) init_val)
unfolding hash_crc32c
hash_crc32c_round a b c d e f g h rest init_val = rw (rounds, left_over)
  where
    n : ℕ
    n = length (a ∷ b ∷ c ∷ d ∷ e ∷ f ∷ g ∷ h ∷ rest)

    rounds : n / 8 ≡ suc (length rest / 8)
    rounds = omega arith

    left_over : bit_and n 7 ≡ bit_and (length rest) 7
    left_over = omega (arith, bit_and-mask 3 n, bit_and-mask 3 (length rest))

-- For bytes and a 32-bit start value, `hash_crc32c` is the CRC-32C register, run bit by bit over
-- the message followed by the zeros that its tail adds.
pub hash_crc32c-eq-crc_bytes :
    (bytes : List ℕ) (init_val : ℕ)
    → AreBytes bytes
    → init_val < 2 ^ 32
    → hash_crc32c bytes (length bytes) init_val ≡ crc_bytes init_val (zero_pad bytes)
unfolding hash_crc32c zero_pad crc_bytes little_endian
hash_crc32c-eq-crc_bytes [] init_val bytes h = refl
hash_crc32c-eq-crc_bytes (a ∷ []) init_val bytes h =
    four_bytes a 0 0 0 _ init_val (omega arith) (zero-bit_or a ∙ omega arith) h
hash_crc32c-eq-crc_bytes (a ∷ b ∷ []) init_val bytes h =
    four_bytes a b 0 0 _ init_val (omega arith) (or_2 a b bytes) h
hash_crc32c-eq-crc_bytes (a ∷ b ∷ c ∷ []) init_val bytes h =
    four_bytes a b c 0 _ init_val (omega arith) (or_3 a b c bytes) h
hash_crc32c-eq-crc_bytes (a ∷ b ∷ c ∷ d ∷ []) init_val bytes h =
    four_bytes a b c d _ init_val bytes refl h
hash_crc32c-eq-crc_bytes (a ∷ b ∷ c ∷ d ∷ e ∷ []) init_val bytes h =
    eight_bytes a b c d e 0 0 0 _ init_val (omega arith) (or_5 a b c d e bytes) h
hash_crc32c-eq-crc_bytes (a ∷ b ∷ c ∷ d ∷ e ∷ f ∷ []) init_val bytes h =
    eight_bytes a b c d e f 0 0 _ init_val (omega arith) (or_6 a b c d e f bytes) h
hash_crc32c-eq-crc_bytes (a ∷ b ∷ c ∷ d ∷ e ∷ f ∷ g ∷ []) init_val bytes h =
    eight_bytes a b c d e f g 0 _ init_val (omega arith) (or_7 a b c d e f g bytes) h
hash_crc32c-eq-crc_bytes (a ∷ b ∷ c ∷ d ∷ e ∷ f ∷ g ∷ k ∷ rest) init_val bytes h =
    hash_crc32c_round a b c d e f g k rest init_val
    ∙ ap (hash_crc32c rest (length rest))
        (eight_bytes a b c d e f g k _ init_val (omega arith) refl h)
    ∙ hash_crc32c-eq-crc_bytes rest (crc_bytes init_val first) bytes.1.1.1.1.1.1.1.1
        (crc_bytes-lt first init_val (omega arith) h)
  where
    first : List ℕ
    first = a ∷ b ∷ c ∷ d ∷ e ∷ f ∷ g ∷ k ∷ []
