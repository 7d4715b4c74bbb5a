-- ===== src/Crc/Reference.antt =====
-- CRC-32C (Castagnoli) as the shift register of its reflected polynomial, one bit at a time.
-- Nothing here is translated from tools/hash.c: it is what that file is compared with.
use pkt_sender.Prelude.{
  ℕ, zero, suc, ◌+◌, ◌*◌, ◌/◌, ◌%◌, ◌^◌, ◌<◌, bit_xor, ◌≡◌, refl, sym, ap, ◌∙◌, List, [], ◌∷◌,
  arith, if◌then◌else◌, ◌==◌, length,
}
use pkt_sender.Prelude.Bits.{
  bit_xor-half, bit_xor-parity, bit_xor-medial, bit_xor_assoc, bit_xor_comm, bit_xor_self,
  bit_xor-zero, zero-bit_xor, bit_xor-lt, bit_xor_fields, mul-pow-suc,
}
use native.Mathlib.Nat.{zero-add, suc-add}

-- 0x1edc6f41 with its 32 bits reversed.
abbrev pub polynomial : ℕ
polynomial = 0x82F63B78

unfoldable pub crc_bit : ℕ → ℕ
crc_bit c = if c % 2 == 0 then c / 2 else bit_xor (c / 2) polynomial

unfoldable pub crc_bits : ℕ → ℕ → ℕ
unfolding crc_bit
crc_bits zero c = c
crc_bits (suc n) c = crc_bits n (crc_bit c)

-- A message, byte by byte, each taken in at the low end of the register.
unfoldable pub crc_bytes : ℕ → List ℕ → ℕ
crc_bytes c [] = c
crc_bytes c (b ∷ bs) = crc_bytes (crc_bits 8 (bit_xor c b)) bs

-- The polynomial, where the bit shifted out is set.
feedback : ℕ → ℕ
feedback c = if c % 2 == 0 then 0 else polynomial

crc_bit-feedback : (c : ℕ) → crc_bit c ≡ bit_xor (c / 2) (feedback c)
unfolding crc_bit feedback
crc_bit-feedback c = ground (arith, bit_xor-zero (c / 2))

feedback-xor : (a b : ℕ) → feedback (bit_xor a b) ≡ bit_xor (feedback a) (feedback b)
unfolding feedback
feedback-xor a b = ground (
  arith,
  bit_xor-parity a b,
  bit_xor-zero polynomial,
  zero-bit_xor polynomial,
  bit_xor_self polynomial,
  bit_xor-zero 0,
)

-- The register is linear.
crc_bit-xor : (a b : ℕ) → crc_bit (bit_xor a b) ≡ bit_xor (crc_bit a) (crc_bit b)
crc_bit-xor a b =
    rw (crc_bit-feedback (bit_xor a b), crc_bit-feedback a, crc_bit-feedback b, bit_xor-half a b)
      (rw (feedback-xor a b) (bit_xor-medial (a / 2) (b / 2) (feedback a) (feedback b)))

pub crc_bits-xor : (n a b : ℕ) → crc_bits n (bit_xor a b) ≡ bit_xor (crc_bits n a) (crc_bits n b)
unfolding crc_bits
crc_bits-xor zero a b = refl
crc_bits-xor (suc n) a b = rw (crc_bit-xor a b) (crc_bits-xor n (crc_bit a) (crc_bit b))

pub crc_bits-add : (m n c : ℕ) → crc_bits (m + n) c ≡ crc_bits n (crc_bits m c)
unfolding crc_bits
crc_bits-add zero n c = rw (zero-add n)
crc_bits-add (suc m) n c = rw (suc-add m n) (crc_bits-add m n (crc_bit c))

-- Zeros at the low end are shifted out.
crc_bit-double : (q : ℕ) → crc_bit (2 * q) ≡ q
unfolding crc_bit
crc_bit-double q = ground arith

pub crc_bits-shift : (k q : ℕ) → crc_bits k (q * 2 ^ k) ≡ q
unfolding crc_bits
crc_bits-shift zero q = omega arith
crc_bits-shift (suc k) q = rw (mul-pow-suc q k, crc_bit-double (q * 2 ^ k)) (crc_bits-shift k q)

crc_bit-lt : (c : ℕ) → c < 2 ^ 32 → crc_bit c < 2 ^ 32
unfolding crc_bit
crc_bit-lt c h = ground (arith, bit_xor-lt 32 (c / 2) polynomial)

-- The register keeps to 32 bits.
pub crc_bits-lt : (n c : ℕ) → c < 2 ^ 32 → crc_bits n c < 2 ^ 32
unfolding crc_bits
crc_bits-lt zero c h = h
crc_bits-lt (suc n) c h = crc_bits-lt n (crc_bit c) (crc_bit-lt c h)

-- The low byte leaves first: it is stepped on its own, and the rest moves down.
pub crc_bits-low_byte :
    (m c : ℕ) → crc_bits (8 + m) c ≡ bit_xor (crc_bits (8 + m) (c % 256)) (crc_bits m (c / 256))
crc_bits-low_byte m c =
    ap (crc_bits (8 + m)) fields
    ∙ rw (crc_bits-xor (8 + m) (c / 256 * 2 ^ 8) (c % 256), crc_bits-add 8 m (c / 256 * 2 ^ 8))
        (rw (crc_bits-shift 8 (c / 256)) (bit_xor_comm _ _))
  where
    fields : c ≡ bit_xor (c / 256 * 2 ^ 8) (c % 256)
    fields = omega (arith, bit_xor_fields 8 (c / 256) (c % 256) (omega arith))

-- A number taken in whole is taken in byte by byte, the low byte first.
pub crc_bits-take_in :
    (m c b q : ℕ)
    → b < 256
    → crc_bits (8 + m) (bit_xor c (q * 256 + b)) ≡ crc_bits m (bit_xor (crc_bits 8 (bit_xor c b)) q)
crc_bits-take_in m c b q h =
    ap (crc_bits (8 + m)) regroup
    ∙ rw
        (
          crc_bits-add 8 m (bit_xor (bit_xor c b) (q * 2 ^ 8)),
          crc_bits-xor 8 (bit_xor c b) (q * 2 ^ 8),
        )
        (rw (crc_bits-shift 8 q))
  where
    regroup : bit_xor c (q * 256 + b) ≡ bit_xor (bit_xor c b) (q * 2 ^ 8)
    regroup =
        ap (bit_xor c) (sym (bit_xor_fields 8 q b (omega arith)) ∙ bit_xor_comm (q * 2 ^ 8) b)
        ∙ sym (bit_xor_assoc c b (q * 2 ^ 8))

-- The number that bytes spell, the low byte first.
unfoldable pub little_endian : List ℕ → ℕ
little_endian [] = 0
little_endian (b ∷ bs) = little_endian bs * 256 + b

abbrev pub AreBytes : List ℕ → Type 0
AreBytes [] = Unit
AreBytes (b ∷ bs) = (b < 256) × AreBytes bs

pub crc_bits-zero : (c : ℕ) → crc_bits 0 c ≡ c
unfolding crc_bits
crc_bits-zero c = refl

pub crc_bytes-little_endian :
    (bs : List ℕ) (c : ℕ)
    → AreBytes bs
    → crc_bits (8 * length bs) (bit_xor c (little_endian bs)) ≡ crc_bytes c bs
unfolding crc_bytes little_endian
crc_bytes-little_endian [] c h = crc_bits-zero (bit_xor c 0) ∙ bit_xor-zero c
crc_bytes-little_endian (b ∷ bs) c h =
    ap (λ (k : ℕ). crc_bits k (bit_xor c (little_endian bs * 256 + b))) eight_more
    ∙ crc_bits-take_in (8 * length bs) c b (little_endian bs) h.0
    ∙ crc_bytes-little_endian bs (crc_bits 8 (bit_xor c b)) h.1
  where
    eight_more : 8 * suc (length bs) ≡ 8 + 8 * length bs
    eight_more = omega arith
