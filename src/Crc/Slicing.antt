-- ===== src/Crc/Slicing.antt =====
-- The table-driven steps of tools/hash.c are the bitwise steps, 32 or 64 at a time.
use pkt_sender.Prelude.{
  ℕ, suc, ◌+◌, ◌-◌, ◌*◌, ◌/◌, ◌%◌, ◌^◌, ◌<◌, bit_and, bit_xor, ◌≡◌, sym, ap, ap₂, ◌∙◌, arith,
  get_or,
}
use pkt_sender.Prelude.Bits.{
  bit_and-mask, bit_xor_assoc, bit_xor_comm, bit_xor_fields, bit_xor-lt, bit_xor-zero,
}
use pkt_sender.Crc.Reference.{
  crc_bits, crc_bits-low_byte, crc_bits-xor, crc_bits-add, crc_bits-shift,
}
use native.Mathlib.Nat.{zero-mul}
use pkt_sender.Crc.Tables.{crc32c_tables, crc32c_tables-step}
use pkt_sender.Crc.Hash.{crc32_upd, crc32c_u32, crc32c_u64}

entry-step :
    (k c : ℕ) → k < 8 → get_or (crc32c_tables k) (bit_and c 0xff) 0 ≡ crc_bits (8 * suc k) (c % 256)
entry-step k c h =
    ap (λ (x : ℕ). get_or (crc32c_tables k) x 0) (bit_and-mask 8 c)
    ∙ crc32c_tables-step k (c % 256) h (omega arith)

peel :
    (k c : ℕ)
    → crc_bits (8 * suc k) c ≡ bit_xor (crc_bits (8 * suc k) (c % 256)) (crc_bits (8 * k) (c / 256))
peel k c = rw e (crc_bits-low_byte (8 * k) c)
  where
    e : 8 * suc k ≡ 8 + 8 * k
    e = omega arith

-- Two table entries are two bytes' steps.
upd-step :
    (n c : ℕ)
    → suc n < 8
    → bit_xor (crc32_upd c (suc n)) (crc_bits (8 * n) (c / 2 ^ 16)) ≡ crc_bits (8 * suc (suc n)) c
unfolding crc32_upd
upd-step n c h =
    rw
      (
        one_less,
        entry-step (suc n) c h,
        entry-step n (c / 2 ^ 8) (omega arith),
        peel (suc n) c,
        peel n (c / 256),
        bit_xor_assoc,
      )
      (rw two_bytes)
  where
    one_less : suc n - 1 ≡ n
    one_less = omega arith

    two_bytes : c / 256 / 256 ≡ c / 2 ^ 16
    two_bytes = omega arith

crc_bits-of_zero : (n : ℕ) → crc_bits n 0 ≡ 0
crc_bits-of_zero n = rw (zero-mul (2 ^ n)) at (crc_bits-shift n 0)

-- A register of 32 bits is used up by two such pairs.
two_upds :
    (n c : ℕ)
    → n < 5
    → c < 2 ^ 32
    → bit_xor (crc32_upd c (suc (suc (suc n)))) (crc32_upd (c / 2 ^ 16) (suc n))
      ≡ crc_bits (8 * suc (suc (suc (suc n)))) c
two_upds n c h small =
    ap (bit_xor (crc32_upd c (suc (suc (suc n)))))
      (rw (used_up, crc_bits-of_zero, bit_xor-zero) at (upd-step n (c / 2 ^ 16) (omega arith)))
    ∙ upd-step (suc (suc n)) c (omega arith)
  where
    used_up : c / 2 ^ 16 / 2 ^ 16 ≡ 0
    used_up = omega arith

-- For a 32-bit word and a 32-bit register, the step through four tables is 32 steps of the
-- bit-serial register.
pub crc32c_u32-eq-crc_bits :
    (word init_val : ℕ)
    → word < 2 ^ 32
    → init_val < 2 ^ 32
    → crc32c_u32 word init_val ≡ crc_bits 32 (bit_xor init_val word)
unfolding crc32c_u32
crc32c_u32-eq-crc_bits word init_val hw hi =
    two_upds 0 (bit_xor init_val word) (omega arith) (bit_xor-lt 32 init_val word hi hw)

-- For a 64-bit word and a 32-bit register, the step through the eight tables is 64 steps of the
-- bit-serial register.
pub crc32c_u64-eq-crc_bits :
    (word init_val : ℕ)
    → word < 2 ^ 64
    → init_val < 2 ^ 32
    → crc32c_u64 word init_val ≡ crc_bits 64 (bit_xor init_val word)
unfolding crc32c_u64
crc32c_u64-eq-crc_bits word init_val hw hi =
    ap₂ bit_xor
      (two_upds 4 (bit_xor init_val low) (omega arith)
        (bit_xor-lt 32 init_val low hi (omega arith)))
      (two_upds 0 high (omega arith) (omega arith))
    ∙ ap (bit_xor (crc_bits 64 (bit_xor init_val low))) (sym shifted)
    ∙ sym (crc_bits-xor 64 (bit_xor init_val low) (high * 2 ^ 32))
    ∙ ap (crc_bits 64) regroup
  where
    low : ℕ
    low = word % 2 ^ 32

    high : ℕ
    high = word / 2 ^ 32 % 2 ^ 32

    shifted : crc_bits 64 (high * 2 ^ 32) ≡ crc_bits 32 high
    shifted = crc_bits-add 32 32 (high * 2 ^ 32) ∙ ap (crc_bits 32) (crc_bits-shift 32 high)

    halves : bit_xor low (high * 2 ^ 32) ≡ word
    halves =
        bit_xor_comm low (high * 2 ^ 32) ∙ bit_xor_fields 32 high low (omega arith) ∙ omega arith

    regroup : bit_xor (bit_xor init_val low) (high * 2 ^ 32) ≡ bit_xor init_val word
    regroup = bit_xor_assoc init_val low (high * 2 ^ 32) ∙ ap (bit_xor init_val) halves
