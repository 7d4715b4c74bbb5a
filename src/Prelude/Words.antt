-- ===== src/Prelude/Words.antt =====
-- `uint32_t` arithmetic: numbers below 2 ^ 32, with the wrap written out.
use Prim.Native.Nat.{ℕ, zero, suc, ◌+◌, ◌-◌, ◌*◌, ◌%◌, ◌^◌, ◌≤◌, ◌<◌, bit_and}
use mathlib.Core.Path.{◌≡◌, refl, sym, ap, ◌∙◌}
use native.Mathlib.Nat.{
  mod-eq_of_lt, mod-eq-sub-mod, pow-suc, one-le-pow, pow-le-pow_right, add-zero, add-suc, mul-one,
  mul_assoc, mul-sub, add-mul-mod_self_left,
}
use native.Mathlib.Omega.{arith}
use pkt_sender.Prelude.Tests.{ltb, leb, if◌then◌else◌}
use pkt_sender.Prelude.Bits.{bit_and-mask}

abbrev pub u32_mod : ℕ
u32_mod = 2 ^ 32

unfoldable pub add32 : ℕ → ℕ → ℕ
add32 a b = (a + b) % u32_mod

unfoldable pub sub32 : ℕ → ℕ → ℕ
sub32 a b = (a + u32_mod - b) % u32_mod

pub two-pow-add : (a b : ℕ) → 2 ^ (a + b) ≡ 2 ^ a * 2 ^ b
two-pow-add a zero = rw add-zero (sym (mul-one (2 ^ a)))
two-pow-add a (suc b) =
    rw (add-suc, pow-suc 2 (a + b), pow-suc 2 b, two-pow-add a b) (mul_assoc (2 ^ a) (2 ^ b) 2)

-- The sizes of a ring: the powers of two of which a mask selects the low bits.
module _ (k size : ℕ) (e : size ≡ 2 ^ k) (small : k ≤ 31) where
  pub size-pos : 0 < size
  size-pos = omega (arith, one-le-pow k 2)

  pub size-le : size ≤ 2 ^ 31
  size-le = rw e (pow-le-pow_right (omega arith) small)

  divides : u32_mod ≡ size * 2 ^ (32 - k)
  divides = rw (e, ← two-pow-add k (32 - k), all_bits) refl
    where
      all_bits : k + (32 - k) ≡ 32
      all_bits = omega arith

  -- `x & (size - 1)`
  pub bit_and-mask32 : (x : ℕ) → bit_and x (sub32 size 1) ≡ x % size
  unfolding sub32
  bit_and-mask32 x = rw (mask, e) (bit_and-mask k x)
    where
      mask : (size + 4294967296 - 1) % 4294967296 ≡ size - 1
      mask = omega (arith, size-pos, size-le)

  sub32-ahead : (a b : ℕ) → a < size → b ≤ a → sub32 a b % size ≡ a - b
  unfolding sub32
  sub32-ahead a b ha le = rw no_wrap (mod-eq_of_lt (omega arith))
    where
      no_wrap : (a + 4294967296 - b) % 4294967296 ≡ a - b
      no_wrap = omega (arith, size-le)

  sub32-around : (a b : ℕ) → b < size → a < b → sub32 a b % size ≡ a + size - b
  unfolding sub32
  sub32-around a b hb lt =
      rw wrapped (add-mul-mod_self_left (a + size - b) size q ∙ mod-eq_of_lt (omega arith))
    where
      q : ℕ
      q = 2 ^ (32 - k) - 1

      wrapped : (a + 4294967296 - b) % 4294967296 ≡ a + size - b + size * q
      wrapped = omega (arith, size-le, divides, mul-sub size (2 ^ (32 - k)) 1)

  -- The wrapping difference of two positions is their distance round the ring.
  pub mask-sub32 :
      (a b : ℕ)
      → a < size
      → b < size
      → bit_and (sub32 a b) (sub32 size 1) ≡ (if leb b a then a - b else a + size - b)
  mask-sub32 a b ha hb =
      bit_and-mask32 (sub32 a b) ∙ ground (arith, sub32-ahead a b, sub32-around a b)

  add32-mod : (a n : ℕ) → a < size → n ≤ size → add32 a n % size ≡ (a + n) % size
  unfolding add32
  add32-mod a n ha hn = ap (λ (x : ℕ). x % size) no_wrap
    where
      no_wrap : (a + n) % 4294967296 ≡ a + n
      no_wrap = omega (arith, size-le)

  -- A position moved on by at most the size.
  pub mask-add32 :
      (a n : ℕ)
      → a < size
      → n ≤ size
      → bit_and (add32 a n) (sub32 size 1) ≡ (if ltb (a + n) size then a + n else a + n - size)
  mask-add32 a n ha hn =
      bit_and-mask32 (add32 a n)
      ∙ add32-mod a n ha hn
      ∙ ground (
        arith,
        mod-eq_of_lt {n = a + n} {m = size},
        mod-eq-sub-mod {n = a + n} {m = size},
        mod-eq_of_lt {n = a + n - size} {m = size},
      )
