-- ===== src/Ring/Round.antt =====
-- `is_power_of_2` and `__roundup_2`: the size that a ring gets.
use pkt_sender.Prelude.{
  ℕ, zero, suc, ◌+◌, ◌-◌, ◌*◌, ◌/◌, ◌%◌, ◌^◌, ◌≤◌, ◌<◌, bit_and, bit_or, ◌≡◌, refl, ap, ◌∙◌, true,
  false, arith, dec_lt,
}
use pkt_sender.Prelude.Bits.{bit_or_step, bit_and_step, mul-pow-suc}
use pkt_sender.Prelude.Words.{add32, sub32, two-pow-add, bit_and-mask32}
use native.Mathlib.Nat.{
  pow-suc, one-le-pow, pow-le-pow_right, div-add-mod', div-le_self, mod-lt, mod_self,
  div-lt_iff_lt-mul, le-div_iff_mul-le, mul-sub, lt_of_mul-lt-mul_left, le_of_suc-le-suc, mul_comm,
  mul-le-mul_left,
}
use pkt_sender.Ring.Defs.{is_power_of_2, roundup_2, smear}

le-bit_or_fuel : (n a b : ℕ) → a + b ≤ n → a ≤ bit_or a b
le-bit_or_fuel zero a b h = omega arith
le-bit_or_fuel (suc n) a b h =
    omega (arith, bit_or_step a b, le-bit_or_fuel n (a / 2) (b / 2) (omega arith))

bit_or-lt : (k a b : ℕ) → a < 2 ^ k → b < 2 ^ k → bit_or a b < 2 ^ k
bit_or-lt zero zero zero p q = omega arith
bit_or-lt zero zero (suc b) p q = absurd (omega arith)
bit_or-lt zero (suc a) b p q = absurd (omega arith)
bit_or-lt (suc k) a b p q =
    ground (arith, bit_or_step a b, bit_or-lt k (a / 2) (b / 2), pow-suc 2 k)

-- Where `b` is below `2 ^ k` the higher bits are those of `a`, and the lower at least `b`.
bit_or-ge : (k q r b : ℕ) → r < 2 ^ k → b < 2 ^ k → q * 2 ^ k + b ≤ bit_or (q * 2 ^ k + r) b
bit_or-ge zero q r b hr hb =
    omega (arith, le-bit_or_fuel (q * 1 + r + b) (q * 1 + r) b (omega arith))
bit_or-ge (suc k) q r b hr hb = ground (
  arith,
  bit_or_step (q * 2 ^ suc k + r) b,
  mul-pow-suc q k,
  bit_or-ge k q (r / 2) (b / 2),
  pow-suc 2 k,
)

-- The upper `j` of `k` bits are set.
record IsSmeared (k j x : ℕ) : Type 0 where
  below : x < 2 ^ k
  set_bits : 2 ^ k ≤ x + 2 ^ (k - j)

module _ (k j x : ℕ) (h : IsSmeared k j x) where
  shifted-lt : x / 2 ^ j < 2 ^ k
  shifted-lt = omega (arith, h.below, div-le_self x (2 ^ j))

  -- All bits are set already.
  smear-past : k ≤ j → IsSmeared k (j + j) (bit_or x (x / 2 ^ j))
  smear-past past = record {
    below = bit_or-lt k x (x / 2 ^ j) h.below shifted-lt;
    set_bits = omega (
      arith,
      h.set_bits,
      last,
      le-bit_or_fuel (x + x / 2 ^ j) x (x / 2 ^ j) (omega arith),
      one-le-pow (k - (j + j)) 2,
    );
  }
    where
      last : 2 ^ (k - j) ≡ 1
      last = ap (λ (n : ℕ). 2 ^ n) {y = 0} (omega arith)

  module _ (within : j ≤ k) where
    -- `high` is the weight of the lowest bit known to be set.
    abbrev high : ℕ
    high = 2 ^ (k - j)

    abbrev next : ℕ
    next = 2 ^ (k - (j + j))

    whole : 2 ^ k ≡ high * 2 ^ j
    whole = ap (λ (n : ℕ). 2 ^ n) {y = k - j + j} (omega arith) ∙ two-pow-add (k - j) j

    high-le : high ≤ next * 2 ^ j
    high-le = rw (← two-pow-add (k - (j + j)) j) (pow-le-pow_right (omega arith) (omega arith))

    shifted-high : x / 2 ^ j < high
    shifted-high =
        (div-lt_iff_lt-mul (one-le-pow j 2 (omega arith))).1 (omega (arith, whole, h.below))

    shifted-ge : high - next ≤ x / 2 ^ j
    shifted-ge = (le-div_iff_mul-le (one-le-pow j 2 (omega arith))).1 (
        rw (mul_comm (high - next) (2 ^ j), mul-sub (2 ^ j) high next)
          (omega (arith, whole, high-le, h.set_bits)))

    upper : 2 ^ k ≤ x / high * high + high
    upper = omega (arith, whole, mul-le-mul_left high quotient)
      where
        quotient : 2 ^ j ≤ x / high + 1
        quotient = le_of_suc-le-suc (
            lt_of_mul-lt-mul_left high (
              omega (
                arith,
                whole,
                h.set_bits,
                div-add-mod' x high,
                mod-lt x (one-le-pow (k - j) 2 (omega arith)),
              )))

    smear-within : IsSmeared k (j + j) (bit_or x (x / 2 ^ j))
    smear-within = record {
      below = bit_or-lt k x (x / 2 ^ j) h.below shifted-lt;
      set_bits = omega (arith, upper, shifted-ge, bits);
    }
      where
        bits : x / high * high + x / 2 ^ j ≤ bit_or x (x / 2 ^ j)
        bits = rw div-add-mod' at (
            bit_or-ge (k - j) (x / high) (x % high) (x / 2 ^ j)
              (mod-lt x (one-le-pow (k - j) 2 (omega arith))) shifted-high)

smear-IsSmeared : (k j x : ℕ) → IsSmeared k j x → IsSmeared k (j + j) (smear x (2 ^ j))
unfolding smear
smear-IsSmeared k j x h = elim (dec_lt k j) [
  | yes over ↦ smear-past k j x h (omega arith)
  | no within ↦ smear-within k j x h (omega arith)
]

half_of_pow : (k n : ℕ) → 2 ^ k < 2 * n → 2 ^ k ≤ n - 1 + 2 ^ (k - 1)
half_of_pow zero n h = omega arith
half_of_pow (suc k) n h = rw one_less (omega (arith, pow-suc 2 k))
  where
    one_less : suc k - 1 ≡ k
    one_less = omega arith

-- For k up to 31 and a number above half of 2 ^ k and up to 2 ^ k, `__roundup_2` gives 2 ^ k.
pub roundup_2-eq-pow : (k n : ℕ) → k ≤ 31 → n ≤ 2 ^ k → 2 ^ k < 2 * n → roundup_2 n ≡ 2 ^ k
unfolding roundup_2
roundup_2-eq-pow k n small le lt =
    unfold add32 in omega (arith, done.below, done.set_bits, last, bound)
  where
    bound : 2 ^ k ≤ 2 ^ 31
    bound = pow-le-pow_right (omega arith) small

    last : 2 ^ (k - 32) ≡ 1
    last = ap (λ (e : ℕ). 2 ^ e) {y = 0} (omega arith)

    x : ℕ
    x = sub32 n 1

    start : IsSmeared k 1 x
    start = record {
      below = unfold sub32 in omega (arith, bound);
      set_bits = unfold sub32 in omega (arith, bound, half_of_pow k n lt);
    }

    done :
        IsSmeared k 32
          (smear (smear (smear (smear (smear x (2 ^ 1)) (2 ^ 2)) (2 ^ 4)) (2 ^ 8)) (2 ^ 16))
    done = smear-IsSmeared k 16 _ (
        smear-IsSmeared k 8 _
          (smear-IsSmeared k 4 _ (smear-IsSmeared k 2 _ (smear-IsSmeared k 1 x start))))

bit_and_top : (k a b : ℕ) → a < 2 ^ k → b < 2 ^ k → 2 ^ k ≤ bit_and (2 ^ k + a) (2 ^ k + b)
bit_and_top zero zero zero p q = omega arith
bit_and_top zero zero (suc b) p q = absurd (omega arith)
bit_and_top zero (suc a) b p q = absurd (omega arith)
bit_and_top (suc k) a b p q = ground (
  arith,
  bit_and_step (2 ^ suc k + a) (2 ^ suc k + b),
  pow-suc 2 k,
  bit_and_top k (a / 2) (b / 2),
)

-- `is_power_of_2` holds of the powers of two.
pub is_power_of_2-pow : (k : ℕ) → k ≤ 31 → is_power_of_2 (2 ^ k) ≡ true
unfolding is_power_of_2
is_power_of_2-pow k small = rw none_in_common (ground (arith, one-le-pow k 2))
  where
    none_in_common : bit_and (2 ^ k) (sub32 (2 ^ k) 1) ≡ 0
    none_in_common = bit_and-mask32 k (2 ^ k) refl small (2 ^ k) ∙ mod_self (2 ^ k)

-- It holds of no number between two of them.
pub is_power_of_2-between : (k n : ℕ) → k ≤ 31 → 2 ^ k < n → n < 2 ^ suc k → is_power_of_2 n ≡ false
unfolding is_power_of_2
is_power_of_2-between k n small lo hi = ground (arith, top, one-le-pow k 2)
  where
    upto : suc k ≤ 32
    upto = omega arith

    bound : 2 ^ suc k ≤ 2 ^ 32
    bound = pow-le-pow_right (omega arith) upto

    n_is : 2 ^ k + (n - 2 ^ k) ≡ n
    n_is = omega arith

    less_is : 2 ^ k + (n - 1 - 2 ^ k) ≡ sub32 n 1
    less_is = unfold sub32 in omega (arith, bound)

    top : 2 ^ k ≤ bit_and n (sub32 n 1)
    top =
        rw (n_is, less_is) at
          (bit_and_top k (n - 2 ^ k) (n - 1 - 2 ^ k) (omega (arith, pow-suc 2 k))
            (omega (arith, pow-suc 2 k)))
