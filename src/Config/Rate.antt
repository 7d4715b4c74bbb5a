-- ===== src/Config/Rate.antt =====
-- `__parse_rate` of src/main.c, after `strtol` has read the number.
use pkt_sender.Prelude.{ℕ, ◌*◌, ◌%◌, ◌^◌, Bool, ◌||◌, if◌then◌else◌, ◌==◌}

-- What `strtol` gives: whether it fails (`errno` is EINVAL or ERANGE, or there is no digit), the sign
-- and the size of the number, and the character behind it.
pub record Strtol : Type 0 where
  pub fails : Bool
  pub negative : Bool
  pub val : ℕ
  pub unit : ℕ

-- The cases of the `switch`: 'k' and 'K', 'm' and 'M', 'g' and 'G', and any other character.
unfoldable pub scale : ℕ → ℕ → ℕ
scale unit val =
    if (unit == 107) || (unit == 75)
    then val * 2 ^ 10
    else if (unit == 109) || (unit == 77)
    then val * 2 ^ 20
    else if (unit == 103) || (unit == 71)
    then val * 2 ^ 40
    else val

unfoldable pub parse_rate : Strtol → ℕ
parse_rate r = if r.fails then 0 else if r.negative then 0 else scale r.unit r.val % 2 ^ 64
