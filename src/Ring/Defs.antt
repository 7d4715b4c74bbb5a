-- ===== src/Ring/Defs.antt =====
-- The structure and the functions of tools/ringbuffer.c. A byte is only moved, so it is any number.
use pkt_sender.Prelude.{
  ℕ, ◌-◌, ◌/◌, ◌^◌, bit_and, bit_or, Bool, not, ◌&&◌, List, [], ◌++◌, Option, none, some,
  if◌then◌else◌, ltb, leb, ◌==◌, take, drop,
}
use pkt_sender.Prelude.Arrays.{blit}
use pkt_sender.Prelude.Words.{add32, sub32}

-- `struct ringbuffer`, its `data_size` bytes of data behind it.
pub record Ring : Type 0 where
  pub is_mmap : ℕ
  pub size : ℕ
  pub data_size : ℕ
  pub read_pos : ℕ
  pub write_pos : ℕ
  pub finish_pos : ℕ
  pub bytes : List ℕ

-- `sizeof(struct ringbuffer)`
abbrev pub header_size : ℕ
header_size = 24

unfoldable pub is_power_of_2 : ℕ → Bool
is_power_of_2 n = not (n == 0) && (bit_and n (sub32 n 1) == 0)

unfoldable pub umin : ℕ → ℕ → ℕ
umin x y = if ltb y x then y else x

unfoldable pub get_rest_size : ℕ → ℕ → ℕ → ℕ
get_rest_size write_pos read_pos size =
    if write_pos == read_pos
    then size
    else sub32 size (bit_and (sub32 write_pos read_pos) (sub32 size 1))

unfoldable pub get_used_size : ℕ → ℕ → ℕ → ℕ
get_used_size write_pos read_pos size =
    if write_pos == read_pos then 0 else bit_and (sub32 write_pos read_pos) (sub32 size 1)

-- One round `num |= (num >> k)`, for `k` written as `2 ^ k`.
unfoldable pub smear : ℕ → ℕ → ℕ
smear num shift = bit_or num (num / shift)

unfoldable pub roundup_2 : ℕ → ℕ
roundup_2 num =
    let n = sub32 num 1 in
    let n1 = smear n (2 ^ 1) in
    let n2 = smear n1 (2 ^ 2) in
    let n4 = smear n2 (2 ^ 4) in
    let n8 = smear n4 (2 ^ 8) in let n16 = smear n8 (2 ^ 16) in add32 n16 1

-- The first loop of `ringbuffer_put`: the space from `write_old` to `write_new` is taken by a
-- compare-and-swap on `write_pos`, which a single writer wins at once; `none` if the ring is full.
unfoldable pub reserve : Ring → ℕ → Option (ℕ × ℕ × Ring)
reserve r len =
    let write_old = r.write_pos in
    let write_new = bit_and (add32 write_old len) (sub32 r.data_size 1) in
    if leb (get_rest_size write_old r.read_pos r.data_size) len
    then none
    else some (write_old, write_new, record r { write_pos = write_new })

-- The compare-and-swap on `write_pos` of `ringbuffer_put`; `none` where it fails.
unfoldable pub win : Ring → ℕ → ℕ → Option Ring
win r write_old write_new =
    if r.write_pos == write_old then some (record r { write_pos = write_new }) else none

-- The two `memcpy` of `ringbuffer_put`.
unfoldable pub copy_in : Ring → ℕ → List ℕ → ℕ → Ring
copy_in r write_old buffer len =
    let start = bit_and write_old (sub32 r.data_size 1) in
    let l = umin len (sub32 r.data_size start) in
    let first = if ltb 0 l then blit r.bytes start (take l buffer) else r.bytes in
    record r { bytes = if ltb l len then blit first 0 (take (len - l) (drop l buffer)) else first }

-- One try of the last loop of `ringbuffer_put`; `none` where the compare-and-swap on `finish_pos`
-- fails, because an earlier writer has not published yet.
unfoldable pub publish : Ring → ℕ → ℕ → Option Ring
publish r write_old write_new =
    if r.finish_pos == write_old then some (record r { finish_pos = write_new }) else none

-- `ringbuffer_put` of one thread alone: the number of bytes taken, and the ring. `none` is a call
-- that spins for ever, since nobody else moves `finish_pos`.
unfoldable pub put : Ring → List ℕ → ℕ → Option (ℕ × Ring)
put r buffer len = elim (reserve r len) [
  | none ↦ some (0, r)
  | some (write_old, write_new, r') ↦
      elim (publish (copy_in r' write_old buffer len) write_old write_new) [
        | none ↦ none
        | some done ↦ some (len, done)
      ]
]

-- `ringbuffer_get`: the number of bytes, the bytes written to `buffer`, and the ring.
unfoldable pub get : Ring → ℕ → ℕ × List ℕ × Ring
get r len =
    let read_old = r.read_pos in
    let size = umin len (get_used_size r.finish_pos read_old r.data_size) in
    let start = bit_and read_old (sub32 r.data_size 1) in
    let l = umin size (sub32 r.data_size start) in
    let first = if ltb 0 l then take l (drop start r.bytes) else [] in
    let out = if ltb l size then first ++ take (size - l) r.bytes else first in
    if size == 0
    then (0, [], r)
    else (size, out, record r { read_pos = bit_and (add32 read_old size) (sub32 r.data_size 1) })
