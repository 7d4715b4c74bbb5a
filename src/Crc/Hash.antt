-- ===== src/Crc/Hash.antt =====
-- The functions of tools/hash.c, over the bytes that `data` points at.
-- A `uint64_t` read from memory is little-endian, as on the machines that the program is built for.
use pkt_sender.Prelude.{
  ℕ, zero, suc, ◌-◌, ◌*◌, ◌/◌, ◌%◌, ◌^◌, bit_and, bit_or, bit_xor, List, get_or, take, drop,
}
use pkt_sender.Crc.Tables.{crc32c_tables}
use pkt_sender.Crc.Reference.{little_endian}

-- `CRC32_UPD(crc, n)`
unfoldable pub crc32_upd : ℕ → ℕ → ℕ
crc32_upd crc n =
    bit_xor (get_or (crc32c_tables n) (bit_and crc 0xff) 0)
      (get_or (crc32c_tables (n - 1)) (bit_and (crc / 2 ^ 8) 0xff) 0)

unfoldable pub crc32c_u32 : ℕ → ℕ → ℕ
crc32c_u32 word init_val =
    let crc = bit_xor init_val word in
    let term1 = crc32_upd crc 3 in let term2 = crc / 2 ^ 16 in bit_xor term1 (crc32_upd term2 1)

-- `d.u32[0]` is the low half of `data`, `d.u32[1]` the high half.
unfoldable pub crc32c_u64 : ℕ → ℕ → ℕ
crc32c_u64 word init_val =
    let low = word % 2 ^ 32 in
    let high = word / 2 ^ 32 % 2 ^ 32 in
    let crc = bit_xor init_val low in
    let term1 = crc32_upd crc 7 in
    let term2 = crc / 2 ^ 16 in
    let crc' = bit_xor term1 (crc32_upd term2 5) in
    let term1' = crc32_upd high 3 in
    let term2' = high / 2 ^ 16 in bit_xor crc' (bit_xor term1' (crc32_upd term2' 1))

-- `*(const uint64_t *)pd`, `*(const uint32_t *)pd` and `*((const uint8_t *)pd + i)`
abbrev pub load : ℕ → List ℕ → ℕ
load n pd = little_endian (take n pd)

abbrev pub byte_at : List ℕ → ℕ → ℕ
byte_at pd i = get_or pd i 0

-- The `for` loop, with `n` words left to take in: `pd` after it, and `init_val`.
unfoldable pub hash_words : ℕ → List ℕ → ℕ → List ℕ × ℕ
hash_words zero pd init_val = (pd, init_val)
hash_words (suc n) pd init_val = hash_words n (drop 8 pd) (crc32c_u64 (load 8 pd) init_val)

-- The cases of the `switch`, each falling through to the next up to its `break`.
unfoldable pub tail_case_2 : List ℕ → ℕ → ℕ → ℕ
tail_case_2 pd temp init_val =
    crc32c_u64 (bit_or (bit_or temp (byte_at pd 4 * 2 ^ 32)) (load 4 pd)) init_val

unfoldable pub tail_case_1 : List ℕ → ℕ → ℕ → ℕ
tail_case_1 pd temp init_val = tail_case_2 pd (bit_or temp (byte_at pd 5 * 2 ^ 40)) init_val

unfoldable pub tail_case_0 : List ℕ → ℕ → ℕ → ℕ
tail_case_0 pd temp init_val = tail_case_1 pd (bit_or temp (byte_at pd 6 * 2 ^ 48)) init_val

unfoldable pub tail_case_3 : List ℕ → ℕ → ℕ
tail_case_3 pd init_val = crc32c_u32 (load 4 pd) init_val

unfoldable pub tail_case_6 : List ℕ → ℕ → ℕ → ℕ
tail_case_6 pd temp init_val = crc32c_u32 (bit_or temp (byte_at pd 0)) init_val

unfoldable pub tail_case_5 : List ℕ → ℕ → ℕ → ℕ
tail_case_5 pd temp init_val = tail_case_6 pd (bit_or temp (byte_at pd 1 * 2 ^ 8)) init_val

unfoldable pub tail_case_4 : List ℕ → ℕ → ℕ → ℕ
tail_case_4 pd temp init_val = tail_case_5 pd (bit_or temp (byte_at pd 2 * 2 ^ 16)) init_val

-- `switch (7 - (data_len & 0x07))`
unfoldable pub hash_tail : ℕ → List ℕ → ℕ → ℕ
unfolding tail_case_0 tail_case_1 tail_case_2 tail_case_3 tail_case_4 tail_case_5 tail_case_6
hash_tail zero pd init_val = tail_case_0 pd 0 init_val
hash_tail (suc zero) pd init_val = tail_case_1 pd 0 init_val
hash_tail (suc (suc zero)) pd init_val = tail_case_2 pd 0 init_val
hash_tail (suc (suc (suc zero))) pd init_val = tail_case_3 pd init_val
hash_tail (suc (suc (suc (suc zero)))) pd init_val = tail_case_4 pd 0 init_val
hash_tail (suc (suc (suc (suc (suc zero))))) pd init_val = tail_case_5 pd 0 init_val
hash_tail (suc (suc (suc (suc (suc (suc zero)))))) pd init_val = tail_case_6 pd 0 init_val
hash_tail (suc (suc (suc (suc (suc (suc (suc n))))))) pd init_val = init_val

unfoldable pub hash_crc32c : List ℕ → ℕ → ℕ → ℕ
unfolding hash_words hash_tail
hash_crc32c bytes data_len init_val =
    let (pd, crc) = hash_words (data_len / 8) bytes init_val in
    hash_tail (7 - bit_and data_len 7) pd crc
