-- ===== src/Crc/Tests.antt =====
-- The checksum at concrete inputs.
use pkt_sender.Prelude.{ℕ, ◌-◌, ◌≡◌, refl, List, [], ◌∷◌, arith}
use pkt_sender.Crc.Reference.{crc_bit, crc_bits, crc_bytes}
use pkt_sender.Crc.Hash.{hash_crc32c}
use pkt_sender.Crc.Message.{zero_pad, hash_crc32c-eq-crc_bytes}

-- "123456789", whose CRC-32C has the check value 0xe3069283 after a last complement.
abbrev digits : List ℕ
digits = 49 ∷ 50 ∷ 51 ∷ 52 ∷ 53 ∷ 54 ∷ 55 ∷ 56 ∷ 57 ∷ []

crc_bytes-digits : crc_bytes 0xffffffff digits ≡ 0xffffffff - 0xe3069283
unfolding crc_bytes crc_bits crc_bit
crc_bytes-digits = refl

hash_crc32c-eq-crc_bytes_example :
    hash_crc32c digits 9 0xffffffff ≡ crc_bytes 0xffffffff (zero_pad digits)
hash_crc32c-eq-crc_bytes_example =
    hash_crc32c-eq-crc_bytes digits 0xffffffff (omega arith) (omega arith)
