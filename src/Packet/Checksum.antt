-- ===== src/Packet/Checksum.antt =====
-- The 16-bit checksum of src/pkt_seq.c.
use pkt_sender.Prelude.{
  ℕ, ◌+◌, ◌*◌, ◌%◌, ◌^◌, ◌≤◌, ◌<◌, ◌≡◌, ◌≢◌, arith, ◌⊎◌, inl, inr, ℕ_discrete, List, ◌∷◌, ◌++◌,
}
use pkt_sender.Packet.Defs.{
  PktSeq, Memory, store_bytes, load_bytes, clear_bytes, fold_16, checksum_16, be_16, be_32,
}
use pkt_sender.Packet.Construct.{
  construct_eth_hdr, construct_ipv4_hdr, construct_udp_hdr, construct_l4_hdr, pkt_seq_construct_pkt,
  ip_len,
}

fold_16_lem : (x : ℕ) → x < 2 ^ 32 → (fold_16 x % 65535 ≡ x % 65535) × (fold_16 x ≤ 131070)
unfolding fold_16
fold_16_lem x h = omega arith

-- Two foldings are enough: nothing is cut, and the checksum and the CRC add up to zero in the
-- arithmetic of the Internet checksum.
pub checksum_16-complements :
    (rte_hash_crc : List ℕ → ℕ) (bytes : List ℕ)
    → rte_hash_crc bytes < 2 ^ 32
    → (checksum_16 rte_hash_crc bytes < 2 ^ 16)
      × ((checksum_16 rte_hash_crc bytes + rte_hash_crc bytes) % 65535 ≡ 0)
unfolding checksum_16 fold_16
checksum_16-complements rte_hash_crc bytes h = (omega arith, omega arith)

-- The IPv4 header of a packet, with zero for its checksum.
abbrev pub ipv4_header : PktSeq → List ℕ
ipv4_header pkt =
    0x45 ∷ 0 ∷ be_16 (ip_len pkt)
    ++ 0 ∷ 0 ∷ 0 ∷ 0 ∷ 64 ∷ pkt.proto ∷ 0 ∷ 0 ∷ be_32 pkt.src_ip
    ++ be_32 pkt.dst_ip

-- A checksum as the processor reads it back.
abbrev pub checksum_at : Memory → ℕ → ℕ
checksum_at mem i = mem i + 256 * mem (i + 1)

module _ (rte_hash_crc : List ℕ → ℕ) (pkt : PktSeq) (mem : Memory) where
  checksum_at-pkt_seq_construct_pkt :
      checksum_at (pkt_seq_construct_pkt rte_hash_crc pkt 0 mem) 24
      ≡ checksum_16 rte_hash_crc (ipv4_header pkt)
  unfolding pkt_seq_construct_pkt construct_ipv4_hdr store_bytes load_bytes clear_bytes
  checksum_at-pkt_seq_construct_pkt = ground arith

  udp_checksum-pos :
      pkt.proto ≡ 17 → checksum_at (pkt_seq_construct_pkt rte_hash_crc pkt 0 mem) 40 ≢ 0
  unfolding pkt_seq_construct_pkt construct_l4_hdr construct_ipv4_hdr construct_udp_hdr
      construct_eth_hdr store_bytes clear_bytes
  udp_checksum-pos e h = ground arith

-- For a CRC of 32 bits, the IPv4 checksum of a constructed packet and the CRC of its header,
-- taken with zero for the checksum, add up to zero modulo 65535; the checksum of a UDP packet is
-- not zero, which would mean that there is none.
pub pkt_seq_construct_pkt-checks :
    (rte_hash_crc : List ℕ → ℕ) (pkt : PktSeq) (mem : Memory)
    → ((bytes : List ℕ) → rte_hash_crc bytes < 2 ^ 32)
    → let sent : Memory = pkt_seq_construct_pkt rte_hash_crc pkt 0 mem in
      ((checksum_at sent 24 + rte_hash_crc (ipv4_header pkt)) % 65535 ≡ 0)
      × ((pkt.proto ≢ 17) ⊎ (checksum_at sent 40 ≢ 0))
pkt_seq_construct_pkt-checks rte_hash_crc pkt mem bound = (
  rw (checksum_at-pkt_seq_construct_pkt rte_hash_crc pkt mem)
      (checksum_16-complements rte_hash_crc (ipv4_header pkt) (bound (ipv4_header pkt))).1,
  elim (ℕ_discrete pkt.proto 17) [
    | yes e ↦ inr (udp_checksum-pos rte_hash_crc pkt mem e)
    | no ne ↦ inl ne
  ],
)
