-- ===== src/Packet/Kept.antt =====
-- Which bytes the construction of a packet in src/pkt_seq.c writes, and which it reads.
use pkt_sender.Prelude.{
  ℕ, zero, suc, ◌+◌, ◌≤◌, ◌<◌, ◌≡◌, refl, sym, arith, inl, inr, List, [], ◌∷◌, if◌then◌else◌, ◌==◌,
  length, Bool-cases,
}
use pkt_sender.Packet.Defs.{PktSeq, Memory, store_bytes, clear_bytes}
use pkt_sender.Packet.Construct.{
  construct_eth_hdr, construct_ipv4_hdr, construct_tcp_hdr, construct_udp_hdr, construct_l4_hdr,
  pkt_seq_construct_pkt,
}

-- Two memories hold the same from `lo` on.
abbrev SameFrom : ℕ → Memory → Memory → Type 0
SameFrom lo mem mem' = (i : ℕ) → lo ≤ i → mem i ≡ mem' i

-- Two memories hold the same below `hi`.
abbrev SameBelow : ℕ → Memory → Memory → Type 0
SameBelow hi mem mem' = (i : ℕ) → i < hi → mem i ≡ mem' i

-- The bytes of the headers.
abbrev pub headers_len : PktSeq → ℕ
headers_len pkt = if pkt.proto == 17 then 42 else if pkt.proto == 6 then 54 else 34

-- A write below `lo` is not seen from `lo` on.
module _ (lo : ℕ) {mem' : Memory} where
  store_bytes-SameFrom :
      (i : ℕ) (bs : List ℕ) (mem : Memory)
      → i + length bs ≤ lo
      → SameFrom lo mem mem'
      → SameFrom lo (store_bytes i bs mem) mem'
  unfolding store_bytes
  store_bytes-SameFrom i [] mem h same = same
  store_bytes-SameFrom i (b ∷ bs) mem h same =
      store_bytes-SameFrom (i + 1) bs _ (omega arith) (λ j le. ground (arith, same j))

  clear_bytes-SameFrom :
      (i n : ℕ) (mem : Memory)
      → i + n ≤ lo
      → SameFrom lo mem mem'
      → SameFrom lo (clear_bytes i n mem) mem'
  unfolding clear_bytes
  clear_bytes-SameFrom i zero mem h same = same
  clear_bytes-SameFrom i (suc n) mem h same =
      clear_bytes-SameFrom (i + 1) n _ (omega arith) (λ j le. ground (arith, same j))

ruleset writes = (arith, store_bytes-SameFrom, clear_bytes-SameFrom)

module _ (rte_hash_crc : List ℕ → ℕ) (pkt : PktSeq) {mem mem' : Memory} where
  construct_eth_hdr-SameFrom :
      (lo : ℕ) → 14 ≤ lo → SameFrom lo mem mem' → SameFrom lo (construct_eth_hdr pkt 0 mem) mem'
  unfolding construct_eth_hdr
  construct_eth_hdr-SameFrom lo h same = search (writes, same)

  construct_ipv4_hdr-SameFrom :
      (lo : ℕ)
      → 34 ≤ lo
      → SameFrom lo mem mem'
      → SameFrom lo (construct_ipv4_hdr rte_hash_crc pkt 14 mem) mem'
  unfolding construct_ipv4_hdr
  construct_ipv4_hdr-SameFrom lo h same = search (writes, same)

  construct_udp_hdr-SameFrom :
      (lo : ℕ)
      → 42 ≤ lo
      → SameFrom lo mem mem'
      → SameFrom lo (construct_udp_hdr rte_hash_crc pkt 14 mem) mem'
  unfolding construct_udp_hdr
  construct_udp_hdr-SameFrom lo h same = search (writes, same)

  construct_tcp_hdr-SameFrom :
      (lo : ℕ)
      → 54 ≤ lo
      → SameFrom lo mem mem'
      → SameFrom lo (construct_tcp_hdr rte_hash_crc pkt 14 mem) mem'
  unfolding construct_tcp_hdr
  construct_tcp_hdr-SameFrom lo h same = search (writes, same)

  construct_l4_hdr-SameFrom :
      (lo : ℕ)
      → headers_len pkt ≤ lo
      → SameFrom lo mem mem'
      → SameFrom lo (construct_l4_hdr rte_hash_crc pkt 14 mem) mem'
  unfolding construct_l4_hdr
  construct_l4_hdr-SameFrom lo h same = elim (Bool-cases (pkt.proto == 17)) [
    | inl e ↦ rw e (construct_udp_hdr-SameFrom lo (rw e at h) same)
    | inr e ↦ elim (Bool-cases (pkt.proto == 6)) [
      | inl f ↦ rw (e, f) (construct_tcp_hdr-SameFrom lo (rw (e, f) at h) same)
      | inr f ↦ rw (e, f) same
    ]
  ]

le_headers_len : (pkt : PktSeq) → 34 ≤ headers_len pkt
le_headers_len pkt = ground arith

-- The construction changes no byte behind the headers of the packet: 42 bytes for UDP, 54 for
-- TCP, and 34 otherwise.
pub pkt_seq_construct_pkt-keeps :
    (rte_hash_crc : List ℕ → ℕ) (pkt : PktSeq) (mem : Memory) (j : ℕ)
    → headers_len pkt ≤ j
    → mem j ≡ pkt_seq_construct_pkt rte_hash_crc pkt 0 mem j
unfolding pkt_seq_construct_pkt
pkt_seq_construct_pkt-keeps rte_hash_crc pkt mem j h = sym (
    construct_ipv4_hdr-SameFrom rte_hash_crc pkt (headers_len pkt)
      (omega (arith, le_headers_len pkt))
      (construct_l4_hdr-SameFrom rte_hash_crc pkt (headers_len pkt) (omega arith) (
        construct_eth_hdr-SameFrom rte_hash_crc pkt (headers_len pkt)
          (omega (arith, le_headers_len pkt)) (λ i le. refl)))
      j h)

-- The same write to two memories.
module _ (hi : ℕ) where
  store_bytes-SameBelow :
      (i : ℕ) (bs : List ℕ) (mem mem' : Memory)
      → SameBelow hi mem mem'
      → SameBelow hi (store_bytes i bs mem) (store_bytes i bs mem')
  unfolding store_bytes
  store_bytes-SameBelow i [] mem mem' same = same
  store_bytes-SameBelow i (b ∷ bs) mem mem' same =
      store_bytes-SameBelow (i + 1) bs _ _ (λ j lt. ground (arith, same j))

  clear_bytes-SameBelow :
      (i n : ℕ) (mem mem' : Memory)
      → SameBelow hi mem mem'
      → SameBelow hi (clear_bytes i n mem) (clear_bytes i n mem')
  unfolding clear_bytes
  clear_bytes-SameBelow i zero mem mem' same = same
  clear_bytes-SameBelow i (suc n) mem mem' same =
      clear_bytes-SameBelow (i + 1) n _ _ (λ j lt. ground (arith, same j))

ruleset same_writes = (store_bytes-SameBelow, clear_bytes-SameBelow)
