-- ===== src/Packet/Construct.antt =====
-- The construction of the headers in src/pkt_seq.c. The offsets are those of the fields in the
-- packed structures: 14 bytes of Ethernet, 20 of IPv4, then 20 of TCP or 8 of UDP.
use pkt_sender.Prelude.{ℕ, ◌+◌, ◌-◌, ◌*◌, ◌%◌, ◌^◌, List, [], ◌∷◌, if◌then◌else◌, ◌==◌}
use pkt_sender.Packet.Defs.{
  PktSeq, Memory, store_bytes, load_bytes, clear_bytes, be_16, be_32, cpu_16, addr_bytes,
  checksum_16, ipproto_udp, ipproto_tcp, pkt_seq_tcp_seq, pkt_seq_tcp_ack, pkt_seq_tcp_flags,
  pkt_seq_tcp_window,
}

-- `__construct_eth_hdr`, which returns `hdr + 14`. 0x0800 is ETHER_TYPE_IPv4.
unfoldable pub construct_eth_hdr : PktSeq → ℕ → Memory → Memory
construct_eth_hdr pkt hdr mem =
    let mem = store_bytes (hdr + 6) (addr_bytes pkt.src_mac) mem in
    let mem = store_bytes hdr (addr_bytes pkt.dst_mac) mem in
    store_bytes (hdr + 12) (be_16 0x0800) mem

-- The length of the packet without Ethernet, and without IPv4 either, in 16 bits.
abbrev pub ip_len : PktSeq → ℕ
ip_len pkt = (pkt.pkt_len + 2 ^ 16 - 14) % 2 ^ 16

abbrev pub tlen_of : PktSeq → ℕ
tlen_of pkt = (pkt.pkt_len + 2 ^ 16 - 14 - 20) % 2 ^ 16

module _ (rte_hash_crc : List ℕ → ℕ) where
  unfoldable pub construct_ipv4_hdr : PktSeq → ℕ → Memory → Memory
  construct_ipv4_hdr pkt hdr mem =
      let mem = clear_bytes hdr 20 mem in
      let mem = store_bytes hdr (0x45 ∷ []) mem in
      let mem = store_bytes (hdr + 1) (0 ∷ []) mem in
      let mem = store_bytes (hdr + 6) (0 ∷ 0 ∷ []) mem in
      let mem = store_bytes (hdr + 8) (64 ∷ []) mem in
      let mem = store_bytes (hdr + 4) (0 ∷ 0 ∷ []) mem in
      let mem = store_bytes (hdr + 12) (be_32 pkt.src_ip) mem in
      let mem = store_bytes (hdr + 16) (be_32 pkt.dst_ip) mem in
      let mem = store_bytes (hdr + 9) (pkt.proto ∷ []) mem in
      let mem = store_bytes (hdr + 2) (be_16 (ip_len pkt)) mem in
      store_bytes (hdr + 10) (cpu_16 (checksum_16 rte_hash_crc (load_bytes hdr 20 mem))) mem

  unfoldable pub construct_tcp_hdr : PktSeq → ℕ → Memory → Memory
  construct_tcp_hdr pkt hdr mem =
      let tlen = tlen_of pkt in
      let mem = clear_bytes hdr 40 mem in
      let mem = store_bytes (hdr + 20) (be_16 pkt.src_port) mem in
      let mem = store_bytes (hdr + 22) (be_16 pkt.dst_port) mem in
      let mem = store_bytes (hdr + 24) (be_32 pkt_seq_tcp_seq) mem in
      let mem = store_bytes (hdr + 28) (be_32 pkt_seq_tcp_ack) mem in
      let mem = store_bytes (hdr + 32) ((5 * 16) ∷ []) mem in
      let mem = store_bytes (hdr + 33) (pkt_seq_tcp_flags ∷ []) mem in
      let mem = store_bytes (hdr + 34) (be_16 pkt_seq_tcp_window) mem in
      let mem = store_bytes (hdr + 38) (0 ∷ 0 ∷ []) mem in
      let mem = store_bytes (hdr + 12) (be_32 pkt.src_ip) mem in
      let mem = store_bytes (hdr + 16) (be_32 pkt.dst_ip) mem in
      let mem = store_bytes (hdr + 2) (be_16 tlen) mem in
      let mem = store_bytes (hdr + 9) (ipproto_tcp ∷ []) mem in
      store_bytes (hdr + 36) (cpu_16 (checksum_16 rte_hash_crc (load_bytes hdr tlen mem))) mem

  unfoldable pub construct_udp_hdr : PktSeq → ℕ → Memory → Memory
  construct_udp_hdr pkt hdr mem =
      let mem = clear_bytes hdr 28 mem in
      let tlen = tlen_of pkt in
      let mem = store_bytes (hdr + 9) (ipproto_udp ∷ []) mem in
      let mem = store_bytes (hdr + 2) (be_16 tlen) mem in
      let mem = store_bytes (hdr + 12) (be_32 pkt.src_ip) mem in
      let mem = store_bytes (hdr + 16) (be_32 pkt.dst_ip) mem in
      let mem = store_bytes (hdr + 20) (be_16 pkt.src_port) mem in
      let mem = store_bytes (hdr + 22) (be_16 pkt.dst_port) mem in
      let mem = store_bytes (hdr + 24) (be_16 tlen) mem in
      let crc = checksum_16 rte_hash_crc (load_bytes hdr tlen mem) in
      store_bytes (hdr + 26) (cpu_16 (if crc == 0 then 0xffff else crc)) mem

  -- The header behind Ethernet, by the protocol.
  unfoldable pub construct_l4_hdr : PktSeq → ℕ → Memory → Memory
  construct_l4_hdr pkt hdr mem =
      if pkt.proto == ipproto_udp
      then construct_udp_hdr pkt hdr mem
      else if pkt.proto == ipproto_tcp
      then construct_tcp_hdr pkt hdr mem
      else mem

  unfoldable pub pkt_seq_construct_pkt : PktSeq → ℕ → Memory → Memory
  pkt_seq_construct_pkt pkt hdr mem =
      construct_ipv4_hdr pkt (hdr + 14)
        (construct_l4_hdr pkt (hdr + 14) (construct_eth_hdr pkt hdr mem))
