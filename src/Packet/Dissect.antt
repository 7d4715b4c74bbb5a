-- ===== src/Packet/Dissect.antt =====
-- What a receiver reads from the headers that src/pkt_seq.c constructs.
use pkt_sender.Prelude.{ℕ, ◌+◌, ◌-◌, ◌*◌, ◌^◌, ◌≤◌, ◌<◌, ◌≡◌, arith, List, if◌then◌else◌, ◌==◌}
use pkt_sender.Packet.Defs.{EtherAddr, PktSeq, Memory, store_bytes, clear_bytes}
use pkt_sender.Packet.Construct.{
  construct_eth_hdr, construct_ipv4_hdr, construct_tcp_hdr, construct_udp_hdr, construct_l4_hdr,
  pkt_seq_construct_pkt,
}

-- What stands behind the IPv4 header: of UDP the ports and the length, of TCP the ports, the numbers,
-- the length of the header in words, the flags, the window and the urgent pointer.
pub data Segment : Type 0 where
  udp : ℕ → ℕ → ℕ → Segment
  tcp : ℕ → ℕ → ℕ → ℕ → ℕ → ℕ → ℕ → ℕ → Segment
  other : Segment

-- A packet as the layouts of Ethernet, IPv4, UDP and TCP give it.
pub record Frame : Type 0 where
  pub destination : EtherAddr
  pub source : EtherAddr
  pub ether_type : ℕ
  pub version_ihl : ℕ
  pub total_length : ℕ
  pub fragment : ℕ
  pub time_to_live : ℕ
  pub protocol : ℕ
  pub src_addr : ℕ
  pub dst_addr : ℕ
  pub segment : Segment

module _ (mem : Memory) where
  abbrev pub word_at : ℕ → ℕ
  word_at i = mem i * 256 + mem (i + 1)

  abbrev pub long_at : ℕ → ℕ
  long_at i = word_at i * 65536 + word_at (i + 2)

  abbrev mac_at : ℕ → EtherAddr
  mac_at i = record {
    byte0 = mem i;
    byte1 = mem (i + 1);
    byte2 = mem (i + 2);
    byte3 = mem (i + 3);
    byte4 = mem (i + 4);
    byte5 = mem (i + 5);
  }

  abbrev udp_at : ℕ → Segment
  udp_at i = udp (word_at i) (word_at (i + 2)) (word_at (i + 4))

  abbrev tcp_at : ℕ → Segment
  tcp_at i =
      tcp (word_at i) (word_at (i + 2)) (long_at (i + 4)) (long_at (i + 8)) (mem (i + 12))
        (mem (i + 13)) (word_at (i + 14)) (word_at (i + 18))

  abbrev segment_at : ℕ → ℕ → Segment
  segment_at protocol i =
      if protocol == 17 then udp_at i else if protocol == 6 then tcp_at i else other

  abbrev pub dissect : Frame
  dissect = record {
    destination = mac_at 0;
    source = mac_at 6;
    ether_type = word_at 12;
    version_ihl = mem 14;
    total_length = word_at 16;
    fragment = word_at 20;
    time_to_live = mem 22;
    protocol = mem 23;
    src_addr = long_at 26;
    dst_addr = long_at 30;
    segment = segment_at (mem 23) 34;
  }

-- What the fields of a packet sequence ask for.
abbrev segment_of : PktSeq → Segment
segment_of pkt =
    if pkt.proto == 17
    then udp pkt.src_port pkt.dst_port (pkt.pkt_len - 34)
    else if pkt.proto == 6
    then tcp pkt.src_port pkt.dst_port 0x12345678 0x12345690 80 16 8192 0
    else other

abbrev pub frame_of : PktSeq → Frame
frame_of pkt = record {
  destination = pkt.dst_mac;
  source = pkt.src_mac;
  ether_type = 2048;
  version_ihl = 69;
  total_length = pkt.pkt_len - 14;
  fragment = 0;
  time_to_live = 64;
  protocol = pkt.proto;
  src_addr = pkt.src_ip;
  dst_addr = pkt.dst_ip;
  segment = segment_of pkt;
}

-- A packet that has room for its headers, and whose length fits its type.
pub record HasRoom (pkt : PktSeq) : Type 0 where
  pub headers : 34 ≤ pkt.pkt_len
  pub length_fits : pkt.pkt_len < 2 ^ 16

-- A packet of 34 bytes or more, whose length fits 16 bits, reads back by the layouts of Ethernet,
-- IPv4, UDP and TCP after its construction: the addresses, ports and protocol are those of the
-- sequence, the lengths are those of the packet without the headers before them, and the other
-- fields have their fixed values.
pub dissect-pkt_seq_construct_pkt :
    (rte_hash_crc : List ℕ → ℕ) (pkt : PktSeq) (mem : Memory)
    → HasRoom pkt
    → dissect (pkt_seq_construct_pkt rte_hash_crc pkt 0 mem) ≡ frame_of pkt
unfolding pkt_seq_construct_pkt construct_l4_hdr construct_tcp_hdr construct_ipv4_hdr
    construct_udp_hdr construct_eth_hdr store_bytes clear_bytes
dissect-pkt_seq_construct_pkt rte_hash_crc pkt mem room = ground arith
