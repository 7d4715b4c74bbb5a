-- ===== src/Packet/Tests.antt =====
-- The packets of src/pkt_seq.c at concrete inputs.
use pkt_sender.Prelude.{
  if◌then◌else◌, ltb, ℕ, ◌+◌, ◌*◌, ◌%◌, ◌^◌, ◌≡◌, refl, arith, List, [], ◌∷◌, none, some,
}
use pkt_sender.Packet.Defs.{
  EtherAddr, PktSeq, Memory, load_bytes, pkt_seq_init_local, pkt_seq_parse_mac, init_fields,
  store_bytes, clear_bytes,
}
use pkt_sender.Packet.Construct.{
  pkt_seq_construct_pkt, construct_l4_hdr, construct_tcp_hdr, construct_ipv4_hdr, construct_udp_hdr,
  construct_eth_hdr,
}
use pkt_sender.Packet.Dissect.{HasRoom, dissect, frame_of, dissect-pkt_seq_construct_pkt}

abbrev addr : ℕ → EtherAddr
addr n = record { byte0 = n; byte1 = n; byte2 = n; byte3 = n; byte4 = n; byte5 = n }

-- A scanner that reads six times 0x21, as `sscanf` does for the default address.
abbrev sscanf : List ℕ → List ℕ
sscanf str = 33 ∷ 33 ∷ 33 ∷ 33 ∷ 33 ∷ 33 ∷ []

abbrev any_seq : PktSeq
any_seq = record {
  src_mac = addr 1;
  dst_mac = addr 2;
  src_ip = 3;
  dst_ip = 4;
  proto = 5;
  src_port = 6;
  dst_port = 7;
  pkt_len = 8;
}

-- The packet that is sent by default.
abbrev default_seq : PktSeq
default_seq = record {
  src_mac = addr 17;
  dst_mac = addr 33;
  src_ip = 0xc0a8000c;
  dst_ip = 0xc0a80015;
  proto = 17;
  src_port = 9312;
  dst_port = 9321;
  pkt_len = 60;
}

init_default : pkt_seq_init_local sscanf any_seq none (some (addr 17)) ≡ default_seq
unfolding pkt_seq_init_local init_fields pkt_seq_parse_mac
init_default = refl

init_global :
    pkt_seq_init_local sscanf any_seq (some default_seq) none
    ≡ record default_seq { src_mac = addr 1 }
unfolding pkt_seq_init_local init_fields
init_global = refl

-- A CRC for the tests: the sum of the bytes, moved up.
abbrev crc : List ℕ → ℕ
crc [] = 0x10000
crc (b ∷ bs) = (b * 0x101 + crc bs) % 2 ^ 32

abbrev blank : Memory
blank i = 0

default_seq-HasRoom : HasRoom default_seq
default_seq-HasRoom = record { headers = omega arith; length_fits = omega arith }

first_bytes :
    load_bytes 0 16 (pkt_seq_construct_pkt crc default_seq 0 blank)
    ≡ 33 ∷ 33 ∷ 33 ∷ 33 ∷ 33 ∷ 33 ∷ 17 ∷ 17 ∷ 17 ∷ 17 ∷ 17 ∷ 17 ∷ 8 ∷ 0 ∷ 69 ∷ 0 ∷ []
unfolding pkt_seq_construct_pkt construct_l4_hdr construct_tcp_hdr construct_ipv4_hdr
    construct_udp_hdr construct_eth_hdr store_bytes clear_bytes load_bytes
first_bytes = refl

dissect-pkt_seq_construct_pkt_example :
    dissect (pkt_seq_construct_pkt crc default_seq 0 blank) ≡ frame_of default_seq
dissect-pkt_seq_construct_pkt_example =
    dissect-pkt_seq_construct_pkt crc default_seq blank default_seq-HasRoom

-- A memory that differs in the last 20 bytes of the packet.
abbrev other_end : Memory
other_end i = if ltb i 40 then 0 else 1
