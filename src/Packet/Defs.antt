-- ===== src/Packet/Defs.antt =====
-- src/pkt_seq.h and src/pkt_seq.c. The memory is read and written by bytes, from the address that
-- `hdr` points to. `rte_hash_crc` of DPDK is a parameter, over the bytes of its data; the words of
-- the headers stand in network order, and a checksum as the (little-endian) processor stores it.
use pkt_sender.Prelude.{
  ℕ, zero, suc, ◌+◌, ◌-◌, ◌*◌, ◌/◌, ◌%◌, ◌^◌, Bool, true, false, List, [], ◌∷◌, Option, none, some,
  if◌then◌else◌, ◌==◌,
}

-- `struct ether_addr`
pub record EtherAddr : Type 0 where
  pub byte0 : ℕ
  pub byte1 : ℕ
  pub byte2 : ℕ
  pub byte3 : ℕ
  pub byte4 : ℕ
  pub byte5 : ℕ

pub record PktSeq : Type 0 where
  pub src_mac : EtherAddr
  pub dst_mac : EtherAddr
  pub src_ip : ℕ
  pub dst_ip : ℕ
  pub proto : ℕ
  pub src_port : ℕ
  pub dst_port : ℕ
  pub pkt_len : ℕ

-- The defaults of src/pkt_seq.h.
abbrev pub pkt_seq_ip_src : ℕ
pkt_seq_ip_src = 192 * 2 ^ 24 + 168 * 2 ^ 16 + 0 * 2 ^ 8 + 12

abbrev pub pkt_seq_ip_dst : ℕ
pkt_seq_ip_dst = 192 * 2 ^ 24 + 168 * 2 ^ 16 + 0 * 2 ^ 8 + 21

abbrev pub pkt_seq_pkt_len : ℕ
pkt_seq_pkt_len = 60

abbrev pub ipproto_udp : ℕ
ipproto_udp = 17

abbrev pub ipproto_tcp : ℕ
ipproto_tcp = 6

abbrev pub pkt_seq_port_src : ℕ
pkt_seq_port_src = 9312

abbrev pub pkt_seq_port_dst : ℕ
pkt_seq_port_dst = 9321

abbrev pub pkt_seq_tcp_seq : ℕ
pkt_seq_tcp_seq = 0x12345678

abbrev pub pkt_seq_tcp_ack : ℕ
pkt_seq_tcp_ack = 0x12345690

-- `TCP_ACK_FLAG`
abbrev pub pkt_seq_tcp_flags : ℕ
pkt_seq_tcp_flags = 0x10

abbrev pub pkt_seq_tcp_window : ℕ
pkt_seq_tcp_window = 8192

-- The loop of `pkt_seq_parse_mac` over the six numbers that `sscanf` has read.
abbrev pub mac_of : List ℕ → Option EtherAddr
mac_of (a ∷ b ∷ c ∷ d ∷ e ∷ f ∷ rest) = some (record {
  byte0 = a % 256;
  byte1 = b % 256;
  byte2 = c % 256;
  byte3 = d % 256;
  byte4 = e % 256;
  byte5 = f % 256;
})
mac_of _ = none

-- `sscanf` is a parameter: the numbers that it reads from the text. Without six of them the address
-- is left, and the answer is ERR_FORMAT.
unfoldable pub pkt_seq_parse_mac : (List ℕ → List ℕ) → List ℕ → EtherAddr → EtherAddr × Bool
pkt_seq_parse_mac sscanf str addr = elim (mac_of (sscanf str)) [
  | none ↦ (addr, false)
  | some mac ↦ (mac, true)
]

-- PKT_SEQ_MAC_DST
abbrev pub pkt_seq_mac_dst : List ℕ
pkt_seq_mac_dst =
    50 ∷ 49 ∷ 58 ∷ 50 ∷ 49 ∷ 58 ∷ 50 ∷ 49 ∷ 58 ∷ 50 ∷ 49 ∷ 58 ∷ 50 ∷ 49 ∷ 58 ∷ 50 ∷ 49 ∷ []

-- The two branches of `pkt_seq_init_local`, for a `global` that is NULL or not.
unfoldable pub init_fields : (List ℕ → List ℕ) → PktSeq → Option PktSeq → PktSeq
init_fields sscanf l none = record l {
  dst_mac = (pkt_seq_parse_mac sscanf pkt_seq_mac_dst l.dst_mac).0;
  src_ip = pkt_seq_ip_src;
  dst_ip = pkt_seq_ip_dst;
  proto = ipproto_udp;
  src_port = pkt_seq_port_src;
  dst_port = pkt_seq_port_dst;
  pkt_len = pkt_seq_pkt_len;
}
init_fields sscanf l (some global) = record l {
  dst_mac = global.dst_mac;
  src_ip = global.src_ip;
  dst_ip = global.dst_ip;
  proto = global.proto;
  src_port = global.src_port;
  dst_port = global.dst_port;
  pkt_len = global.pkt_len;
}

abbrev pub with_src : PktSeq → Option EtherAddr → PktSeq
with_src l none = l
with_src l (some port_mac) = record l { src_mac = port_mac }

unfoldable pub pkt_seq_init_local :
    (List ℕ → List ℕ) → PktSeq → Option PktSeq → Option EtherAddr → PktSeq
pkt_seq_init_local sscanf l global port_mac = with_src (init_fields sscanf l global) port_mac

-- Memory by addresses, with the writes and reads of a run of bytes.
abbrev pub Memory : Type 0
Memory = ℕ → ℕ

unfoldable pub store_bytes : ℕ → List ℕ → Memory → Memory
store_bytes i [] mem = mem
store_bytes i (b ∷ bs) mem = store_bytes (i + 1) bs (λ j. if j == i then b else mem j)

unfoldable pub load_bytes : ℕ → ℕ → Memory → List ℕ
load_bytes i zero mem = []
load_bytes i (suc n) mem = mem i ∷ load_bytes (i + 1) n mem

-- `memset(mem + i, 0, n)`
unfoldable pub clear_bytes : ℕ → ℕ → Memory → Memory
clear_bytes i zero mem = mem
clear_bytes i (suc n) mem = clear_bytes (i + 1) n (λ j. if j == i then 0 else mem j)

-- The bytes of the fields: `rte_cpu_to_be_16`, `rte_cpu_to_be_32`, a word of the processor, and
-- `ether_addr_copy`.
abbrev pub be_16 : ℕ → List ℕ
be_16 x = (x / 256) ∷ (x % 256) ∷ []

abbrev pub be_32 : ℕ → List ℕ
be_32 x = (x / 16777216) ∷ (x / 65536 % 256) ∷ (x / 256 % 256) ∷ (x % 256) ∷ []

abbrev pub cpu_16 : ℕ → List ℕ
cpu_16 x = (x % 256) ∷ (x / 256) ∷ []

abbrev pub addr_bytes : EtherAddr → List ℕ
addr_bytes a = a.byte0 ∷ a.byte1 ∷ a.byte2 ∷ a.byte3 ∷ a.byte4 ∷ a.byte5 ∷ []

-- One line of the folding: the low and the high half of a word, added.
unfoldable pub fold_16 : ℕ → ℕ
fold_16 crc32 = (crc32 % 2 ^ 16 + crc32 / 2 ^ 16) % 2 ^ 32

-- `~` of a `uint16_t`, cut to 16 bits again.
unfoldable pub checksum_16 : (List ℕ → ℕ) → List ℕ → ℕ
unfolding fold_16
checksum_16 rte_hash_crc bytes = 65535 - fold_16 (fold_16 (rte_hash_crc bytes)) % 2 ^ 16
