-- ===== src/Transmitter/Setup.antt =====
-- `tx_ctl_init` and `tx_ctl_setup_mempool` of src/transmitter.c. `rate_cycles`, a `double`, is left
-- out; `sscanf` and `rte_hash_crc` are parameters, and so is the order in which DPDK visits the mbufs
-- of a pool, which is that of the list.
use pkt_sender.Prelude.{
  ℕ, Bool, true, false, List, [], ◌∷◌, Option, none, some, if◌then◌else◌, ltb, ◌==◌,
}
use pkt_sender.Packet.Defs.{EtherAddr, PktSeq, Memory, pkt_seq_init_local}
use pkt_sender.Packet.Construct.{pkt_seq_construct_pkt}

-- `TX_RATE_DEFAULT_BPS`
abbrev pub tx_rate_default_bps : ℕ
tx_rate_default_bps = 102400

-- `MAX_PKT_LEN`, with 1518 for ETHER_MAX_LEN.
abbrev pub max_pkt_len : ℕ
max_pkt_len = 1514

-- TX_PATTERN_SINGLE
abbrev pub tx_pattern_single : ℕ
tx_pattern_single = 0

-- `struct tx_single`: the template is read and written by bytes, its padding included.
pub record TxSingle : Type 0 where
  pub is_init : Bool
  pub hdr : Memory

-- What the set-up reads and writes of a `struct tx_ctl`.
pub record TxSetup : Type 0 where
  pub queueid : ℕ
  pub tx_pattern : ℕ
  pub tx_seq : PktSeq
  pub tx_single : TxSingle
  pub rate_bps : ℕ

-- What the set-up reads of `pktsender`.
pub record TxSettings : Type 0 where
  pub tx_pattern : ℕ
  pub tx_rate : ℕ
  pub tx_pkt : PktSeq

abbrev no_addr : EtherAddr
no_addr = record { byte0 = 0; byte1 = 0; byte2 = 0; byte3 = 0; byte4 = 0; byte5 = 0 }

-- A `struct pkt_seq` that `memset` has cleared.
abbrev no_seq : PktSeq
no_seq = record {
  src_mac = no_addr;
  dst_mac = no_addr;
  src_ip = 0;
  dst_ip = 0;
  proto = 0;
  src_port = 0;
  dst_port = 0;
  pkt_len = 0;
}

unfoldable pub tx_ctl_init : (List ℕ → List ℕ) → TxSettings → EtherAddr → ℕ → TxSetup
tx_ctl_init sscanf pktsender port_mac queueid = record {
  queueid = queueid;
  tx_pattern = pktsender.tx_pattern;
  tx_seq = pkt_seq_init_local sscanf no_seq (some pktsender.tx_pkt) (some port_mac);
  tx_single = record { is_init = false; hdr = λ i. 0 };
  rate_bps = if pktsender.tx_rate == 0 then tx_rate_default_bps else pktsender.tx_rate;
}

-- What the set-up writes of an mbuf: the bytes from `buf_addr + data_off` on, and its lengths.
pub record PoolMbuf : Type 0 where
  pub bytes : Memory
  pub pkt_len : ℕ
  pub data_len : ℕ

-- `rte_memcpy(to, from, n)`
unfoldable pub copy_bytes : ℕ → Memory → Memory → Memory
copy_bytes n from to i = if ltb i n then from i else to i

module _ (rte_hash_crc : List ℕ → ℕ) where
  -- The template, which the first call constructs: the flag says whether it is there.
  unfoldable pub init_template : Bool → TxSetup → TxSetup
  init_template true ctl = ctl
  init_template false ctl = record ctl {
    tx_single = record {
      is_init = true;
      hdr = pkt_seq_construct_pkt rte_hash_crc ctl.tx_seq 0 ctl.tx_single.hdr;
    };
  }

  unfoldable pub setup_single : TxSetup → PoolMbuf → TxSetup × PoolMbuf
  setup_single ctl m =
      let ctl = init_template ctl.tx_single.is_init ctl in
      (
        ctl,
        record {
          bytes = copy_bytes max_pkt_len ctl.tx_single.hdr m.bytes;
          pkt_len = ctl.tx_seq.pkt_len;
          data_len = ctl.tx_seq.pkt_len;
        },
      )

  unfoldable pub pktmbuf_setup_cb : TxSetup → PoolMbuf → TxSetup × PoolMbuf
  pktmbuf_setup_cb ctl m =
      if ctl.tx_pattern == tx_pattern_single then setup_single ctl m else (ctl, m)

  -- `rte_mempool_obj_iter` over the mbufs of the pool.
  unfoldable pub setup_mbufs : TxSetup → List PoolMbuf → TxSetup × List PoolMbuf
  setup_mbufs ctl [] = (ctl, [])
  setup_mbufs ctl (m ∷ mp) =
      let (ctl', m') = pktmbuf_setup_cb ctl m in
      let (last, mp') = setup_mbufs ctl' mp in (last, m' ∷ mp')

  -- A pool that is NULL is `none`.
  unfoldable pub tx_ctl_setup_mempool :
      TxSetup → Option (List PoolMbuf) → TxSetup × Option (List PoolMbuf)
  tx_ctl_setup_mempool ctl none = (ctl, none)
  tx_ctl_setup_mempool ctl (some mp) = let (ctl', mp') = setup_mbufs ctl mp in (ctl', some mp')
