-- ===== src/Transmitter/Templates.antt =====
-- Every mbuf of the pool of a queue holds the packet that the settings ask for.
use pkt_sender.Prelude.{
  ℕ, suc, ◌≡◌, refl, ◌∙◌, ap, true, false, List, [], ◌∷◌, some, length, Bool, ◌==◌, ==_iff,
}
use pkt_sender.Packet.Defs.{EtherAddr, PktSeq, Memory, pkt_seq_init_local, init_fields}
use pkt_sender.Packet.Construct.{pkt_seq_construct_pkt}
use pkt_sender.Packet.Dissect.{HasRoom, dissect, frame_of, dissect-pkt_seq_construct_pkt}
use pkt_sender.Transmitter.Setup.{
  TxSetup, TxSettings, PoolMbuf, tx_ctl_init, copy_bytes, init_template, setup_single,
  pktmbuf_setup_cb, setup_mbufs, tx_ctl_setup_mempool, max_pkt_len,
}

-- The packet of a port: the one of the settings, from the address of the port.
abbrev pub packet_of : TxSettings → EtherAddr → PktSeq
packet_of pktsender port_mac = record pktsender.tx_pkt { src_mac = port_mac }

-- An mbuf that holds a packet.
pub record Holds (seq : PktSeq) (m : PoolMbuf) : Type 0 where
  pub frame : dissect m.bytes ≡ frame_of seq
  pub pkt_len : m.pkt_len ≡ seq.pkt_len
  pub data_len : m.data_len ≡ seq.pkt_len

abbrev pub AllHold : PktSeq → List PoolMbuf → Type 0
AllHold seq [] = Unit
AllHold seq (m ∷ mp) = Holds seq m × AllHold seq mp

-- A controller for a single packet, before or after the template is constructed.
record IsReady (seq : PktSeq) (ctl : TxSetup) : Type 0 where
  single : ctl.tx_pattern ≡ 0
  sequence : ctl.tx_seq ≡ seq
  template : ctl.tx_single.is_init ≡ true → dissect ctl.tx_single.hdr ≡ frame_of seq

dissect-copy_bytes : (from to : Memory) → dissect (copy_bytes max_pkt_len from to) ≡ dissect from
unfolding copy_bytes
dissect-copy_bytes from to = refl

module _ (rte_hash_crc : List ℕ → ℕ) (seq : PktSeq) (room : HasRoom seq) where
  init_template-IsReady :
      (b : Bool) (ctl : TxSetup)
      → ctl.tx_single.is_init ≡ b
      → IsReady seq ctl
      → IsReady seq (init_template rte_hash_crc b ctl)
        × ((init_template rte_hash_crc b ctl).tx_single.is_init ≡ true)
  unfolding init_template
  init_template-IsReady true ctl e ready = (ready, e)
  init_template-IsReady false ctl e ready = (
    record {
      single = ready.single;
      sequence = ready.sequence;
      template = λ _.
          ap (λ (s : PktSeq). dissect (pkt_seq_construct_pkt rte_hash_crc s 0 ctl.tx_single.hdr))
            ready.sequence
          ∙ dissect-pkt_seq_construct_pkt rte_hash_crc seq ctl.tx_single.hdr room;
    },
    refl,
  )

  pktmbuf_setup_cb-Holds :
      (ctl : TxSetup) (m : PoolMbuf)
      → IsReady seq ctl
      → IsReady seq (pktmbuf_setup_cb rte_hash_crc ctl m).0
        × Holds seq (pktmbuf_setup_cb rte_hash_crc ctl m).1
  unfolding pktmbuf_setup_cb setup_single
  pktmbuf_setup_cb-Holds ctl m ready =
      let (ready', init) = init_template-IsReady ctl.tx_single.is_init ctl refl ready in
      let single : (ctl.tx_pattern == 0) ≡ true = (==_iff _ 0).1 ready.single in
      rw single (
        ready',
        record {
          frame =
              dissect-copy_bytes
                (init_template rte_hash_crc ctl.tx_single.is_init ctl).tx_single.hdr m.bytes
              ∙ ready'.template init;
          pkt_len = ap (λ (s : PktSeq). s.pkt_len) ready'.sequence;
          data_len = ap (λ (s : PktSeq). s.pkt_len) ready'.sequence;
        },
      )

  setup_mbufs-AllHold :
      (ctl : TxSetup) (mp : List PoolMbuf)
      → IsReady seq ctl
      → AllHold seq (setup_mbufs rte_hash_crc ctl mp).1
        × (length (setup_mbufs rte_hash_crc ctl mp).1 ≡ length mp)
  unfolding setup_mbufs
  setup_mbufs-AllHold ctl [] ready = (tt, refl)
  setup_mbufs-AllHold ctl (m ∷ mp) ready =
      let (ready', held) = pktmbuf_setup_cb-Holds ctl m ready in
      let (all, len) = setup_mbufs-AllHold (pktmbuf_setup_cb rte_hash_crc ctl m).0 mp ready' in
      ((held, all), ap suc len)

-- For the pattern of a single packet, of 34 bytes or more and with a length that fits 16 bits:
-- after `tx_ctl_init` and `tx_ctl_setup_mempool` a pool has as many mbufs as before, and each has
-- the length of the packet of the settings and reads as this packet, sent from the address of the
-- port.
pub tx_ctl_setup_mempool-AllHold :
    (rte_hash_crc : List ℕ → ℕ) (sscanf : List ℕ → List ℕ) (pktsender : TxSettings)
    (port_mac : EtherAddr) (queueid : ℕ) (mp : List PoolMbuf)
    → pktsender.tx_pattern ≡ 0
    → HasRoom (packet_of pktsender port_mac)
    → (mp' : List PoolMbuf) × ((tx_ctl_setup_mempool rte_hash_crc
          (tx_ctl_init sscanf pktsender port_mac queueid)
          (some mp)).1
        ≡ some mp')
      × AllHold (packet_of pktsender port_mac) mp'
      × (length mp' ≡ length mp)
unfolding tx_ctl_setup_mempool tx_ctl_init pkt_seq_init_local init_fields
tx_ctl_setup_mempool-AllHold rte_hash_crc sscanf pktsender port_mac queueid mp single room =
    let ctl : TxSetup = tx_ctl_init sscanf pktsender port_mac queueid in
    let ready : IsReady (packet_of pktsender port_mac) ctl = record {
      single = single;
      sequence = refl;
      template = λ h. cc;
    } in
    let (all, len) =
      setup_mbufs-AllHold rte_hash_crc (packet_of pktsender port_mac) room ctl mp ready in
    ((setup_mbufs rte_hash_crc ctl mp).1, refl, all, len)
