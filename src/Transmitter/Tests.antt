-- ===== src/Transmitter/Tests.antt =====
-- The bursts of src/transmitter.c at concrete inputs.
use pkt_sender.Prelude.{ℕ, ◌≡◌, refl, true, List, [], ◌∷◌, some, arith, min, length}
use pkt_sender.Transmitter.Defs.{Mbufs, BurstTurn, send_burst}
use pkt_sender.Transmitter.Burst.{TxCtl, EndsBurst, left, places, send_burst-EndsBurst}
use pkt_sender.Packet.Defs.{EtherAddr}
use pkt_sender.Packet.Dissect.{HasRoom}
use pkt_sender.Transmitter.Setup.{TxSettings, PoolMbuf, tx_ctl_init, tx_ctl_setup_mempool}
use pkt_sender.Transmitter.Templates.{AllHold, packet_of, tx_ctl_setup_mempool-AllHold}

abbrev free_mbufs : Mbufs
free_mbufs i = record {
  refcnt = 0;
  next = true;
  nb_segs = 2;
  port = 0;
  data_off = 0;
  buf_len = 2048;
  pkt_len = 60;
}

-- A driver that takes five packets at most.
abbrev slow : ℕ → ℕ → ℕ
slow i cnt = min cnt 5

send_seven : send_burst slow 12 0 (places 7 0) ≡ some ((0 ∷ 1 ∷ 2 ∷ 3 ∷ 4 ∷ []) ∷ (5 ∷ 6 ∷ []) ∷ [])
unfolding send_burst
send_seven = refl

send_burst-EndsBurst_example :
    EndsBurst
      (left slow 3 0 (length (places 12 0)))
      (places 12 0)
      (send_burst slow 3 0 (places 12 0))
send_burst-EndsBurst_example = send_burst-EndsBurst slow 3 0 (places 12 0)

abbrev idle : TxCtl
idle = record { total_size = 0; len = 0; rate_next_cycles = 0 }

abbrev turn_at : ℕ → BurstTurn
turn_at c = record { cycles = c; got = true; mbufs = free_mbufs }

abbrev turns : List BurstTurn
turns = turn_at 10 ∷ turn_at 20 ∷ turn_at 4000 ∷ []

-- A port that sends the default packet, and a pool of two mbufs.
abbrev addr : ℕ → EtherAddr
addr n = record { byte0 = n; byte1 = n; byte2 = n; byte3 = n; byte4 = n; byte5 = n }

abbrev settings : TxSettings
settings = record {
  tx_pattern = 0;
  tx_rate = 0;
  tx_pkt = record {
    src_mac = addr 0;
    dst_mac = addr 33;
    src_ip = 0xc0a8000c;
    dst_ip = 0xc0a80015;
    proto = 17;
    src_port = 9312;
    dst_port = 9321;
    pkt_len = 60;
  };
}

abbrev blank_mbuf : PoolMbuf
blank_mbuf = record { bytes = λ i. 0; pkt_len = 0; data_len = 0 }

abbrev pool : List PoolMbuf
pool = blank_mbuf ∷ blank_mbuf ∷ []

settings-HasRoom : HasRoom (packet_of settings (addr 17))
settings-HasRoom = record { headers = omega arith; length_fits = omega arith }

tx_ctl_setup_mempool-AllHold_example :
    (mp' : List PoolMbuf) × ((tx_ctl_setup_mempool
        (λ bytes. 5)
        (tx_ctl_init (λ s. s) settings (addr 17) 0)
        (some pool)).1
      ≡ some mp')
    × AllHold (packet_of settings (addr 17)) mp'
    × (length mp' ≡ 2)
tx_ctl_setup_mempool-AllHold_example =
    tx_ctl_setup_mempool-AllHold (λ bytes. 5) (λ s. s) settings (addr 17) 0 pool refl
      settings-HasRoom
