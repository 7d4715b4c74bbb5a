-- ===== src/Port/Tests.antt =====
-- The devices at concrete inputs.
use pkt_sender.Prelude.{
  ℕ, zero, suc, ◌/◌, ◌≡◌, ◌⊎◌, refl, arith, Bool, true, false, [], ◌∷◌, ◌++◌, some, ltb,
}
use pkt_sender.Port.Pools.{
  rx_mbuf_pool, tx_mbuf_pool, no_pools, dev_configure, pool_create, rx_queue_setup, tx_queue_setup,
  setup_packets, pool_free, PortAnswers, Sockets, port_init_dev, init_rx, init_tx, init_tx_queues,
}
use pkt_sender.Port.Setup.{
  free_mp, free_pools, then_jobs, init_job, init_jobs, end_single, with_dev, port_init_single,
  port_free_single, free_ports, after_port, init_port, init_ports, port_init, port_free,
}
use pkt_sender.Port.Tracked.{track}
use pkt_sender.Port.Owned.{IdsMatch}
use pkt_sender.Port.Released.{port_init-releases}
use pkt_sender.Port.Defs.{Ports, port_is_enabled, port_parse_opt, parse_ports}
use pkt_sender.Port.Devices.{start_ports, end_start, port_start}

-- Ports 0, 1 and 3 of four.
abbrev three_enabled : Ports
three_enabled = (port_parse_opt 128 4 true 11).0

-- The last of them does not start.
abbrev two_start : ℕ → Bool
two_start p = ltb p 3

start_fails : (port_start three_enabled two_start).1 ≡ false
unfolding port_start start_ports end_start port_is_enabled port_parse_opt parse_ports
start_fails = refl

one_enabled : port_is_enabled three_enabled 1 ≡ true
unfolding port_is_enabled port_parse_opt parse_ports
one_enabled = refl

-- Every port has both lcores, and the TX queue of port 2 is refused.
abbrev answers : ℕ → PortAnswers
answers i = record {
  enough_queues = true;
  configures = true;
  rx_pool = true;
  rx_queue = true;
  tx_pool = true;
  tx_queue = ltb i 2;
  probe_queue = true;
}

abbrev sockets : Sockets
sockets = record { rte_max_lcore = 128; socket_of = λ lcore. lcore / 8; stat_lcore = 0 }

abbrev assigned : Ports
assigned = record {
  port_nb_max = 3;
  port_list =
      record { id = 0; is_enabled = 1; lcore_map = 1 ∷ 2 ∷ [] }
      ∷ record { id = 0; is_enabled = 0; lcore_map = 0 ∷ 0 ∷ [] }
      ∷ record { id = 2; is_enabled = 1; lcore_map = 9 ∷ 10 ∷ [] }
      ∷ [];
}

assigned-IdsMatch : IdsMatch assigned
unfolding port_is_enabled
assigned-IdsMatch zero e = refl
assigned-IdsMatch (suc zero) e = cc
assigned-IdsMatch (suc (suc zero)) e = refl
assigned-IdsMatch (suc (suc (suc i))) e = ground arith

-- Port 0 is set up, port 2 fails, and the four pools are freed.
rolled_back :
    (port_init assigned answers sockets (λ i. no_pools)).1
    ≡ dev_configure 0 true
      ∷ pool_create (rx_mbuf_pool 0 0) true
      ∷ rx_queue_setup 0 0 (rx_mbuf_pool 0 0) true
      ∷ pool_create (tx_mbuf_pool 0 0) true
      ∷ tx_queue_setup 0 0 0 true
      ∷ setup_packets 0 (tx_mbuf_pool 0 0)
      ∷ tx_queue_setup 0 1 0 true
      ∷ dev_configure 2 true
      ∷ pool_create (rx_mbuf_pool 2 1) true
      ∷ rx_queue_setup 2 0 (rx_mbuf_pool 2 1) true
      ∷ pool_create (tx_mbuf_pool 2 1) true
      ∷ tx_queue_setup 2 0 1 false
      ∷ pool_free (rx_mbuf_pool 2 1)
      ∷ pool_free (tx_mbuf_pool 2 1)
      ∷ pool_free (rx_mbuf_pool 0 0)
      ∷ pool_free (tx_mbuf_pool 0 0)
      ∷ []
unfolding port_init init_ports init_port after_port free_ports port_free_single free_pools free_mp
    port_init_single with_dev port_init_dev end_single init_jobs init_job then_jobs init_rx init_tx
    init_tx_queues port_is_enabled
rolled_back = refl

port_init-releases_example :
    (track (tx_mbuf_pool 0 0) false (
        (port_init assigned answers sockets (λ i. no_pools)).1
        ++ (port_free assigned (port_init assigned answers sockets (λ i. no_pools)).0).2)
      ≡ some false)
    × (((port_init assigned answers sockets (λ i. no_pools)).2 ≡ true)
        ⊎ (track (tx_mbuf_pool 0 0) false (port_init assigned answers sockets (λ i. no_pools)).1
            ≡ some false))
port_init-releases_example =
    port_init-releases assigned answers sockets (tx_mbuf_pool 0 0) assigned-IdsMatch
