-- ===== src/Control/Tests.antt =====
-- The job state and the loops at concrete inputs.
use pkt_sender.Prelude.{ℕ, ◌≡◌, refl, true, false, List, ◌++◌, [], ◌∷◌, arith}
use pkt_sender.Control.Defs.{
  LcoreConf, Control, launched, started, signals, sig_handler, is_running, is_tx_running, find_jobs,
  add_flag,
}
use pkt_sender.Control.Loops.{
  Turn, Event, going, rx_burst, probe_receive, free_bulk, transmit, process_rx, rx_ports, tx_ports,
  tx_turn, after_turn, rxtx_loop, launch_one_lcore,
}
use pkt_sender.Control.Stopping.{heard, has_ended, launch_one_lcore-ended}
use pkt_sender.Control.Quiet.{no_transmit, brought, launch_one_lcore-quiet}
use pkt_sender.Control.Polled.{Drains, launch_one_lcore-Drains}

-- Port 0 is received from and sent on, port 1 sent on.
abbrev two_ports : LcoreConf
two_ports = record {
  job_flags = 0;
  rx_job = record { nb_ports = 1; port_list = 0 ∷ 0 ∷ 0 ∷ 0 ∷ [] };
  tx_job = record { nb_ports = 2; port_list = 0 ∷ 1 ∷ 0 ∷ 0 ∷ [] };
}

-- Two packets arrive, and as many interrupts as given.
abbrev turn : ℕ → Turn
turn n = record { before = n; between = 0; received = λ i. 2; tx_fails = λ i. false }

-- The first turn sends, the second, after an interrupt, only receives.
launch_two_turns : launch_one_lcore two_ports false started (turn 0 ∷ turn 1 ∷ []) ≡ (
  rx_burst 0
      ∷ probe_receive 0 2
      ∷ free_bulk 2
      ∷ transmit 0
      ∷ transmit 1
      ∷ rx_burst 0
      ∷ probe_receive 0 2
      ∷ free_bulk 2
      ∷ [],
  signals 1 started,
  going,
)
unfolding launch_one_lcore find_jobs add_flag rxtx_loop rx_ports tx_ports tx_turn process_rx
    after_turn signals sig_handler is_running is_tx_running
launch_two_turns = refl

-- No interrupt has been counted, and no job runs.
abbrev before_start : Control
before_start = record { job_state = 0; sig_recved = 0 }

launch_one_lcore-ended_example :
    has_ended
      (launch_one_lcore two_ports false (signals 0 (launched before_start)) (turn 1 ∷ turn 1 ∷ []))
    ≡ true
launch_one_lcore-ended_example =
    launch_one_lcore-ended two_ports false before_start 0 (turn 1) (turn 1 ∷ []) refl
      (unfold heard in omega arith)

launch_one_lcore-quiet_example :
    (late : List Event) × ((launch_one_lcore two_ports false
        (signals 0 (launched before_start))
        (turn 0 ∷ turn 1 ∷ turn 0 ∷ [])).0
      ≡ (launch_one_lcore two_ports false
          (signals 0 (launched before_start))
          (turn 0 ∷ turn 1 ∷ [])).0
        ++ late)
    × (no_transmit late ≡ true)
launch_one_lcore-quiet_example =
    launch_one_lcore-quiet two_ports before_start 0 (turn 0 ∷ turn 1 ∷ []) (turn 0 ∷ []) refl
      (unfold brought in omega arith)

launch_one_lcore-Drains_example :
    Drains two_ports
      (turn 0 ∷ turn 0 ∷ [])
      (launch_one_lcore two_ports false (signals 1 (launched before_start)) (turn 0 ∷ turn 0 ∷ []))
launch_one_lcore-Drains_example =
    launch_one_lcore-Drains two_ports before_start (turn 0 ∷ turn 0 ∷ []) refl refl (omega arith)
      (omega arith) ((refl, refl), ((refl, refl), tt))
