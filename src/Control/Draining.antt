-- ===== src/Control/Draining.antt =====
-- What an lcore does between the first interrupt and the second.
use pkt_sender.Prelude.{
  ℕ, zero, suc, ◌<◌, ◌≡◌, refl, true, false, inl, inr, List, [], ◌∷◌, ◌++◌, arith, ltb, ◌==◌,
  Bool-cases,
}
use pkt_sender.Control.Defs.{
  LcoreConf, Control, started, signals, sig_handler, is_running, is_tx_running, add_flag, find_jobs,
}
use pkt_sender.Control.Loops.{
  Turn, Event, going, rx_ports, tx_turn, after_turn, rxtx_loop, launch_one_lcore,
}
use mathlib.Core.List.{append-nil}

-- A turn in which no interrupt arrives.
abbrev pub IsSilent : Turn → Type 0
IsSilent t = (t.before ≡ 0) × (t.between ≡ 0)

abbrev pub AreSilent : List Turn → Type 0
AreSilent [] = Unit
AreSilent (t ∷ turns) = IsSilent t × AreSilent turns

-- The calls of the RX loop in each turn.
unfoldable pub receptions : LcoreConf → List Turn → List Event
receptions conf [] = []
receptions conf (t ∷ turns) =
    rx_ports t conf.rx_job.nb_ports 0 conf.rx_job.port_list ++ receptions conf turns

abbrev pub interrupted : Control
interrupted = record { job_state = 1; sig_recved = 1 }

silent : (n : ℕ) (c : Control) → n ≡ 0 → signals n c ≡ c
unfolding signals
silent zero c e = refl
silent (suc n) c e = absurd (omega arith)

rxtx_loop-drains :
    (conf : LcoreConf) (turns : List Turn)
    → is_running conf.job_flags interrupted ≡ true
    → AreSilent turns
    → rxtx_loop conf interrupted turns ≡ (receptions conf turns, interrupted, going)
unfolding rxtx_loop tx_turn receptions after_turn is_tx_running
rxtx_loop-drains conf [] running s = refl
rxtx_loop-drains conf (t ∷ turns) running s =
    rw
      (
        silent t.before interrupted s.0.0,
        silent t.between interrupted s.0.1,
        running,
        rxtx_loop-drains conf turns running s.1,
      )
      (rw (append-nil (rx_ports t conf.rx_job.nb_ports 0 conf.rx_job.port_list)) refl)

find_jobs-running :
    (conf : LcoreConf)
    → conf.job_flags ≡ 0
    → 0 < conf.rx_job.nb_ports
    → (is_running (find_jobs conf).job_flags interrupted ≡ true)
      × (((find_jobs conf).job_flags == 0) ≡ false)
unfolding find_jobs add_flag is_running
find_jobs-running conf e h = elim (Bool-cases (ltb 0 conf.tx_job.nb_ports)) [
  | inl f ↦ rw (e, has_rx, f) (refl, refl)
  | inr f ↦ rw (e, has_rx, f) (refl, refl)
]
  where
    has_rx : ltb 0 conf.rx_job.nb_ports ≡ true
    has_rx = ground arith

-- In each turn exactly the calls of the RX loop are made, and the loop goes on.
pub launch_one_lcore-drains :
    (conf : LcoreConf) (turns : List Turn)
    → conf.job_flags ≡ 0
    → 0 < conf.rx_job.nb_ports
    → AreSilent turns
    → launch_one_lcore conf false (signals 1 started) turns
      ≡ (receptions conf turns, signals 1 started, going)
unfolding launch_one_lcore signals sig_handler receptions find_jobs
launch_one_lcore-drains conf turns e h s =
    let (running, some_job) = find_jobs-running conf e h in
    rw some_job (rxtx_loop-drains (find_jobs conf) turns running s)
