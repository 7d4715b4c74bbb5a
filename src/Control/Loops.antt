-- ===== src/Control/Loops.antt =====
-- The loops of src/pktsender.c. The world outside a loop is a list of turns: the interrupts that
-- arrive, the packets that the driver returns, and the answers of `port_transmit`.
use pkt_sender.Prelude.{
  ℕ, zero, suc, ◌+◌, Bool, true, false, List, [], ◌∷◌, ◌++◌, if◌then◌else◌, ◌==◌,
}
use pkt_sender.Control.Defs.{
  LcoreJob, LcoreConf, Control, job_flags_all, is_running, is_tx_running, signals, find_jobs,
}

-- One round of a loop: the interrupts handled before its test, those handled between it and the
-- test of the TX job, what the n-th burst receives and whether the n-th transmission fails. An
-- interrupt that arrives later in the round is handled before the next test.
pub record Turn : Type 0 where
  pub before : ℕ
  pub between : ℕ
  pub received : ℕ → ℕ
  pub tx_fails : ℕ → Bool

-- The calls that a loop makes.
pub data Event : Type 0 where
  rx_burst : ℕ → Event
  probe_receive : ℕ → ℕ → Event
  free_bulk : ℕ → Event
  transmit : ℕ → Event
  timer_manage : Event

-- How far a loop has come: its last turn is over, its job is stopped, a transmission failed, or
-- there was no job.
pub data Outcome : Type 0 where
  going stopped failed idle : Outcome

abbrev pub Run : Type 0
Run = List Event × Control × Outcome

unfoldable pub process_rx : ℕ → ℕ → List Event
process_rx portid nb_rx =
    rx_burst portid ∷ (if nb_rx == 0 then [] else probe_receive portid nb_rx ∷ free_bulk nb_rx ∷ [])

-- The `for` loop over the RX ports, with `n` left, the next of them the `i`-th.
unfoldable pub rx_ports : Turn → ℕ → ℕ → List ℕ → List Event
rx_ports t zero i ports = []
rx_ports t (suc n) i [] = []
rx_ports t (suc n) i (p ∷ ports) = process_rx p (t.received i) ++ rx_ports t n (i + 1) ports

-- The `for` loop over the TX ports, and `is_err`.
unfoldable pub tx_ports : Turn → ℕ → ℕ → List ℕ → List Event × Bool
tx_ports t zero i ports = ([], false)
tx_ports t (suc n) i [] = ([], false)
tx_ports t (suc n) i (p ∷ ports) =
    let (rest, is_err) = tx_ports t n (i + 1) ports in
    if t.tx_fails i then (transmit p ∷ [], true) else (transmit p ∷ rest, is_err)

-- The part of a turn under `if (__is_tx_running())`.
unfoldable pub tx_turn : Turn → LcoreJob → Control → List Event × Bool
tx_turn t job c = if is_tx_running c then tx_ports t job.nb_ports 0 job.port_list else ([], false)

-- What is left of a loop after a turn that makes these calls.
unfoldable pub after_turn : List Event → Bool → Control → Run → Run
after_turn done true c rest = (done, c, failed)
after_turn done false c (events, c', outcome) = (done ++ events, c', outcome)

unfoldable pub rxtx_loop : LcoreConf → Control → List Turn → Run
rxtx_loop conf c [] = ([], c, going)
rxtx_loop conf c (t ∷ turns) =
    let c1 = signals t.before c in
    let c2 = signals t.between c1 in
    let (tx, is_err) = tx_turn t conf.tx_job c2 in
    let rx = rx_ports t conf.rx_job.nb_ports 0 conf.rx_job.port_list in
    let rest = rxtx_loop conf c2 turns in
    if is_running conf.job_flags c1 then after_turn (rx ++ tx) is_err c2 rest else ([], c1, stopped)

-- `rte_timer_manage` once for each port.
unfoldable pub manage_timers : ℕ → List Event
manage_timers zero = []
manage_timers (suc n) = timer_manage ∷ manage_timers n

unfoldable pub measure_loop : LcoreConf → Control → List Turn → Run
measure_loop conf c [] = ([], c, going)
measure_loop conf c (t ∷ turns) =
    let c1 = signals t.before c in
    let c2 = signals t.between c1 in
    let rest = measure_loop conf c2 turns in
    if is_running job_flags_all c1
    then after_turn (manage_timers conf.tx_job.nb_ports) false c2 rest
    else ([], c1, stopped)

-- `pktsender_launch_one_lcore`, on the lcore for statistics or on another.
unfoldable pub launch_one_lcore : LcoreConf → Bool → Control → List Turn → Run
launch_one_lcore conf is_stat c turns =
    let conf' = find_jobs conf in
    if conf'.job_flags == 0
    then ([], c, idle)
    else if is_stat
    then measure_loop conf' c turns
    else rxtx_loop conf' c turns
