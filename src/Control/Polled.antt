-- ===== src/Control/Polled.antt =====
-- The bursts that an lcore asks for between the two interrupts, port by port.
use pkt_sender.Prelude.{
  ℕ, zero, suc, ◌+◌, ◌≤◌, ◌<◌, ◌≡◌, refl, ap, true, false, inl, inr, List, [], ◌∷◌, ◌++◌, arith,
  ◌==◌, Bool-cases, length, take, if◌then◌else◌,
}
use pkt_sender.Control.Defs.{LcoreConf, Control, launched, launched-started, signals}
use pkt_sender.Control.Loops.{
  Turn, Event, rx_burst, probe_receive, free_bulk, transmit, timer_manage, Run, going, process_rx,
  rx_ports, launch_one_lcore,
}
use pkt_sender.Control.Quiet.{no_transmit, no_transmit-append, rx_ports-quiet}
use pkt_sender.Control.Draining.{receptions, AreSilent, launch_one_lcore-drains}

-- The ports of the bursts that are asked for, and how many packets are freed each time.
abbrev pub polled : List Event → List ℕ
polled [] = []
polled (rx_burst p ∷ events) = p ∷ polled events
polled (probe_receive p n ∷ events) = polled events
polled (free_bulk n ∷ events) = polled events
polled (transmit p ∷ events) = polled events
polled (timer_manage ∷ events) = polled events

abbrev pub freed : List Event → List ℕ
freed [] = []
freed (free_bulk n ∷ events) = n ∷ freed events
freed (rx_burst p ∷ events) = freed events
freed (probe_receive p n ∷ events) = freed events
freed (transmit p ∷ events) = freed events
freed (timer_manage ∷ events) = freed events

polled-append : (a b : List Event) → polled (a ++ b) ≡ polled a ++ polled b
polled-append [] b = refl
polled-append (rx_burst p ∷ a) b = ap (λ (t : List ℕ). p ∷ t) (polled-append a b)
polled-append (probe_receive p n ∷ a) b = polled-append a b
polled-append (free_bulk n ∷ a) b = polled-append a b
polled-append (transmit p ∷ a) b = polled-append a b
polled-append (timer_manage ∷ a) b = polled-append a b

freed-append : (a b : List Event) → freed (a ++ b) ≡ freed a ++ freed b
freed-append [] b = refl
freed-append (free_bulk n ∷ a) b = ap (λ (t : List ℕ). n ∷ t) (freed-append a b)
freed-append (rx_burst p ∷ a) b = freed-append a b
freed-append (probe_receive p n ∷ a) b = freed-append a b
freed-append (transmit p ∷ a) b = freed-append a b
freed-append (timer_manage ∷ a) b = freed-append a b

-- A list once for each turn.
abbrev pub each_turn : List ℕ → List Turn → List ℕ
each_turn xs [] = []
each_turn xs (t ∷ turns) = xs ++ each_turn xs turns

-- The packets that arrive in the bursts of a turn from the `i`-th on, where there are any.
abbrev pub arrivals : Turn → ℕ → ℕ → List ℕ
arrivals t zero i = []
arrivals t (suc n) i =
    let rest = arrivals t n (i + 1) in if t.received i == 0 then rest else t.received i ∷ rest

abbrev pub all_arrivals : ℕ → List Turn → List ℕ
all_arrivals n [] = []
all_arrivals n (t ∷ turns) = arrivals t n 0 ++ all_arrivals n turns

rx_ports-polled :
    (t : Turn) (n i : ℕ) (ports : List ℕ)
    → n ≤ length ports
    → (polled (rx_ports t n i ports) ≡ take n ports)
      × (freed (rx_ports t n i ports) ≡ arrivals t n i)
unfolding rx_ports process_rx
rx_ports-polled t zero i ports h = (refl, refl)
rx_ports-polled t (suc n) i [] h = absurd (omega arith)
rx_ports-polled t (suc n) i (p ∷ ports) h =
    let (e, f) = rx_ports-polled t n (i + 1) ports (omega arith) in
    elim (Bool-cases (t.received i == 0)) [
      | inl g ↦ rw g (ap (λ (xs : List ℕ). p ∷ xs) e, f)
      | inr g ↦ rw g (ap (λ (xs : List ℕ). p ∷ xs) e, ap (λ (xs : List ℕ). t.received i ∷ xs) f)
    ]

receptions-polled :
    (conf : LcoreConf) (turns : List Turn)
    → conf.rx_job.nb_ports ≤ length conf.rx_job.port_list
    → (polled (receptions conf turns)
        ≡ each_turn (take conf.rx_job.nb_ports conf.rx_job.port_list) turns)
      × (freed (receptions conf turns) ≡ all_arrivals conf.rx_job.nb_ports turns)
unfolding receptions
receptions-polled conf [] h = (refl, refl)
receptions-polled conf (t ∷ turns) h =
    let (e, f) = rx_ports-polled t conf.rx_job.nb_ports 0 conf.rx_job.port_list h in
    let (e', f') = receptions-polled conf turns h in
    rw (polled-append, freed-append, e, f, e', f') (refl, refl)

receptions-quiet :
    (conf : LcoreConf) (turns : List Turn) → no_transmit (receptions conf turns) ≡ true
unfolding receptions
receptions-quiet conf [] = refl
receptions-quiet conf (t ∷ turns) =
    no_transmit-append (rx_ports t conf.rx_job.nb_ports 0 conf.rx_job.port_list)
      (receptions conf turns) (receptions-quiet conf turns) (rx_ports-quiet t _ 0 _)

-- What an lcore does in turns: the ports that it asks, the packets that it frees, that it sends
-- nothing, and that it goes on.
pub record Drains (conf : LcoreConf) (turns : List Turn) (run : Run) : Type 0 where
  pub polls : polled run.0 ≡ each_turn (take conf.rx_job.nb_ports conf.rx_job.port_list) turns
  pub frees : freed run.0 ≡ all_arrivals conf.rx_job.nb_ports turns
  pub sends_none : no_transmit run.0 ≡ true
  pub goes_on : run.2 ≡ going

-- For an lcore that is not the one for statistics, with RX ports in its list of ports and no job
-- flags at first, where no interrupt has been handled before `main` starts the jobs, launched
-- after one interrupt and through turns with none: in each turn it asks each of its RX ports for
-- packets, once and in their order, and frees as many as arrive each time; it transmits nothing,
-- and is still running.
pub launch_one_lcore-Drains :
    (conf : LcoreConf) (c : Control) (turns : List Turn)
    → c.sig_recved ≡ 0
    → conf.job_flags ≡ 0
    → 0 < conf.rx_job.nb_ports
    → conf.rx_job.nb_ports ≤ length conf.rx_job.port_list
    → AreSilent turns
    → Drains conf turns (launch_one_lcore conf false (signals 1 (launched c)) turns)
launch_one_lcore-Drains conf c turns none_before e h fits s =
    let (polls, frees) = receptions-polled conf turns fits in
    rw (launched-started c none_before, launch_one_lcore-drains conf turns e h s)
      (record {
        polls = polls;
        frees = frees;
        sends_none = receptions-quiet conf turns;
        goes_on = refl;
      })
