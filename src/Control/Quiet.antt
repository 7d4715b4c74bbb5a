-- ===== src/Control/Quiet.antt =====
-- No packet is sent by the loop of RX and TX jobs once the TX job is stopped. The timers may send
-- probes, so a call of theirs does not count as silent.
use pkt_sender.Prelude.{
  ℕ, zero, suc, ◌+◌, ◌≤◌, ◌≡◌, refl, sym, ap, ◌∙◌, inl, inr, Bool, true, false, List, [], ◌∷◌, ◌++◌,
  arith, ◌==◌, Bool-cases,
}
use pkt_sender.Control.Defs.{
  LcoreConf, Control, started, launched, launched-started, signals, is_running, find_jobs,
}
use pkt_sender.Control.Loops.{
  Turn, Event, rx_burst, probe_receive, free_bulk, transmit, timer_manage, Run, process_rx,
  rx_ports, tx_turn, after_turn, rxtx_loop, launch_one_lcore,
}
use mathlib.Core.List.{append-nil, append_assoc}
use pkt_sender.Control.Stopping.{turn-signals}
use pkt_sender.Control.Signals.{signals-add, one-is_tx_running}

abbrev pub no_transmit : List Event → Bool
no_transmit [] = true
no_transmit (transmit p ∷ events) = false
no_transmit (rx_burst p ∷ events) = no_transmit events
no_transmit (probe_receive p n ∷ events) = no_transmit events
no_transmit (free_bulk n ∷ events) = no_transmit events
no_transmit (timer_manage ∷ events) = false

pub no_transmit-append :
    (a b : List Event) → no_transmit b ≡ true → no_transmit a ≡ true → no_transmit (a ++ b) ≡ true
no_transmit-append [] b hb ha = hb
no_transmit-append (transmit p ∷ a) b hb ha = cc
no_transmit-append (rx_burst p ∷ a) b hb ha = no_transmit-append a b hb ha
no_transmit-append (probe_receive p n ∷ a) b hb ha = no_transmit-append a b hb ha
no_transmit-append (free_bulk n ∷ a) b hb ha = no_transmit-append a b hb ha
no_transmit-append (timer_manage ∷ a) b hb ha = cc

process_rx-quiet : (p n : ℕ) → no_transmit (process_rx p n) ≡ true
unfolding process_rx
process_rx-quiet p n = elim (Bool-cases (n == 0)) [ inl e ↦ rw e refl | inr e ↦ rw e refl ]

pub rx_ports-quiet :
    (t : Turn) (n i : ℕ) (ports : List ℕ) → no_transmit (rx_ports t n i ports) ≡ true
unfolding rx_ports
rx_ports-quiet t zero i ports = refl
rx_ports-quiet t (suc n) i [] = refl
rx_ports-quiet t (suc n) i (p ∷ ports) =
    no_transmit-append (process_rx p (t.received i)) (rx_ports t n (i + 1) ports)
      (rx_ports-quiet t n (i + 1) ports) (process_rx-quiet p (t.received i))

after_turn-quiet :
    (done : List Event) (is_err : Bool) (c : Control) (rest : Run)
    → no_transmit done ≡ true
    → no_transmit rest.0 ≡ true
    → no_transmit (after_turn done is_err c rest).0 ≡ true
unfolding after_turn
after_turn-quiet done true c rest hd hr = hd
after_turn-quiet done false c (events, c', outcome) hd hr = no_transmit-append done events hr hd

-- The interrupts of a turn, after at least one.
later :
    (k m n : ℕ)
    → signals n (signals m (signals (suc k) started)) ≡ signals (suc (k + m + n)) started
later k m n =
    ap (signals n) (signals-add (suc k) m started)
    ∙ signals-add (suc k + m) n started
    ∙ ap (λ (j : ℕ). signals j started) {x = suc k + m + n} {y = suc (k + m + n)} (omega arith)

-- The interrupts of turns.
unfoldable pub brought : List Turn → ℕ
brought [] = 0
brought (t ∷ turns) = t.before + t.between + brought turns

module _ (conf : LcoreConf) where
  rxtx_loop-quiet :
      (k : ℕ) (turns : List Turn)
      → no_transmit (rxtx_loop conf (signals (suc k) started) turns).0 ≡ true
  unfolding rxtx_loop tx_turn
  rxtx_loop-quiet k [] = refl
  rxtx_loop-quiet k (t ∷ turns) =
      elim (Bool-cases (is_running conf.job_flags (signals t.before (signals (suc k) started)))) [
        | inr e ↦ rw e refl
        | inl e ↦
            rw (e, later k t.before t.between, one-is_tx_running (k + t.before + t.between))
              (after_turn-quiet _ _ _ _
                (no_transmit-append (rx_ports t conf.rx_job.nb_ports 0 conf.rx_job.port_list) []
                  refl (rx_ports-quiet t _ 0 _))
                (rxtx_loop-quiet (k + t.before + t.between) turns))
      ]

  -- The rest of a run, after turns that bring an interrupt.
  abbrev Quiet : ℕ → List Turn → List Turn → Type 0
  Quiet k xs ys =
      (late : List Event) × ((rxtx_loop conf (signals k started) (xs ++ ys)).0
        ≡ (rxtx_loop conf (signals k started) xs).0 ++ late)
      × (no_transmit late ≡ true)

  after_turn-split :
      (done : List Event) (is_err : Bool) (c : Control) (short long : Run)
      → (late : List Event) × (long.0 ≡ short.0 ++ late) × (no_transmit late ≡ true)
      → (late : List Event) × ((after_turn done is_err c long).0
          ≡ (after_turn done is_err c short).0 ++ late)
        × (no_transmit late ≡ true)
  unfolding after_turn
  after_turn-split done true c short long s = ([], sym (append-nil done), refl)
  after_turn-split done false c (es, d, o) (fs, d', o') (late, e, q) =
      (late, ap (λ (t : List Event). done ++ t) e ∙ sym (append_assoc done es late), q)

  rxtx_loop-split : (k : ℕ) (xs ys : List Turn) → 1 ≤ k + brought xs → Quiet k xs ys
  unfolding rxtx_loop brought
  rxtx_loop-split zero [] ys h = absurd (omega arith)
  rxtx_loop-split (suc k) [] ys h =
      ((rxtx_loop conf (signals (suc k) started) ys).0, refl, rxtx_loop-quiet k ys)
  rxtx_loop-split k (t ∷ xs) ys h =
      elim (Bool-cases (is_running conf.job_flags (signals t.before (signals k started)))) [
        | inr e ↦ rw e ([], refl, refl)
        | inl e ↦
            rw (e, turn-signals k t.before t.between)
              (after_turn-split _ _ _ _ _
                (rxtx_loop-split (k + t.before + t.between) xs ys (omega arith)))
      ]

-- For an lcore that is not the one for statistics, where no interrupt has been handled before
-- `main` starts the jobs: whatever the driver answers, once an interrupt is handled, before the
-- lcore is launched or by the end of the turns `xs`, all that the turns after these add to its
-- calls has no call of `port_transmit` and none of the timers.
pub launch_one_lcore-quiet :
    (conf : LcoreConf) (c : Control) (k : ℕ) (xs ys : List Turn)
    → c.sig_recved ≡ 0
    → 1 ≤ k + brought xs
    → (late : List Event) × ((launch_one_lcore conf false (signals k (launched c)) (xs ++ ys)).0
        ≡ (launch_one_lcore conf false (signals k (launched c)) xs).0 ++ late)
      × (no_transmit late ≡ true)
unfolding launch_one_lcore
launch_one_lcore-quiet conf c k xs ys none_before h =
    elim (Bool-cases ((find_jobs conf).job_flags == 0)) [
      | inl e ↦ rw e ([], refl, refl)
      | inr e ↦ rw (launched-started c none_before, e) (rxtx_loop-split (find_jobs conf) k xs ys h)
    ]
