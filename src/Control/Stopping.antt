-- ===== src/Control/Stopping.antt =====
-- What the interrupts make of a run of `pktsender_launch_one_lcore`.
use pkt_sender.Prelude.{
  ℕ, ◌+◌, ◌≤◌, ◌≡◌, refl, ap, ◌∙◌, inl, inr, Bool, true, false, List, [], ◌∷◌, arith, if◌then◌else◌,
  ◌==◌, Bool-cases,
}
use pkt_sender.Control.Defs.{
  LcoreConf, Control, job_flags_all, started, launched, launched-started, signals, is_running,
  find_jobs,
}
use pkt_sender.Control.Loops.{
  Turn, Event, going, stopped, failed, idle, Run, after_turn, rxtx_loop, measure_loop,
  launch_one_lcore,
}
use pkt_sender.Control.Signals.{signals-add, two-is_running}

-- The interrupts that are handled before the last test of a loop.
unfoldable pub heard : Turn → List Turn → ℕ
heard t [] = t.before
heard t (u ∷ turns) = t.before + t.between + heard u turns

abbrev pub has_ended : Run → Bool
has_ended (_, _, going) = false
has_ended (_, _, stopped) = true
has_ended (_, _, failed) = true
has_ended (_, _, idle) = true

after_turn-ended :
    (done : List Event) (is_err : Bool) (c : Control) (rest : Run)
    → has_ended rest ≡ true
    → has_ended (after_turn done is_err c rest) ≡ true
unfolding after_turn
after_turn-ended done true c rest e = refl
after_turn-ended done false c (events, c', going) e = e
after_turn-ended done false c (events, c', stopped) e = e
after_turn-ended done false c (events, c', failed) e = e
after_turn-ended done false c (events, c', idle) e = e

pub turn-signals :
    (k m n : ℕ) → signals n (signals m (signals k started)) ≡ signals (k + m + n) started
turn-signals k m n = ap (signals n) (signals-add k m started) ∙ signals-add (k + m) n started

module _ (conf : LcoreConf) where
  rxtx_loop-ended :
      (k : ℕ) (t : Turn) (turns : List Turn)
      → 2 ≤ k + heard t turns
      → has_ended (rxtx_loop conf (signals k started) (t ∷ turns)) ≡ true
  unfolding rxtx_loop heard
  rxtx_loop-ended k t [] h =
      rw (signals-add k t.before started, two-is_running (k + t.before) conf.job_flags h) refl
  rxtx_loop-ended k t (u ∷ turns) h =
      elim (Bool-cases (is_running conf.job_flags (signals t.before (signals k started)))) [
        | inr e ↦ rw e refl
        | inl e ↦
            rw (e, turn-signals k t.before t.between)
              (after_turn-ended _ _ _ _
                (rxtx_loop-ended (k + t.before + t.between) u turns (omega arith)))
      ]

  measure_loop-ended :
      (k : ℕ) (t : Turn) (turns : List Turn)
      → 2 ≤ k + heard t turns
      → has_ended (measure_loop conf (signals k started) (t ∷ turns)) ≡ true
  unfolding measure_loop heard
  measure_loop-ended k t [] h =
      rw (signals-add k t.before started, two-is_running (k + t.before) job_flags_all h) refl
  measure_loop-ended k t (u ∷ turns) h =
      elim (Bool-cases (is_running job_flags_all (signals t.before (signals k started)))) [
        | inr e ↦ rw e refl
        | inl e ↦
            rw (e, turn-signals k t.before t.between)
              (after_turn-ended _ _ _ _
                (measure_loop-ended (k + t.before + t.between) u turns (omega arith)))
      ]

-- For any configuration, lcore and answers of the driver, where no interrupt has been handled
-- before `main` starts the jobs: a run of `pktsender_launch_one_lcore` whose turns bring the
-- interrupts after that to two by its last test has ended.
pub launch_one_lcore-ended :
    (conf : LcoreConf) (is_stat : Bool) (c : Control) (k : ℕ) (t : Turn) (turns : List Turn)
    → c.sig_recved ≡ 0
    → 2 ≤ k + heard t turns
    → has_ended (launch_one_lcore conf is_stat (signals k (launched c)) (t ∷ turns)) ≡ true
unfolding launch_one_lcore
launch_one_lcore-ended conf is_stat c k t turns none_before h =
    elim (Bool-cases ((find_jobs conf).job_flags == 0)) [
      | inl e ↦ rw e refl
      | inr e ↦ rw (launched-started c none_before, e) (loop_ended is_stat)
    ]
  where
    loop_ended :
        (b : Bool)
        → has_ended (
            if b
            then measure_loop (find_jobs conf) (signals k started) (t ∷ turns)
            else rxtx_loop (find_jobs conf) (signals k started) (t ∷ turns))
          ≡ true
    loop_ended true = measure_loop-ended (find_jobs conf) k t turns h
    loop_ended false = rxtx_loop-ended (find_jobs conf) k t turns h
