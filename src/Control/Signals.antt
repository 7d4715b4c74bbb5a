-- ===== src/Control/Signals.antt =====
-- What the interrupts do to the job state.
use pkt_sender.Prelude.{ℕ, zero, suc, ◌+◌, ◌-◌, ◌^◌, ◌≤◌, ◌≡◌, refl, ap, ◌∙◌, false, arith}
use pkt_sender.Prelude.Bits.{zero-bit_and}
use pkt_sender.Control.Defs.{
  Control, started, sigint, sig_handler, signals, is_running, is_tx_running,
}

pub signals-add : (m n : ℕ) (c : Control) → signals n (signals m c) ≡ signals (m + n) c
unfolding signals
signals-add zero n c = ap (λ (k : ℕ). signals k c) {x = n} {y = 0 + n} (omega arith)
signals-add (suc m) n c =
    signals-add m n (sig_handler sigint c)
    ∙ ap (λ (k : ℕ). signals k c) {x = suc (m + n)} {y = suc m + n} (omega arith)

stays_zero : (n : ℕ) (c : Control) → c.job_state ≡ 0 → (signals n c).job_state ≡ 0
unfolding signals sig_handler
stays_zero zero c e = e
stays_zero (suc n) c e =
    stays_zero n (sig_handler sigint c) (rw (e, zero-bit_and (2 ^ 32 - 1 - 2 ^ 1)) (ground arith))

-- What is left to run after a number of interrupts: all, then no TX, then nothing.
abbrev pub jobs_after : ℕ → ℕ
jobs_after zero = 3
jobs_after (suc zero) = 1
jobs_after (suc (suc n)) = 0

-- From the state in which `main` launches the loops, the job state is all jobs after no
-- interrupt, RX alone after one, and none after any larger number, also when the count of 8 bits
-- has wrapped.
pub signals-job_state : (n : ℕ) → (signals n started).job_state ≡ jobs_after n
unfolding signals sig_handler
signals-job_state zero = refl
signals-job_state (suc zero) = refl
signals-job_state (suc (suc n)) = stays_zero n _ refl

pub two-is_running : (k job_flags : ℕ) → 2 ≤ k → is_running job_flags (signals k started) ≡ false
unfolding is_running
two-is_running zero job_flags h = absurd (omega arith)
two-is_running (suc zero) job_flags h = absurd (omega arith)
two-is_running (suc (suc k)) job_flags h =
    rw (signals-job_state (suc (suc k)), zero-bit_and job_flags) refl

pub one-is_tx_running : (k : ℕ) → is_tx_running (signals (suc k) started) ≡ false
unfolding is_tx_running
one-is_tx_running zero = rw (signals-job_state 1) refl
one-is_tx_running (suc k) = rw none_left refl
  where
    none_left : (signals (suc (suc k)) started).job_state ≡ 0
    none_left = signals-job_state (suc (suc k))
