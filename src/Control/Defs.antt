-- ===== src/Control/Defs.antt =====
-- The job state and its signal handler, from src/pktsender.c and src/pktsender.h.
use pkt_sender.Prelude.{
  ℕ, zero, suc, ◌+◌, ◌-◌, ◌%◌, ◌^◌, bit_and, bit_or, ◌≡◌, ap, Bool, not, List, if◌then◌else◌, ltb,
  ◌==◌,
}

-- `LCORE_JOB_RX`, `LCORE_JOB_TX` and `JOB_FLAGS_ALL`
abbrev pub lcore_job_rx : ℕ
lcore_job_rx = 0

abbrev pub lcore_job_tx : ℕ
lcore_job_tx = 1

abbrev pub job_flags_all : ℕ
job_flags_all = 0x3

abbrev pub max_port_per_job : ℕ
max_port_per_job = 4

abbrev pub sigint : ℕ
sigint = 2

-- `port_list` holds `max_port_per_job` entries.
pub record LcoreJob : Type 0 where
  pub nb_ports : ℕ
  pub port_list : List ℕ

-- `jobs[LCORE_JOB_RX]` and `jobs[LCORE_JOB_TX]` are the two entries of `jobs`.
pub record LcoreConf : Type 0 where
  pub job_flags : ℕ
  pub rx_job : LcoreJob
  pub tx_job : LcoreJob

-- `pktsender.job_state` and `sig_recved`, both of 8 bits.
pub record Control : Type 0 where
  pub job_state : ℕ
  pub sig_recved : ℕ

unfoldable pub is_running : ℕ → Control → Bool
is_running job_flags c = not (bit_and c.job_state job_flags == 0)

unfoldable pub is_tx_running : Control → Bool
is_tx_running c = not (bit_and c.job_state (2 ^ lcore_job_tx) == 0)

unfoldable pub sig_handler : ℕ → Control → Control
sig_handler signo c =
    if signo == sigint
    then record {
      job_state =
          if c.sig_recved == 0
          then bit_and c.job_state (2 ^ 32 - 1 - 2 ^ lcore_job_tx)
          else if c.sig_recved == 1
          then 0
          else c.job_state;
      sig_recved = (c.sig_recved + 1) % 2 ^ 8;
    }
    else c

-- `main` before it launches the loops. The handler is installed long before, so that interrupts may
-- have been counted already.
unfoldable pub launched : Control → Control
launched c = record c { job_state = job_flags_all }

-- The same where none has been.
abbrev pub started : Control
started = record { job_state = job_flags_all; sig_recved = 0 }

pub launched-started : (c : Control) → c.sig_recved ≡ 0 → launched c ≡ started
unfolding launched
launched-started c e = ap (λ (n : ℕ). record started { sig_recved = n }) e

-- `n` interrupts, one after the other.
unfoldable pub signals : ℕ → Control → Control
unfolding sig_handler
signals zero c = c
signals (suc n) c = signals n (sig_handler sigint c)

-- One round of the loop that finds the jobs of an lcore.
unfoldable pub add_flag : ℕ → LcoreJob → ℕ → ℕ
add_flag i job job_flags = if ltb 0 job.nb_ports then bit_or job_flags (2 ^ i) else job_flags

unfoldable pub find_jobs : LcoreConf → LcoreConf
find_jobs conf = record conf {
  job_flags = add_flag lcore_job_tx conf.tx_job (add_flag lcore_job_rx conf.rx_job conf.job_flags);
}
