-- ===== src/Transmitter/Paced.antt =====
-- The bursts of a queue keep the distance that the rate asks for.
use pkt_sender.Prelude.{ℕ, ◌+◌, ◌%◌, ◌^◌, ◌<◌, ◌≡◌, List, [], ◌∷◌, Option, none, some}
use pkt_sender.Transmitter.Defs.{Mbufs, BurstTurn, max_pkt_burst, duff}
use pkt_sender.Transmitter.Burst.{
  TxCtl, BurstOutcome, not_due, no_mbufs, panic, spins, sent, add_sizes, tx_ctl_tx_burst,
}

module _ (headroom : ℕ) (delay : ℕ → ℕ) (takes : ℕ → ℕ → ℕ) (fuel : ℕ) where
  abbrev burst : TxCtl → BurstTurn → TxCtl × BurstOutcome
  burst = tx_ctl_tx_burst headroom delay takes fuel

  -- The bytes of a burst on the wire.
  abbrev size_of : Option Mbufs → ℕ
  size_of none = 0
  size_of (some m) = add_sizes max_pkt_burst 0 m 0

  abbrev burst_size : BurstTurn → ℕ
  burst_size t = size_of (duff headroom max_pkt_burst t.mbufs)

  -- What a call leaves, by its outcome.
  abbrev After : TxCtl → ℕ → ℕ → TxCtl × BurstOutcome → Type 0
  After ctl cycles size (c, not_due) = c ≡ ctl
  After ctl cycles size (c, no_mbufs) = c ≡ ctl
  After ctl cycles size (c, panic) = Unit
  After ctl cycles size (c, spins) = Unit
  After ctl cycles size (c, sent calls freed) =
      (ctl.rate_next_cycles < cycles)
      × (c.total_size ≡ 0)
      × (c.rate_next_cycles ≡ (cycles + delay size) % 2 ^ 64)

  -- The bursts of a run of calls: when each was sent, and its bytes. A call that panics or spins is
  -- the last.
  abbrev after_call : ℕ → ℕ → BurstOutcome → List (ℕ × ℕ) → List (ℕ × ℕ)
  after_call cycles size not_due rest = rest
  after_call cycles size no_mbufs rest = rest
  after_call cycles size panic rest = []
  after_call cycles size spins rest = []
  after_call cycles size (sent calls freed) rest = (cycles, size) ∷ rest

  abbrev pub bursts : TxCtl → List BurstTurn → List (ℕ × ℕ)
  bursts ctl [] = []
  bursts ctl (t ∷ turns) =
      after_call t.cycles (burst_size t) (burst ctl t).1 (bursts (burst ctl t).0 turns)

  -- The first is sent after `next`, and each other one after the time for the bytes before it.
  abbrev pub IsPaced : ℕ → List (ℕ × ℕ) → Type 0
  IsPaced next [] = Unit
  IsPaced next ((cycles, size) ∷ rest) = (next < cycles) × IsPaced (cycles + delay size) rest

  -- No clock is so late that the time of the next burst would wrap.
  abbrev pub AreEarly : ℕ → List BurstTurn → Type 0
  AreEarly most [] = Unit
  AreEarly most (t ∷ turns) = (t.cycles + most < 2 ^ 64) × AreEarly most turns
