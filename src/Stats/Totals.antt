-- ===== src/Stats/Totals.antt =====
-- The reports of src/stat.c lose nothing between two expiries of the timer.
use pkt_sender.Prelude.{ℕ, ◌+◌, ◌*◌, ◌%◌, ◌^◌, ◌≡◌, List, [], ◌∷◌, get_or}
use pkt_sender.Stats.Defs.{EthStats, PortStats, no_entry, SpeedReport, process_stat}

-- The expiries of the timer, by the counters that each reads: the entries after them, and the reports.
unfoldable pub expiries :
    List (ℕ → EthStats) → List PortStats → List PortStats × List (List SpeedReport)
expiries [] stats = (stats, [])
expiries (counters ∷ later) stats =
    let (stats', reports) = process_stat counters stats in
    let (stats'', all) = expiries later stats' in (stats'', reports ∷ all)

abbrev nothing : SpeedReport
nothing = record { opkts = 0; ipkts = 0; tx_bps = 0; rx_bps = 0 }

-- The sum of a field over the reports of the `j`-th port.
abbrev pub total : (SpeedReport → ℕ) → ℕ → List (List SpeedReport) → ℕ
total field j [] = 0
total field j (reports ∷ all) = field (get_or reports j nothing) + total field j all

abbrev pub entry : ℕ → List PortStats → PortStats
entry j stats = get_or stats j no_entry

-- Two reports one after the other are the report of the whole time.
abbrev AddUp : SpeedReport → SpeedReport → SpeedReport → Type 0
AddUp r s t =
    ((r.opkts + s.opkts) % 2 ^ 64 ≡ t.opkts)
    × ((r.ipkts + s.ipkts) % 2 ^ 64 ≡ t.ipkts)
    × ((r.tx_bps + s.tx_bps) % 2 ^ 64 ≡ t.tx_bps)
    × ((r.rx_bps + s.rx_bps) % 2 ^ 64 ≡ t.rx_bps)

-- What the reports of a port add up to, with `r` for the whole time.
abbrev AddsUpTo : ℕ → List (List SpeedReport) → SpeedReport → Type 0
AddsUpTo j all r =
    (total (λ t. t.opkts) j all % 2 ^ 64 ≡ r.opkts)
    × (total (λ t. t.ipkts) j all % 2 ^ 64 ≡ r.ipkts)
    × (total (λ t. t.tx_bps) j all % 2 ^ 64 ≡ r.tx_bps)
    × (total (λ t. t.rx_bps) j all % 2 ^ 64 ≡ r.rx_bps)

-- What two numbers of 64 bits differ by.
abbrev pub IsMoved : ℕ → ℕ → ℕ → Type 0
IsMoved first sum last = (first + sum) % 2 ^ 64 ≡ last % 2 ^ 64

-- The reports of a port against the counters of its first and its last snapshot: the packets are
-- those that the counters moved by, and so are the bits, 8 for each byte and for the 24 bytes that
-- a frame has besides.
pub record MatchesCounters (j : ℕ) (all : List (List SpeedReport)) (first last : EthStats)
    : Type 0 where
  pub sent : IsMoved first.opackets (total (λ t. t.opkts) j all) last.opackets
  pub received : IsMoved first.ipackets (total (λ t. t.ipkts) j all) last.ipackets
  pub bits_sent :
      IsMoved
        ((first.obytes + first.opackets * 24) * 8)
        (total (λ t. t.tx_bps) j all)
        ((last.obytes + last.opackets * 24) * 8)
  pub bits_received :
      IsMoved
        ((first.ibytes + first.ipackets * 24) * 8)
        (total (λ t. t.rx_bps) j all)
        ((last.ibytes + last.ipackets * 24) * 8)
