-- ===== src/Stats/Defs.antt =====
-- The functions of src/stat.c. The driver's counters and the clock are parameters; the amounts are
-- those that the log lines print, before they are scaled as `double`.
use pkt_sender.Prelude.{
  ℕ, zero, suc, ◌+◌, ◌-◌, ◌*◌, ◌%◌, ◌^◌, Bool, ◌&&◌, ◌||◌, List, [], ◌∷◌, Option, none, some,
  if◌then◌else◌, ltb, leb, set, replicate,
}
use pkt_sender.Port.Defs.{Ports, port_is_enabled}
use pkt_sender.Transmitter.Burst.{frame_extra_bytes}

-- What the code reads of `struct rte_eth_stats`.
pub record EthStats : Type 0 where
  pub ipackets : ℕ
  pub opackets : ℕ
  pub ibytes : ℕ
  pub obytes : ℕ

pub record PortStats : Type 0 where
  pub portid : ℕ
  pub cyc_start : ℕ
  pub stat_last : EthStats

abbrev pub no_stats : EthStats
no_stats = record { ipackets = 0; opackets = 0; ibytes = 0; obytes = 0 }

-- An entry that `memset` has cleared.
abbrev pub no_entry : PortStats
no_entry = record { portid = 0; cyc_start = 0; stat_last = no_stats }

abbrev sub_64 : ℕ → ℕ → ℕ
sub_64 a b = (a + 2 ^ 64 - b % 2 ^ 64) % 2 ^ 64

-- The loop of `stat_init` with `n` ports left, the next of them `portid`. `counters` and `cycles` are
-- what the driver and the clock give after the counters of the port are set back.
unfoldable pub init_entries :
    Ports → ℕ → (ℕ → EthStats) → (ℕ → ℕ) → ℕ → ℕ → ℕ → List PortStats → List PortStats
init_entries ports nb_port_enabled counters cycles zero portid port_cnt port_stat = port_stat
init_entries ports nb_port_enabled counters cycles (suc n) portid port_cnt port_stat =
    let entry : PortStats = record {
      portid = portid;
      cyc_start = cycles portid;
      stat_last = counters portid;
    } in
    let enabled = port_is_enabled ports portid in
    let port_cnt' = if enabled then suc port_cnt else port_cnt in
    let port_stat' = if enabled then set port_stat port_cnt entry else port_stat in
    let rest =
      init_entries ports nb_port_enabled counters cycles n (suc portid) port_cnt' port_stat' in
    if enabled && leb nb_port_enabled port_cnt' then port_stat' else rest

-- `stat_init`, with memory for the table or without; `none` is false.
unfoldable pub stat_init : Ports → (ℕ → EthStats) → (ℕ → ℕ) → Bool → ℕ → ℕ → Option (List PortStats)
stat_init ports counters cycles memory nb_ports nb_port_enabled =
    if ltb nb_port_enabled 1 || ltb nb_ports 1
    then none
    else if memory
    then some (
        init_entries ports nb_port_enabled counters cycles nb_ports 0 0
          (replicate nb_port_enabled no_entry))
    else none

-- The packets and the bits, with the gaps between the frames, since the last snapshot.
pub record SpeedReport : Type 0 where
  pub opkts : ℕ
  pub ipkts : ℕ
  pub tx_bps : ℕ
  pub rx_bps : ℕ

unfoldable pub calculate_statis : EthStats → EthStats → SpeedReport
calculate_statis start end =
    let opkts = sub_64 end.opackets start.opackets in
    let ipkts = sub_64 end.ipackets start.ipackets in
    record {
      opkts = opkts;
      ipkts = ipkts;
      tx_bps = (sub_64 end.obytes start.obytes + opkts * frame_extra_bytes) * 8 % 2 ^ 64;
      rx_bps = (sub_64 end.ibytes start.ibytes + ipkts * frame_extra_bytes) * 8 % 2 ^ 64;
    }

-- One expiry of the timer: the entries, and what is reported for each.
unfoldable pub process_stat : (ℕ → EthStats) → List PortStats → List PortStats × List SpeedReport
process_stat counters [] = ([], [])
process_stat counters (stat ∷ stats) =
    let cur_stat = counters stat.portid in
    let (stats', reports) = process_stat counters stats in
    (
      record stat { stat_last = cur_stat } ∷ stats',
      calculate_statis stat.stat_last cur_stat ∷ reports,
    )

-- What `stat_stop` reports of a port: the cycles that it ran, and its counters.
pub record StopReport : Type 0 where
  pub portid : ℕ
  pub cycle : ℕ
  pub totals : EthStats

unfoldable pub stat_stop : (ℕ → EthStats) → (ℕ → ℕ) → List PortStats → List StopReport
stat_stop counters cycles [] = []
stat_stop counters cycles (stat ∷ stats) =
    record {
      portid = stat.portid;
      cycle = sub_64 (cycles stat.portid) stat.cyc_start;
      totals = counters stat.portid;
    }
    ∷ stat_stop counters cycles stats
