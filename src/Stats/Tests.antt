-- ===== src/Stats/Tests.antt =====
-- The statistics of src/stat.c at concrete inputs.
use pkt_sender.Prelude.{ℕ, ◌+◌, ◌*◌, ◌≡◌, refl, arith, List, [], ◌∷◌, some, true}
use pkt_sender.Port.Defs.{Ports, port_is_enabled}
use pkt_sender.Stats.Defs.{EthStats, PortStats, stat_init, stat_stop}
use pkt_sender.Stats.Listed.{entries, stat_init-entries}

-- Ports 0 and 2 of three are enabled.
abbrev ports : Ports
ports = record {
  port_nb_max = 3;
  port_list =
      record { id = 0; is_enabled = 1; lcore_map = 128 ∷ 128 ∷ [] }
      ∷ record { id = 0; is_enabled = 0; lcore_map = 0 ∷ 0 ∷ [] }
      ∷ record { id = 2; is_enabled = 1; lcore_map = 128 ∷ 128 ∷ [] }
      ∷ [];
}

abbrev counters_at : ℕ → ℕ → EthStats
counters_at t port = record {
  ipackets = t * port;
  opackets = t * 10;
  ibytes = t * port * 60;
  obytes = t * 600;
}

abbrev clock : ℕ → ℕ
clock port = 1000 + port

abbrev table : List PortStats
table =
    record { portid = 0; cyc_start = 1000; stat_last = counters_at 1 0 }
    ∷ record { portid = 2; cyc_start = 1002; stat_last = counters_at 1 2 }
    ∷ []

stat_init-entries_example :
    stat_init ports (counters_at 1) clock true 3 2 ≡ some (entries ports (counters_at 1) clock 3 0)
unfolding entries port_is_enabled
stat_init-entries_example = stat_init-entries ports (counters_at 1) clock 3 2 refl (omega arith)

entries_two : entries ports (counters_at 1) clock 3 0 ≡ table
unfolding entries port_is_enabled
entries_two = refl

stopped :
    stat_stop (counters_at 4) (λ port. 5000) table
    ≡ record { portid = 0; cycle = 4000; totals = counters_at 4 0 }
      ∷ record { portid = 2; cycle = 3998; totals = counters_at 4 2 }
      ∷ []
unfolding stat_stop
stopped = refl

abbrev readings : List (ℕ → EthStats)
readings = counters_at 2 ∷ counters_at 5 ∷ []
