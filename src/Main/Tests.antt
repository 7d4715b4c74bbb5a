-- ===== src/Main/Tests.antt =====
-- `main` of src/main.c at a concrete input.
use pkt_sender.Prelude.{ℕ, ◌-◌, refl, arith, true, false, List, [], ◌∷◌, none, ltb, ◌==◌}
use pkt_sender.Stats.Defs.{no_stats}
use pkt_sender.Args.Defs.{
  split_at, str_to_uint8, job_of, entry_job, entry_lcore, parse_fields, parse_entry, with_entry,
  parse_open, parse_next, parse_loop, parse_config,
}
use pkt_sender.Args.Options.{
  ArgCalls, portmask_opt, long_opt, option_config, same_text, parse_portmask, with_config,
  parse_args_long_options, after_long, parse_opt, parse_args,
}
use pkt_sender.Main.Defs.{World, main}
use pkt_sender.Main.Stages.{LeavesNothing}
use pkt_sender.Main.Cleanup.{IsConfigured, main-LeavesNothing}

-- Texts of one digit, and fields of one character.
first : List ℕ → ℕ
first [] = 0
first (x ∷ xs) = x - 48

three : List ℕ → List (List ℕ)
three (a ∷ c ∷ b ∷ d ∷ e ∷ []) = (a ∷ []) ∷ (b ∷ []) ∷ (e ∷ []) ∷ []
three _ = []

abbrev calls : ArgCalls
calls = record {
  text = record {
    strtoul = λ s. record { sets_errno = false; no_digits = false; val = first s };
    rte_strsplit = three;
  };
  strtoul_16 = λ e s. record { val = first s; errno = e; to_end = true };
  strtol = λ e s. (record { fails = false; negative = false; val = 0; unit = 0 }, e);
  sscanf = λ s. s;
}

-- A machine with two ports, both enabled by the mask 3; the device of port 1 does not start. The
-- configuration is "(0,T,1)(1,R,2)".
abbrev world : World
world = record {
  eal_starts = true;
  nb_ports = 2;
  arg_calls = calls;
  opts =
      portmask_opt (51 ∷ [])
      ∷ long_opt option_config
          (40 ∷ 48 ∷ 44 ∷ 84 ∷ 44 ∷ 49 ∷ 41 ∷ 40 ∷ 49 ∷ 44 ∷ 82 ∷ 44 ∷ 50 ∷ 41 ∷ [])
      ∷ [];
  at_start = record {
    portmask = 0;
    tx_rate = 0;
    prefix = none;
    lcore_params = none;
    dst_mac = record { byte0 = 0; byte1 = 0; byte2 = 0; byte3 = 0; byte4 = 0; byte5 = 0 };
    errno = false;
  };
  port_memory = true;
  sockets = record { rte_max_lcore = 128; socket_of = λ lcore. 0; stat_lcore = 0 };
  lcore_is_enabled = λ lcore. ltb lcore 4;
  answers = λ i. record {
    enough_queues = true;
    configures = true;
    rx_pool = true;
    rx_queue = true;
    tx_pool = true;
    tx_queue = true;
    probe_queue = true;
  };
  counters = λ i. no_stats;
  cycles = λ i. 0;
  stat_memory = true;
  probe_memory = true;
  probe_pool_created = true;
  starts = λ i. i == 0;
  lcores_end = true;
}

world-IsConfigured : IsConfigured (parse_args calls world.opts world.at_start)
unfolding parse_args parse_opt parse_portmask after_long parse_args_long_options same_text
    with_config parse_config parse_loop parse_next parse_open with_entry parse_entry parse_fields
    entry_lcore entry_job job_of str_to_uint8 split_at first three
world-IsConfigured = (
  record { port_id = 0; job = 1; lcore_id = 1 }
      ∷ record { port_id = 1; job = 0; lcore_id = 2 }
      ∷ [],
  refl,
  omega arith,
)

main-LeavesNothing_example : LeavesNothing (main world)
main-LeavesNothing_example = main-LeavesNothing world refl world-IsConfigured
