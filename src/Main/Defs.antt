-- ===== src/Main/Defs.antt =====
-- `main` and `__pktsender_free` of src/main.c: which functions of the program they call, and what they
-- take and release. The system and DPDK are a parameter.
use pkt_sender.Prelude.{
  ℕ, ◌-◌, Bool, true, false, ◌&&◌, List, [], ◌∷◌, ◌++◌, Option, none, some, if◌then◌else◌, ltb,
  ◌==◌, length, take, replicate,
}
use pkt_sender.Control.Defs.{LcoreJob}
use pkt_sender.Port.Defs.{PortInfo, Ports, port_parse_opt}
use pkt_sender.Port.Devices.{DeviceCall, port_start, port_close}
use pkt_sender.Port.Pools.{PoolTable, no_pools, PortCall, PortAnswers, Sockets}
use pkt_sender.Port.Setup.{port_init, port_free}
use pkt_sender.Config.Defs.{LcoreParams, max_lcore_params, unset, check_mapping}
use pkt_sender.Config.Assign.{Assigned, init_lcore_port}
use pkt_sender.Stats.Defs.{EthStats, PortStats, stat_init}
use pkt_sender.Args.Options.{
  ArgCalls, Opt, ArgState, ArgsEnd, proceeds, invalid, crashes, spins, parse_args,
}

-- What main takes besides the pools of the ports: the tables, the pool of the probes and the timers.
pub data Resource : Type 0 where
  port_table stat_table probe_table probe_pool stat_timer probe_timer : Resource

pub data ResourceCall : Type 0 where
  takes releases : Resource → ResourceCall

-- The calls of each kind, in their order.
pub record MainLog : Type 0 where
  pub pools : List PortCall
  pub devices : List DeviceCall
  pub resources : List ResourceCall

-- Main returns 0, or -1, or it faults: it writes through NULL or behind an array.
pub data MainEnd : Type 0 where
  returns_0 returns_1 faults : MainEnd

-- What the system and DPDK give.
pub record World : Type 0 where
  pub eal_starts : Bool
  pub nb_ports : ℕ
  pub arg_calls : ArgCalls
  pub opts : List Opt
  pub at_start : ArgState
  pub port_memory : Bool
  pub sockets : Sockets
  pub lcore_is_enabled : ℕ → Bool
  pub answers : ℕ → PortAnswers
  pub counters : ℕ → EthStats
  pub cycles : ℕ → ℕ
  pub stat_memory : Bool
  pub probe_memory : Bool
  pub probe_pool_created : Bool
  pub starts : ℕ → Bool
  pub lcores_end : Bool

abbrev pub nothing_done : MainLog
nothing_done = record { pools = []; devices = []; resources = [] }

abbrev pub no_jobs : ℕ → ℕ → LcoreJob
no_jobs lcore job = record { nb_ports = 0; port_list = replicate 4 0 }

-- The release of a table that is not NULL.
unfoldable pub release_table : List PortInfo → List ResourceCall
release_table [] = []
release_table (p ∷ ps) = releases port_table ∷ []

-- `probe_init`: what it takes, and releases again where it fails.
unfoldable pub probe_calls : Bool → Bool → List ResourceCall
probe_calls false pool = []
probe_calls true false = takes probe_table ∷ releases probe_table ∷ []
probe_calls true true = takes probe_table ∷ takes probe_pool ∷ []

module _ (w : World) (ports : Ports) where
  -- `__pktsender_free`, and the log at a return: `has_stat` and `has_probe` say which of the tables
  -- are there.
  unfoldable pub pktsender_free :
      PoolTable → List PortCall → List DeviceCall → List ResourceCall → Bool → Bool → MainLog
  pktsender_free table pools devices resources has_stat has_probe = record {
    pools = pools ++ (port_free ports table).2;
    devices = devices;
    resources =
        resources
        ++ (release_table ports.port_list
            ++ ((if has_stat then releases stat_table ∷ [] else [])
                ++ (if has_probe then releases probe_table ∷ releases probe_pool ∷ [] else [])));
  }

  -- The end of main, after the lcores are launched.
  unfoldable pub after_launch :
      PoolTable → List PortCall → List DeviceCall → List ResourceCall → Bool → MainLog × MainEnd
  after_launch table pools devices resources true = (
    pktsender_free table pools (devices ++ port_close ports)
        (resources ++ (releases probe_timer ∷ releases stat_timer ∷ [])) true true,
    returns_0,
  )
  after_launch table pools devices resources false =
      (record { pools = pools; devices = devices; resources = resources }, returns_1)

  unfoldable pub after_start :
      PoolTable → List PortCall → List ResourceCall → List DeviceCall × Bool → MainLog × MainEnd
  after_start table pools resources (devices, true) =
      after_launch table pools devices (resources ++ (takes stat_timer ∷ takes probe_timer ∷ []))
        w.lcores_end
  after_start table pools resources (devices, false) =
      (pktsender_free table pools devices resources true true, returns_1)

  unfoldable pub after_probe :
      PoolTable → List PortCall → List ResourceCall → Bool → MainLog × MainEnd
  after_probe table pools resources true =
      after_start table pools resources (port_start ports w.starts)
  after_probe table pools resources false =
      (pktsender_free table pools [] resources true false, returns_1)

  unfoldable pub after_stat :
      PoolTable → List PortCall → List ResourceCall → Option (List PortStats) → MainLog × MainEnd
  after_stat table pools resources none =
      (pktsender_free table pools [] resources false false, returns_1)
  after_stat table pools resources (some stats) =
      after_probe table pools
        (resources ++ (takes stat_table ∷ probe_calls w.probe_memory w.probe_pool_created))
        (w.probe_memory && w.probe_pool_created)

  unfoldable pub after_port_init :
      ℕ → List ResourceCall → PoolTable × List PortCall × Bool → MainLog × MainEnd
  after_port_init nb_enabled resources (table, pools, true) =
      after_stat table pools resources
        (stat_init ports w.counters w.cycles w.stat_memory w.nb_ports nb_enabled)
  after_port_init nb_enabled resources (table, pools, false) =
      (pktsender_free table pools [] resources false false, returns_1)

module _ (w : World) where
  -- After `__init_lcore_port`, which writes the lcores into the table.
  unfoldable pub after_assign : ℕ → Assigned × Bool → MainLog × MainEnd
  after_assign nb_enabled (s, true) =
      after_port_init w s.ports nb_enabled (takes port_table ∷ [])
        (port_init s.ports w.answers w.sockets (λ i. no_pools))
  after_assign nb_enabled (s, false) = (
    pktsender_free w s.ports (λ i. no_pools) [] [] (takes port_table ∷ []) false false,
    returns_1,
  )

  -- After `__check_mapping`; `none` is a write behind the array.
  unfoldable pub after_check : Ports → ℕ → Option (List LcoreParams × ℕ) → MainLog × MainEnd
  after_check ports nb_enabled none = (nothing_done, faults)
  after_check ports nb_enabled (some (params, nb_lcore_params)) =
      if nb_lcore_params == 0
      then (
        pktsender_free w ports (λ i. no_pools) [] [] (takes port_table ∷ []) false false,
        returns_1,
      )
      else after_assign nb_enabled (
          init_lcore_port w.sockets.stat_lcore (take nb_lcore_params params)
            (record { jobs = no_jobs; ports = ports }))

  -- The array of the mappings is NULL where no configuration was given: the loop of
  -- `__check_mapping` over the enabled ports writes to it.
  unfoldable pub check_params : Ports → ℕ → Option (List LcoreParams) → MainLog × MainEnd
  check_params ports nb_enabled none = (nothing_done, faults)
  check_params ports nb_enabled (some params) = after_check ports nb_enabled (
      check_mapping
        (record {
          nb_ports = w.nb_ports;
          ports = ports;
          stat_lcore = w.sockets.stat_lcore;
          lcore_is_enabled = w.lcore_is_enabled;
        })
        (params ++ replicate (max_lcore_params - length params) unset) (length params))

  -- Where no port is enabled, the table is released by `port_parse_opt`, if it was there.
  unfoldable pub after_mask : Option (List LcoreParams) → Ports × ℕ → MainLog × MainEnd
  after_mask params (ports, nb_enabled) =
      if ltb nb_enabled 1
      then (
        record {
          pools = [];
          devices = [];
          resources = if w.port_memory then takes port_table ∷ releases port_table ∷ [] else [];
        },
        returns_1,
      )
      else check_params ports nb_enabled params

  unfoldable pub after_args : ArgsEnd → MainLog × MainEnd
  after_args (proceeds s) =
      after_mask s.lcore_params
        (port_parse_opt w.sockets.rte_max_lcore w.nb_ports w.port_memory s.portmask)
  after_args (invalid s) = (nothing_done, returns_1)
  after_args crashes = (nothing_done, faults)
  after_args spins = (nothing_done, faults)

  unfoldable pub main : MainLog × MainEnd
  main =
      if w.eal_starts
      then after_args (parse_args w.arg_calls w.opts w.at_start)
      else (nothing_done, returns_1)
