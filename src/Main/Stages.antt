-- ===== src/Main/Stages.antt =====
-- What `main` of src/main.c releases from the set-up of the ports on.
use pkt_sender.Prelude.{
  ℕ, ◌≡◌, ◌≢◌, refl, Bool, true, false, ◌&&◌, List, [], ◌∷◌, ◌++◌, Option, none, some,
  if◌then◌else◌,
}
use pkt_sender.Port.Defs.{PortInfo, Ports}
use pkt_sender.Port.Devices.{DeviceCall, port_start, port_close}
use pkt_sender.Port.Running.{runs, port_start-failed}
use pkt_sender.Port.Stopped.{port_start-closed}
use pkt_sender.Port.Pools.{Pool, PoolTable, no_pools, PortCall}
use pkt_sender.Port.Setup.{port_free}
use pkt_sender.Port.Tracked.{track}
use pkt_sender.Port.Released.{port_free-no_pools}
use pkt_sender.Stats.Defs.{PortStats, stat_init}
use pkt_sender.Main.Defs.{
  port_table, stat_table, probe_table, probe_pool, stat_timer, probe_timer, ResourceCall, takes,
  releases, MainLog, MainEnd, returns_0, returns_1, faults, World, release_table, probe_calls,
  pktsender_free, after_launch, after_start, after_probe, after_stat, after_port_init,
}
use pkt_sender.Main.Clean.{taken, same_resource, IsClean, settled, settled_lem}
use pkt_sender.Main.Kept.{IsTable}

-- What is proved of a run of main: it does not fault, and leaves nothing.
abbrev pub LeavesNothing : MainLog × MainEnd → Type 0
LeavesNothing (log, returns_0) = IsClean log
LeavesNothing (log, returns_1) = IsClean log
LeavesNothing (log, faults) = ⊥

release_table_lem : (l : List PortInfo) → l ≢ [] → release_table l ≡ releases port_table ∷ []
unfolding release_table
release_table_lem [] ne = absurd (ne refl)
release_table_lem (p ∷ l) ne = refl

pub nothing_IsClean :
    (resources : List ResourceCall)
    → settled resources ≡ true
    → IsClean (record { pools = []; devices = []; resources = resources })
unfolding track runs
nothing_IsClean resources h = record {
  pools = λ x. refl;
  devices = λ p. refl;
  resources = settled_lem resources h;
}

module _ (w : World) (ports : Ports) (table : IsTable ports) where
  -- The pools are released by `port_free`.
  abbrev Freed : PoolTable → List PortCall → Type 0
  Freed pools calls = (x : Pool) → track x false (calls ++ (port_free ports pools).2) ≡ some false

  -- What `__pktsender_free` releases besides.
  abbrev rest : Bool → Bool → List ResourceCall
  rest has_stat has_probe =
      releases port_table
      ∷ ((if has_stat then releases stat_table ∷ [] else [])
          ++ (if has_probe then releases probe_table ∷ releases probe_pool ∷ [] else []))

  pktsender_free-IsClean :
      (pools : PoolTable) (calls : List PortCall) (devices : List DeviceCall)
      (resources : List ResourceCall) (has_stat has_probe : Bool)
      → Freed pools calls
      → ((p : ℕ) → runs p false devices ≡ false)
      → settled (resources ++ rest has_stat has_probe) ≡ true
      → IsClean (pktsender_free w ports pools calls devices resources has_stat has_probe)
  unfolding pktsender_free
  pktsender_free-IsClean pools calls devices resources has_stat has_probe f d h = record {
    pools = f;
    devices = d;
    resources =
        rw (release_table_lem ports.port_list table.not_null)
          (settled_lem (resources ++ rest has_stat has_probe) h);
  }

  -- The resources before the devices are started.
  abbrev all_tables : List ResourceCall
  all_tables = takes port_table ∷ takes stat_table ∷ takes probe_table ∷ takes probe_pool ∷ []

  module _ (ends : w.lcores_end ≡ true) (pools : PoolTable) (calls : List PortCall)
      (freed : Freed pools calls) where
    after_start-LeavesNothing :
        (started : List DeviceCall × Bool)
        → ((p : ℕ) → runs p false (started.0 ++ port_close ports) ≡ false)
        → (started.1 ≡ false → (p : ℕ) → runs p false started.0 ≡ false)
        → LeavesNothing (after_start w ports pools calls all_tables started)
    unfolding after_start after_launch taken same_resource
    after_start-LeavesNothing (devices, true) closed failed =
        rw (ends, after_launch)
          (pktsender_free-IsClean pools calls (devices ++ port_close ports)
            (all_tables
              ++ (takes stat_timer
                  ∷ takes probe_timer
                  ∷ releases probe_timer
                  ∷ releases stat_timer
                  ∷ []))
            true true freed closed refl)
    after_start-LeavesNothing (devices, false) closed failed =
        pktsender_free-IsClean pools calls devices all_tables true true freed (failed refl) refl

    after_probe-LeavesNothing :
        (memory pool : Bool)
        → LeavesNothing (
            after_probe w ports pools calls
              (takes port_table ∷ takes stat_table ∷ probe_calls memory pool)
              (memory && pool))
    unfolding after_probe probe_calls taken same_resource runs
    after_probe-LeavesNothing true true =
        after_start-LeavesNothing (port_start ports w.starts) (port_start-closed ports w.starts)
          (λ e p. port_start-failed ports w.starts p e)
    after_probe-LeavesNothing true false =
        pktsender_free-IsClean pools calls []
          (takes port_table ∷ takes stat_table ∷ takes probe_table ∷ releases probe_table ∷ []) true
          false freed (λ p. refl) refl
    after_probe-LeavesNothing false pool =
        pktsender_free-IsClean pools calls [] (takes port_table ∷ takes stat_table ∷ []) true false
          freed (λ p. refl) refl

    after_stat-LeavesNothing :
        (o : Option (List PortStats))
        → LeavesNothing (after_stat w ports pools calls (takes port_table ∷ []) o)
    unfolding after_stat taken same_resource runs
    after_stat-LeavesNothing none =
        pktsender_free-IsClean pools calls [] (takes port_table ∷ []) false false freed (λ p. refl)
          refl
    after_stat-LeavesNothing (some stats) =
        after_probe-LeavesNothing w.probe_memory w.probe_pool_created

  pub after_port_init-LeavesNothing :
      (nb_enabled : ℕ) (done : PoolTable × List PortCall × Bool)
      → w.lcores_end ≡ true
      → Freed done.0 done.1
      → LeavesNothing (after_port_init w ports nb_enabled (takes port_table ∷ []) done)
  unfolding after_port_init taken same_resource runs
  after_port_init-LeavesNothing nb_enabled (pools, calls, true) ends freed =
      after_stat-LeavesNothing ends pools calls freed
        (stat_init ports w.counters w.cycles w.stat_memory w.nb_ports nb_enabled)
  after_port_init-LeavesNothing nb_enabled (pools, calls, false) ends freed =
      pktsender_free-IsClean pools calls [] (takes port_table ∷ []) false false freed (λ p. refl)
        refl

  -- The exits before a pool is created.
  pub no_pools-IsClean :
      IsClean (pktsender_free w ports (λ i. no_pools) [] [] (takes port_table ∷ []) false false)
  unfolding taken same_resource runs
  no_pools-IsClean =
      pktsender_free-IsClean (λ i. no_pools) [] [] (takes port_table ∷ []) false false
        (port_free-no_pools ports) (λ p. refl) refl
