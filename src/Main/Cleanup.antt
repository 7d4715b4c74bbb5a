-- ===== src/Main/Cleanup.antt =====
-- Whatever the system answers, `main` of src/main.c releases what it takes.
use pkt_sender.Prelude.{
  ℕ, ◌≡◌, refl, arith, inl, inr, Bool, true, false, List, [], ◌∷◌, ◌++◌, some, if◌then◌else◌, ltb,
  ◌==◌, take, ◌-◌, ◌<◌, length, length-append, length-replicate, replicate, Bool-cases,
}
use pkt_sender.Port.Defs.{Ports, port_parse_opt}
use pkt_sender.Port.Pools.{no_pools}
use pkt_sender.Port.Setup.{port_init}
use pkt_sender.Port.Released.{port_init-releases}
use pkt_sender.Config.Defs.{LcoreParams, Machine, max_lcore_params, unset}
use pkt_sender.Config.Kept.{check_loop-Compacts}
use pkt_sender.Config.Measured.{check_mapping-Gives}
use pkt_sender.Config.Assign.{Assigned, init_lcore_port}
use pkt_sender.Args.Options.{ArgsEnd, proceeds, invalid, crashes, spins, parse_args}
use pkt_sender.Main.Defs.{
  port_table, takes, releases, MainLog, MainEnd, returns_1, World, after_assign, after_check,
  check_params, after_mask, after_args, main, no_jobs, nothing_done,
}
use pkt_sender.Main.Clean.{taken, same_resource}
use pkt_sender.Main.Stages.{
  LeavesNothing, nothing_IsClean, after_port_init-LeavesNothing, no_pools-IsClean,
}
use pkt_sender.Main.Kept.{IsTable, init_lcore_port-IsTable, port_parse_opt-IsTable}

-- The options give less than 128 mappings, or are refused.
abbrev pub IsConfigured : ArgsEnd → Type 0
IsConfigured (proceeds s) =
    (params : List LcoreParams) × (s.lcore_params ≡ some params)
    × (length params < max_lcore_params)
IsConfigured (invalid s) = Unit
IsConfigured crashes = ⊥
IsConfigured spins = ⊥

module _ (w : World) (ends : w.lcores_end ≡ true) where
  after_assign-LeavesNothing :
      (nb_enabled : ℕ) (done : Assigned × Bool)
      → IsTable done.0.ports
      → LeavesNothing (after_assign w nb_enabled done)
  unfolding after_assign
  after_assign-LeavesNothing nb_enabled (s, true) table =
      after_port_init-LeavesNothing w s.ports table nb_enabled
        (port_init s.ports w.answers w.sockets (λ i. no_pools)) ends
        (λ x. (port_init-releases s.ports w.answers w.sockets x table.ids).0)
  after_assign-LeavesNothing nb_enabled (s, false) table = no_pools-IsClean w s.ports table

  after_check-LeavesNothing :
      (ports : Ports) (nb_enabled : ℕ) (done : List LcoreParams × ℕ)
      → IsTable ports
      → LeavesNothing (after_check w ports nb_enabled (some done))
  unfolding after_check
  after_check-LeavesNothing ports nb_enabled (params, nb) table = elim (Bool-cases (nb == 0)) [
    | inl e ↦ rw e (no_pools-IsClean w ports table)
    | inr e ↦ rw e (
        after_assign-LeavesNothing nb_enabled
          (init_lcore_port w.sockets.stat_lcore (take nb params)
            (record { jobs = no_jobs; ports = ports }))
          (init_lcore_port-IsTable w.sockets.stat_lcore (take nb params)
            (record { jobs = no_jobs; ports = ports }) table))
  ]

  -- Fewer than 128 mappings leave room for the others.
  check_params-LeavesNothing :
      (ports : Ports) (nb_enabled : ℕ) (params : List LcoreParams)
      → length params < max_lcore_params
      → IsTable ports
      → LeavesNothing (check_params w ports nb_enabled (some params))
  unfolding check_params
  check_params-LeavesNothing ports nb_enabled params few table =
      let m : Machine = record {
        nb_ports = w.nb_ports;
        ports = ports;
        stat_lcore = w.sockets.stat_lcore;
        lcore_is_enabled = w.lcore_is_enabled;
      } in
      let array : List LcoreParams = params ++ replicate (max_lcore_params - length params) unset in
      let size : length array ≡ max_lcore_params = omega (
        arith,
        length-append params (replicate (max_lcore_params - length params) unset),
        length-replicate (max_lcore_params - length params) unset,
      ) in
      let kept = check_loop-Compacts m (length params) 0 0 array (omega arith) (omega arith) in
      let (done, e, _) =
        check_mapping-Gives m array (length params) size (omega arith)
          (omega (arith, kept.bounded)) in
      rw e (after_check-LeavesNothing ports nb_enabled done table)

  after_mask-LeavesNothing :
      (params : List LcoreParams) (found : Ports × ℕ)
      → length params < max_lcore_params
      → (ltb found.1 1 ≡ false → IsTable found.0)
      → LeavesNothing (after_mask w (some params) found)
  unfolding after_mask taken same_resource
  after_mask-LeavesNothing params (ports, nb_enabled) few table =
      elim (Bool-cases (ltb nb_enabled 1)) [
        | inl e ↦ rw e (elim (Bool-cases w.port_memory) [
          | inl f ↦ rw f (nothing_IsClean (takes port_table ∷ releases port_table ∷ []) refl)
          | inr f ↦ rw f (nothing_IsClean [] refl)
        ])
        | inr e ↦ rw e (check_params-LeavesNothing ports nb_enabled params few (table e))
      ]

  after_args-LeavesNothing : (end : ArgsEnd) → IsConfigured end → LeavesNothing (after_args w end)
  unfolding after_args taken same_resource
  after_args-LeavesNothing (proceeds s) (params, given, few) = rw given (
      after_mask-LeavesNothing params
        (port_parse_opt w.sockets.rte_max_lcore w.nb_ports w.port_memory s.portmask) few
        (port_parse_opt-IsTable w.sockets.rte_max_lcore w.nb_ports s.portmask w.port_memory))
  after_args-LeavesNothing (invalid s) h = nothing_IsClean [] refl
  after_args-LeavesNothing crashes h = absurd h
  after_args-LeavesNothing spins h = absurd h

either :
    (b : Bool) (x y : MainLog × MainEnd)
    → LeavesNothing x
    → LeavesNothing y
    → LeavesNothing (if b then x else y)
either true x y h k = h
either false x y h k = k

-- For all answers of the system with which every lcore ends its loop without an error, and where
-- the options give a configuration of less than 128 mappings or are refused: main does not fault,
-- and at its return each pool, table and timer that it took is released once, none is released
-- that is not taken, and no device runs.
pub main-LeavesNothing :
    (w : World)
    → w.lcores_end ≡ true
    → IsConfigured (parse_args w.arg_calls w.opts w.at_start)
    → LeavesNothing (main w)
unfolding main taken same_resource
main-LeavesNothing w ends configured =
    either w.eal_starts (after_args w (parse_args w.arg_calls w.opts w.at_start))
      (nothing_done, returns_1)
      (after_args-LeavesNothing w ends (parse_args w.arg_calls w.opts w.at_start) configured)
      (nothing_IsClean [] refl)
