-- ===== src/Config/Assign.antt =====
-- `__init_lcore_port` of src/main.c. `jobs` is `pktsender.lcore_list[lcore].jobs[job]` of each
-- lcore and job.
use pkt_sender.Prelude.{
  ℕ, suc, Bool, true, false, ◌&&◌, List, [], ◌∷◌, if◌then◌else◌, leb, ◌==◌, set,
}
use pkt_sender.Control.Defs.{LcoreJob, max_port_per_job}
use pkt_sender.Port.Defs.{Ports, port_update_lcore}
use pkt_sender.Config.Defs.{LcoreParams}

pub record Assigned : Type 0 where
  pub jobs : ℕ → ℕ → LcoreJob
  pub ports : Ports

-- The mapping is one of this lcore and job.
abbrev pub is_for : ℕ → ℕ → LcoreParams → Bool
is_for lcore job p = (p.lcore_id == lcore) && (p.job == job)

-- The port at the end of a job's list.
unfoldable pub add_port : LcoreJob → ℕ → LcoreJob
add_port job port = record {
  nb_ports = suc job.nb_ports;
  port_list = set job.port_list job.nb_ports port;
}

-- One round of the loop of `__init_lcore_port`; `false` where it returns ERR_OUT_OF_RANGE.
unfoldable pub assign_one : ℕ → LcoreParams → Assigned → Assigned × Bool
assign_one stat_lcore p s =
    let lcore_job = s.jobs p.lcore_id p.job in
    if leb max_port_per_job lcore_job.nb_ports then (s, false) else (
      record {
        jobs = λ lcore job.
            if is_for lcore job p then add_port lcore_job p.port_id else s.jobs lcore job;
        ports =
            if p.lcore_id == stat_lcore
            then s.ports
            else port_update_lcore s.ports p.port_id p.lcore_id p.job;
      },
      true,
    )

-- `__init_lcore_port` for the mappings that are left.
unfoldable pub init_lcore_port : ℕ → List LcoreParams → Assigned → Assigned × Bool
init_lcore_port stat_lcore [] s = (s, true)
init_lcore_port stat_lcore (p ∷ params) s =
    let (s', fits) = assign_one stat_lcore p s in
    let rest = init_lcore_port stat_lcore params s' in if fits then rest else (s', false)
