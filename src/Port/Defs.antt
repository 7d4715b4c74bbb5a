-- ===== src/Port/Defs.antt =====
-- The table of the ports, from src/port.c and src/port.h.
use pkt_sender.Prelude.{
  ℕ, zero, suc, ◌+◌, ◌%◌, ◌^◌, bit_and, Bool, true, false, not, List, [], ◌∷◌, if◌then◌else◌, ltb,
  leb, ◌==◌, get_or, set, replicate,
}

-- The fields of `struct port_info` that say which ports and lcores work together.
pub record PortInfo : Type 0 where
  pub id : ℕ
  pub is_enabled : ℕ
  pub lcore_map : List ℕ

-- `port_nb_max` and `port_list`.
pub record Ports : Type 0 where
  pub port_nb_max : ℕ
  pub port_list : List PortInfo

-- `LCORE_JOB_MAX`
abbrev pub lcore_job_max : ℕ
lcore_job_max = 2

-- An entry that `memset` has cleared.
abbrev pub cleared : PortInfo
cleared = record { id = 0; is_enabled = 0; lcore_map = replicate lcore_job_max 0 }

unfoldable pub port_is_enabled : Ports → ℕ → Bool
port_is_enabled ports portid =
    if leb ports.port_nb_max portid
    then false
    else not ((get_or ports.port_list portid cleared).is_enabled == 0)

unfoldable pub port_update_lcore : Ports → ℕ → ℕ → ℕ → Ports
port_update_lcore ports portid lcoreid job =
    let port = get_or ports.port_list portid cleared in
    record ports {
      port_list =
          set ports.port_list portid (record port { lcore_map = set port.lcore_map job lcoreid });
    }

-- The loop over the port mask, for at most 64 ports, with `n` ports left, the next of them the `i`-th; it counts the
-- enabled ports in 8 bits. `rte_max_lcore` marks a job without lcore.
unfoldable pub parse_ports : ℕ → ℕ → ℕ → ℕ → List PortInfo × ℕ
parse_ports rte_max_lcore portmask zero i = ([], 0)
parse_ports rte_max_lcore portmask (suc n) i =
    let (ports, enabled_ports) = parse_ports rte_max_lcore portmask n (i + 1) in
    if bit_and portmask (2 ^ i) == 0 then (cleared ∷ ports, enabled_ports) else (
      record { id = i; is_enabled = 1; lcore_map = replicate lcore_job_max rte_max_lcore } ∷ ports,
      (enabled_ports + 1) % 2 ^ 8,
    )

-- `port_parse_opt` for `nb` devices, with memory for the table or without. A table that is NULL is
-- the empty list.
unfoldable pub port_parse_opt : ℕ → ℕ → Bool → ℕ → Ports × ℕ
port_parse_opt rte_max_lcore nb false portmask = (record { port_nb_max = nb; port_list = [] }, 0)
port_parse_opt rte_max_lcore nb true portmask =
    let (ports, enabled_ports) = parse_ports rte_max_lcore portmask nb 0 in
    if ltb 0 enabled_ports
    then (record { port_nb_max = nb; port_list = ports }, enabled_ports)
    else (record { port_nb_max = nb; port_list = [] }, enabled_ports)
