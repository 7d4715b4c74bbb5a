-- ===== src/Config/Defs.antt =====
-- `__check_mapping` of src/main.c, over the array of mappings that it changes in place.
use pkt_sender.Prelude.{
  ℕ, zero, suc, Bool, true, false, not, ◌&&◌, List, Option, none, some, if◌then◌else◌, ltb, leb,
  ◌==◌, get_or, set,
}
use pkt_sender.Port.Defs.{Ports, port_is_enabled}
use pkt_sender.Control.Defs.{lcore_job_tx}

pub record LcoreParams : Type 0 where
  pub port_id : ℕ
  pub job : ℕ
  pub lcore_id : ℕ

abbrev pub max_lcore_params : ℕ
max_lcore_params = 128

-- An entry of the array before it is set.
abbrev pub unset : LcoreParams
unset = record { port_id = 0; job = 0; lcore_id = 0 }

-- What the check reads: `pktsender`, the table of the ports, and `rte_lcore_is_enabled`.
pub record Machine : Type 0 where
  pub nb_ports : ℕ
  pub ports : Ports
  pub stat_lcore : ℕ
  pub lcore_is_enabled : ℕ → Bool

-- The tests of a mapping by itself.
unfoldable pub is_valid : Machine → LcoreParams → Bool
is_valid m p =
    if leb m.nb_ports p.port_id
    then false
    else if not (port_is_enabled m.ports p.port_id)
    then false
    else if not (m.lcore_is_enabled p.lcore_id)
    then false
    else not (p.lcore_id == m.stat_lcore)

unfoldable pub same_queue : LcoreParams → LcoreParams → Bool
same_queue p q = (p.port_id == q.port_id) && (p.job == q.job)

-- The loop that looks for a duplicate, with `n` entries left, the next of them the `j`-th.
unfoldable pub is_dup : LcoreParams → List LcoreParams → ℕ → ℕ → Bool
is_dup p params zero j = false
is_dup p params (suc n) j =
    let rest = is_dup p params n (suc j) in
    if same_queue p (get_or params j unset) then true else rest

-- One round of the loop over the mappings: the array, and `real_cnt`.
unfoldable pub check_one : Machine → ℕ → List LcoreParams → ℕ → List LcoreParams × ℕ
check_one m i params real_cnt =
    let p = get_or params i unset in
    if is_valid m p && not (is_dup p params real_cnt 0)
    then (if ltb real_cnt i then set params real_cnt p else params, suc real_cnt)
    else (params, real_cnt)

unfoldable pub check_loop : Machine → ℕ → ℕ → List LcoreParams → ℕ → List LcoreParams × ℕ
check_loop m zero i params real_cnt = (params, real_cnt)
check_loop m (suc n) i params real_cnt =
    let (params', real_cnt') = check_one m i params real_cnt in
    check_loop m n (suc i) params' real_cnt'

-- The mapping that the statistics lcore gets for a port.
unfoldable pub measurement : Machine → ℕ → LcoreParams
measurement m i = record { port_id = i; job = lcore_job_tx; lcore_id = m.stat_lcore }

-- The loop that adds them, with `n` ports left, the next of them the `i`-th. `none` is a write
-- behind the end of the array, which the code does not check for.
unfoldable pub add_measurements :
    Machine → ℕ → ℕ → List LcoreParams → ℕ → Option (List LcoreParams × ℕ)
add_measurements m zero i params real_cnt = some (params, real_cnt)
add_measurements m (suc n) i params real_cnt =
    let enabled = port_is_enabled m.ports i in
    let params' = if enabled then set params real_cnt (measurement m i) else params in
    let real_cnt' = if enabled then suc real_cnt else real_cnt in
    let rest = add_measurements m n (suc i) params' real_cnt' in
    if enabled
    then if leb max_lcore_params real_cnt
      then none
      else if leb max_lcore_params real_cnt'
      then some (params', real_cnt')
      else rest
    else rest

-- `__check_mapping` for `nb` mappings; it gives the array too.
unfoldable pub check_mapping : Machine → List LcoreParams → ℕ → Option (List LcoreParams × ℕ)
check_mapping m params nb =
    let (params', real_cnt) = check_loop m nb 0 params 0 in
    add_measurements m m.nb_ports 0 params' real_cnt
