-- ===== src/Port/Setup.antt =====
-- The loops of `port_init` and `port_free` in src/port.c.
use pkt_sender.Prelude.{
  ℕ, zero, suc, ◌%◌, ◌^◌, Bool, true, false, List, [], ◌∷◌, ◌++◌, Option, none, some, if◌then◌else◌,
  ◌==◌, get_or,
}
use pkt_sender.Port.Defs.{PortInfo, Ports, cleared, lcore_job_max, port_is_enabled}
use pkt_sender.Port.Pools.{
  PortPools, PoolTable, no_pools, PortCall, Pool, pool_free, PortAnswers, Sockets, JobEnd, next_job,
  returns, fail_free_mp, port_init_dev, init_rx, init_tx,
}

-- The label `fail_free_mp`, and the body of `__port_free_single`: each pool that is there is freed.
unfoldable pub free_mp : Option (Pool) → List PortCall
free_mp none = []
free_mp (some mp) = pool_free mp ∷ []

unfoldable pub free_pools : PortPools → PortPools × List PortCall
free_pools pools = (no_pools, free_mp pools.rx_mp ++ free_mp pools.tx_mp)

-- The jobs that are left after one of them.
unfoldable pub then_jobs :
    PortPools × List PortCall × JobEnd
    → (PortPools → PortPools × List PortCall × JobEnd)
    → PortPools × List PortCall × JobEnd
then_jobs (pools, calls, next_job) rest = let (p, c, end) = rest pools in (p, calls ++ c, end)
then_jobs (pools, calls, returns) rest = (pools, calls, returns)
then_jobs (pools, calls, fail_free_mp) rest = (pools, calls, fail_free_mp)

module _ (ans : PortAnswers) (sockets : Sockets) (port : PortInfo) (portid : ℕ) where
  unfoldable pub init_job : ℕ → PortPools → PortPools × List PortCall × JobEnd
  init_job job pools =
      let lcoreid = get_or port.lcore_map job 0 in
      let socketid = sockets.socket_of lcoreid % 2 ^ 8 in
      if lcoreid == sockets.rte_max_lcore
      then (pools, [], next_job)
      else if job == 0
      then init_rx ans port portid socketid pools
      else init_tx ans sockets port portid lcoreid socketid pools

  -- The loop over the jobs, with `n` of them left, the next of them `job`.
  unfoldable pub init_jobs : ℕ → ℕ → PortPools → PortPools × List PortCall × JobEnd
  init_jobs zero job pools = (pools, [], next_job)
  init_jobs (suc n) job pools =
      then_jobs (init_job job pools) (λ pools'. init_jobs n (suc job) pools')

-- What is left, what was called, and whether the port is set up.
unfoldable pub end_single : PortPools × List PortCall × JobEnd → PortPools × List PortCall × Bool
end_single (pools, calls, next_job) = (pools, calls, true)
end_single (pools, calls, returns) = (pools, calls, false)
end_single (pools, calls, fail_free_mp) =
    let (pools', freed) = free_pools pools in (pools', calls ++ freed, false)

unfoldable pub with_dev :
    PortPools
    → List PortCall × Bool
    → PortPools × List PortCall × Bool
    → PortPools × List PortCall × Bool
with_dev pools (calls, true) (pools', calls', ok) = (pools', calls ++ calls', ok)
with_dev pools (calls, false) rest = (pools, calls, false)

unfoldable pub port_init_single :
    PortAnswers → Sockets → PortInfo → ℕ → PortPools → PortPools × List PortCall × Bool
port_init_single ans sockets port portid pools =
    with_dev pools (port_init_dev ans port)
      (end_single (init_jobs ans sockets port portid lcore_job_max 0 pools))

-- A table in which one entry is set.
abbrev pub set_pools : PoolTable → ℕ → PortPools → PoolTable
set_pools table i pools j = if j == i then pools else table j

module _ (ports : Ports) where
  unfoldable pub port_free_single : PoolTable → ℕ → PoolTable × List PortCall
  port_free_single table portid =
      let (pools, calls) = free_pools (table portid) in
      if port_is_enabled ports portid then (set_pools table portid pools, calls) else (table, [])

  -- The loops that free `n` ports, the next of them `i`.
  unfoldable pub free_ports : ℕ → ℕ → PoolTable → PoolTable × List PortCall
  free_ports zero i table = (table, [])
  free_ports (suc n) i table =
      let (table', calls) = port_free_single table i in
      let (table'', calls') = free_ports n (suc i) table' in (table'', calls ++ calls')

  -- The label `fail_clear`, if the port `i` is not set up; else the next ports.
  unfoldable pub after_port :
      ℕ
      → PoolTable × List PortCall × Bool
      → (PoolTable → PoolTable × List PortCall × Bool)
      → PoolTable × List PortCall × Bool
  after_port i (table, calls, true) rest =
      let (table', calls', ok) = rest table in (table', calls ++ calls', ok)
  after_port i (table, calls, false) rest =
      let (table', freed) = free_ports i 0 table in (table', calls ++ freed, false)

  module _ (answers : ℕ → PortAnswers) (sockets : Sockets) where
    -- One round: a port that is not enabled is passed over.
    unfoldable pub init_port : ℕ → PoolTable → PoolTable × List PortCall × Bool
    init_port i table =
        let (pools, calls, ok) =
          port_init_single (answers i) sockets (get_or ports.port_list i cleared) i (table i) in
        if port_is_enabled ports i then (set_pools table i pools, calls, ok) else (table, [], true)

    -- The loop with `n` ports left, the next of them `i`.
    unfoldable pub init_ports : ℕ → ℕ → PoolTable → PoolTable × List PortCall × Bool
    init_ports zero i table = (table, [], true)
    init_ports (suc n) i table =
        after_port i (init_port i table) (λ table'. init_ports n (suc i) table')

    unfoldable pub port_init : PoolTable → PoolTable × List PortCall × Bool
    port_init table = init_ports ports.port_nb_max 0 table

-- `port_free`, by the list of the ports: it is empty where `port_list` is NULL.
unfoldable pub free_list : Ports → List PortInfo → PoolTable → Ports × PoolTable × List PortCall
free_list ports [] table = (ports, table, [])
free_list ports (p ∷ ps) table =
    let (table', calls) = free_ports ports ports.port_nb_max 0 table in
    (record ports { port_list = [] }, table', calls)

unfoldable pub port_free : Ports → PoolTable → Ports × PoolTable × List PortCall
port_free ports table = free_list ports ports.port_list table
