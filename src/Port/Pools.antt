-- ===== src/Port/Pools.antt =====
-- `port_init` and `port_free` of src/port.c, with their memory pools and queues, as the calls of the
-- driver that they make. DPDK is a parameter: what it answers for each port.
use pkt_sender.Prelude.{
  ℕ, ◌%◌, ◌^◌, Bool, true, false, List, [], ◌∷◌, Option, none, some, if◌then◌else◌,
}
use pkt_sender.Port.Defs.{PortInfo}

-- A pool by its name, which has the port and the socket.
pub data Pool : Type 0 where
  rx_mbuf_pool : ℕ → ℕ → Pool
  tx_mbuf_pool : ℕ → ℕ → Pool

-- `rx_mp` and `tx_mp` of a port, where `none` is NULL.
pub record PortPools : Type 0 where
  pub rx_mp : Option Pool
  pub tx_mp : Option Pool

-- The pools of all ports, by the port.
abbrev pub PoolTable : Type 0
PoolTable = ℕ → PortPools

abbrev pub no_pools : PortPools
no_pools = record { rx_mp = none; tx_mp = none }

-- The calls that may fail stand with their answer.
pub data PortCall : Type 0 where
  dev_configure : ℕ → Bool → PortCall
  pool_create : Pool → Bool → PortCall
  rx_queue_setup : ℕ → ℕ → Pool → Bool → PortCall
  tx_queue_setup : ℕ → ℕ → ℕ → Bool → PortCall
  setup_packets : ℕ → Pool → PortCall
  pool_free : Pool → PortCall

-- What DPDK answers for a port: whether it has TX queues enough, whether its configuration, its
-- pools and its queues succeed.
pub record PortAnswers : Type 0 where
  pub enough_queues : Bool
  pub configures : Bool
  pub rx_pool : Bool
  pub rx_queue : Bool
  pub tx_pool : Bool
  pub tx_queue : Bool
  pub probe_queue : Bool

-- What the set-up reads besides: RTE_MAX_LCORE, the socket of an lcore, and the statistics lcore.
pub record Sockets : Type 0 where
  pub rte_max_lcore : ℕ
  pub socket_of : ℕ → ℕ
  pub stat_lcore : ℕ

-- How a job of the loop ends: with the next, by a return, or by the jump to `fail_free_mp`.
pub data JobEnd : Type 0 where
  next_job returns fail_free_mp : JobEnd

unfoldable pub port_init_dev : PortAnswers → PortInfo → List PortCall × Bool
port_init_dev ans port =
    if ans.enough_queues
    then (dev_configure port.id ans.configures ∷ [], ans.configures)
    else ([], false)

-- The branch of `LCORE_JOB_RX`.
unfoldable pub init_rx :
    PortAnswers → PortInfo → ℕ → ℕ → PortPools → PortPools × List PortCall × JobEnd
init_rx ans port portid socketid pools =
    let mp = rx_mbuf_pool port.id socketid in
    if ans.rx_pool
    then (
      record pools { rx_mp = some mp },
      pool_create mp true ∷ rx_queue_setup portid 0 mp ans.rx_queue ∷ [],
      if ans.rx_queue then next_job else fail_free_mp,
    )
    else (record pools { rx_mp = none }, pool_create mp false ∷ [], returns)

-- The other branch, after the pool is there.
unfoldable pub init_tx_queues : PortAnswers → Sockets → ℕ → ℕ → Pool → List PortCall × JobEnd
init_tx_queues ans sockets portid lcoreid mp =
    if ans.tx_queue
    then (
      tx_queue_setup portid 0 (sockets.socket_of lcoreid % 2 ^ 8) true
          ∷ setup_packets portid mp
          ∷ tx_queue_setup portid 1 (sockets.socket_of sockets.stat_lcore % 2 ^ 8) ans.probe_queue
          ∷ [],
      if ans.probe_queue then next_job else fail_free_mp,
    )
    else (tx_queue_setup portid 0 (sockets.socket_of lcoreid % 2 ^ 8) false ∷ [], fail_free_mp)

unfoldable pub init_tx :
    PortAnswers → Sockets → PortInfo → ℕ → ℕ → ℕ → PortPools → PortPools × List PortCall × JobEnd
init_tx ans sockets port portid lcoreid socketid pools =
    let mp = tx_mbuf_pool port.id socketid in
    let (calls, end) = init_tx_queues ans sockets portid lcoreid mp in
    if ans.tx_pool
    then (record pools { tx_mp = some mp }, pool_create mp true ∷ calls, end)
    else (record pools { tx_mp = none }, pool_create mp false ∷ [], fail_free_mp)
