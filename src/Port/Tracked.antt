-- ===== src/Port/Tracked.antt =====
-- The life of a memory pool through the calls of one port in src/port.c.
use pkt_sender.Prelude.{
  ℕ, ◌≡◌, ◌≢◌, arith, Bool, true, false, ◌&&◌, ◌||◌, List, [], ◌∷◌, ◌++◌, Option, none, some,
  if◌then◌else◌, ◌==◌,
}
use pkt_sender.Port.Defs.{PortInfo}
use pkt_sender.Port.Pools.{
  Pool, rx_mbuf_pool, tx_mbuf_pool, PortPools, no_pools, PortCall, dev_configure, pool_create,
  rx_queue_setup, tx_queue_setup, setup_packets, pool_free, PortAnswers, Sockets, port_init_dev,
  init_rx, init_tx, init_tx_queues,
}
use pkt_sender.Port.Setup.{
  free_mp, free_pools, then_jobs, init_job, init_jobs, end_single, with_dev, port_init_single,
}

unfoldable pub same : Pool → Pool → Bool
same (rx_mbuf_pool p s) (rx_mbuf_pool q t) = (p == q) && (s == t)
same (tx_mbuf_pool p s) (tx_mbuf_pool q t) = (p == q) && (s == t)
same (rx_mbuf_pool p s) (tx_mbuf_pool q t) = false
same (tx_mbuf_pool p s) (rx_mbuf_pool q t) = false

-- Whether the pool `x` is there after the calls, if it is before them or not. It is an error, `none`,
-- to create a pool that is there and to free one that is not.
unfoldable pub track : Pool → Bool → List PortCall → Option Bool
track x b [] = some b
track x b (pool_create y ok ∷ calls) =
    let rest = track x (if same x y && ok then true else b) calls in
    if same x y && (ok && b) then none else rest
track x b (pool_free y ∷ calls) =
    let rest = track x (if same x y then false else b) calls in
    if same x y then (if b then rest else none) else rest
track x b (dev_configure p ok ∷ calls) = track x b calls
track x b (rx_queue_setup p s y ok ∷ calls) = track x b calls
track x b (tx_queue_setup p q s ok ∷ calls) = track x b calls
track x b (setup_packets p y ∷ calls) = track x b calls

abbrev pub held : Pool → Option Pool → Bool
held x none = false
held x (some y) = same x y

-- Whether a port has the pool.
abbrev pub has : Pool → PortPools → Bool
has x pools = held x pools.rx_mp || held x pools.tx_mp

pub track-append :
    (x : Pool) (b b' b'' : Bool) (xs ys : List PortCall)
    → track x b xs ≡ some b'
    → track x b' ys ≡ some b''
    → track x b (xs ++ ys) ≡ some b''
unfolding track
track-append x b b' b'' [] ys e f = ground arith
track-append x b b' b'' (pool_create y ok ∷ xs) ys e f =
    ground (arith, track-append x (if same x y && ok then true else b) b' b'' xs ys)
track-append x b b' b'' (pool_free y ∷ xs) ys e f =
    ground (arith, track-append x (if same x y then false else b) b' b'' xs ys)
track-append x b b' b'' (dev_configure p ok ∷ xs) ys e f = track-append x b b' b'' xs ys e f
track-append x b b' b'' (rx_queue_setup p s y ok ∷ xs) ys e f = track-append x b b' b'' xs ys e f
track-append x b b' b'' (tx_queue_setup p q s ok ∷ xs) ys e f = track-append x b b' b'' xs ys e f
track-append x b b' b'' (setup_packets p y ∷ xs) ys e f = track-append x b b' b'' xs ys e f

abbrev pub port_of : Pool → ℕ
port_of (rx_mbuf_pool p s) = p
port_of (tx_mbuf_pool p s) = p

-- The set-up of a port that has no pool.
module _ (ans : PortAnswers) (sockets : Sockets) (port : PortInfo) (portid : ℕ) where
  abbrev pub single : PortPools × List PortCall × Bool
  single = port_init_single ans sockets port portid no_pools

  pub single-tracked : (x : Pool) → track x false single.1 ≡ some (has x single.0)
  unfolding port_init_single with_dev end_single init_jobs init_job then_jobs free_mp free_pools
      init_tx_queues init_tx init_rx port_init_dev track same
  single-tracked (rx_mbuf_pool p s) = ground arith
  single-tracked (tx_mbuf_pool p s) = ground arith

  pub single-apart : (x : Pool) → (held x single.0.rx_mp && held x single.0.tx_mp) ≡ false
  unfolding port_init_single with_dev end_single init_jobs init_job then_jobs free_mp free_pools
      init_tx_queues init_tx init_rx port_init_dev same
  single-apart (rx_mbuf_pool p s) = ground arith
  single-apart (tx_mbuf_pool p s) = ground arith

  pub single-elsewhere : (x : Pool) → port.id ≢ port_of x → has x single.0 ≡ false
  unfolding port_init_single with_dev end_single init_jobs init_job then_jobs free_mp free_pools
      init_tx_queues init_tx init_rx port_init_dev same
  single-elsewhere (rx_mbuf_pool p s) ne = ground arith
  single-elsewhere (tx_mbuf_pool p s) ne = ground arith

  pub single-tracked_elsewhere :
      (x : Pool) (b : Bool) → port.id ≢ port_of x → track x b single.1 ≡ some b
  unfolding port_init_single with_dev end_single init_jobs init_job then_jobs free_mp free_pools
      init_tx_queues init_tx init_rx port_init_dev track same
  single-tracked_elsewhere (rx_mbuf_pool p s) b ne = ground arith
  single-tracked_elsewhere (tx_mbuf_pool p s) b ne = ground arith

  pub single-failed : single.2 ≡ false → single.0 ≡ no_pools
  unfolding port_init_single with_dev end_single init_jobs init_job then_jobs free_mp free_pools
      init_tx_queues init_tx init_rx port_init_dev
  single-failed h = ground arith

-- The release of the pools of a port.
module _ (x : Pool) (pools : PortPools) where
  pub free_pools-tracked :
      (held x pools.rx_mp && held x pools.tx_mp) ≡ false
      → track x (has x pools) (free_pools pools).1 ≡ some false
  unfolding free_pools free_mp track
  free_pools-tracked apart = ground arith

  pub free_pools-tracked_elsewhere :
      (b : Bool) → has x pools ≡ false → track x b (free_pools pools).1 ≡ some b
  unfolding free_pools free_mp track
  free_pools-tracked_elsewhere b h = ground arith
