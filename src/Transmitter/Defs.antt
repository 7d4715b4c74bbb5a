-- ===== src/Transmitter/Defs.antt =====
-- The functions of src/transmitter.c that send. DPDK is a parameter: what `rte_mempool_get_bulk` and
-- `rte_eth_tx_burst` answer, and the clock.
use pkt_sender.Prelude.{
  ℕ, zero, suc, ◌+◌, ◌/◌, ◌%◌, Bool, false, List, [], ◌∷◌, Option, none, some, if◌then◌else◌, leb,
  ◌==◌, length, take, drop,
}

-- `MAX_PKT_BURST`, and `FRAME_EXTRA_BYTES`: the gap, preamble and checksum of a frame.
abbrev pub max_pkt_burst : ℕ
max_pkt_burst = 32

-- What the code reads and writes of a `struct rte_mbuf`. `next` is whether there is a next segment.
pub record RteMbuf : Type 0 where
  pub refcnt : ℕ
  pub next : Bool
  pub nb_segs : ℕ
  pub port : ℕ
  pub data_off : ℕ
  pub buf_len : ℕ
  pub pkt_len : ℕ

-- The mbufs of a table, by their place in it.
abbrev pub Mbufs : Type 0
Mbufs = ℕ → RteMbuf

-- `RTE_PKTMBUF_HEADROOM` is a parameter of the build.
unfoldable pub pktmbuf_reset : ℕ → RteMbuf → RteMbuf
pktmbuf_reset headroom m = record m {
  next = false;
  nb_segs = 1;
  port = 0xff;
  data_off = if leb headroom m.buf_len then headroom else m.buf_len;
}

-- One copy of the body: `none` is a panic of `RTE_VERIFY`.
unfoldable pub init_mbuf : ℕ → ℕ → Mbufs → Option Mbufs
init_mbuf headroom idx mbufs =
    if (mbufs idx).refcnt == 0
    then some (λ i.
      if i == idx then pktmbuf_reset headroom (record (mbufs idx) { refcnt = 1 }) else mbufs i)
    else none

unfoldable pub then_do : Option Mbufs → (Mbufs → Option Mbufs) → Option Mbufs
then_do none f = none
then_do (some mbufs) f = f mbufs

-- `n` copies of the body, from `idx` on.
unfoldable pub bodies : ℕ → ℕ → ℕ → Mbufs → Option Mbufs
bodies headroom zero idx mbufs = some mbufs
bodies headroom (suc n) idx mbufs =
    then_do (init_mbuf headroom idx mbufs) (λ m. bodies headroom n (suc idx) m)

-- The `while` loop of four copies, with fuel.
unfoldable pub unrolled : ℕ → ℕ → ℕ → ℕ → Mbufs → Option Mbufs
unrolled headroom zero count idx mbufs = none
unrolled headroom (suc fuel) count idx mbufs =
    let rest =
      then_do (bodies headroom 4 idx mbufs) (λ m. unrolled headroom fuel count (idx + 4) m) in
    if idx == count then some mbufs else rest

-- The `switch` of `__pktmbuf_alloc_bulk`, which enters the loop before its last `count % 4` copies.
-- The loop tests `idx != count` once more than it has rounds.
unfoldable pub duff : ℕ → ℕ → Mbufs → Option Mbufs
duff headroom count mbufs =
    then_do (bodies headroom (count % 4) 0 mbufs)
      (λ m. unrolled headroom (suc (count / 4)) count (count % 4) m)

-- What the system gives for a call: the cycles, whether the pool has the mbufs, and these.
pub record BurstTurn : Type 0 where
  pub cycles : ℕ
  pub got : Bool
  pub mbufs : Mbufs

-- `__send_burst` with fuel, as the lists of packets that the driver takes: `takes i cnt` is what the
-- call number `i` of `rte_eth_tx_burst` answers for `cnt` packets.
unfoldable pub send_burst : (ℕ → ℕ → ℕ) → ℕ → ℕ → List ℕ → Option (List (List ℕ))
send_burst takes fuel i [] = some []
send_burst takes zero i (p ∷ pkts) = none
send_burst takes (suc fuel) i (p ∷ pkts) =
    let ret = takes i (length (p ∷ pkts)) in
    elim (send_burst takes fuel (suc i) (drop ret (p ∷ pkts))) [
      | none ↦ none
      | some calls ↦ some (take ret (p ∷ pkts) ∷ calls)
    ]
