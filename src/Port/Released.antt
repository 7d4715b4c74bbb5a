-- ===== src/Port/Released.antt =====
-- No memory pool is left or freed twice by `port_init` and `port_free` of src/port.c.
use pkt_sender.Prelude.{
  ℕ, zero, suc, ◌+◌, ◌≤◌, ◌<◌, ◌≡◌, ◌≢◌, refl, sym, ap, ◌∙◌, arith, inl, inr, ◌⊎◌, Bool, true,
  false, List, [], ◌∷◌, ◌++◌, some, ◌==◌, Bool-cases, ℕ_discrete, get_or, dec_lt,
}
use pkt_sender.Port.Defs.{PortInfo, Ports, cleared, port_is_enabled}
use pkt_sender.Port.Pools.{Pool, PortPools, PoolTable, no_pools, PortCall, PortAnswers, Sockets}
use pkt_sender.Port.Setup.{
  free_pools, port_init_single, port_free_single, free_ports, after_port, init_port, init_ports,
  port_init, free_list, port_free,
}
use pkt_sender.Port.Tracked.{
  track, has, port_of, track-append, single, single-tracked, single-apart, single-elsewhere,
  single-tracked_elsewhere, single-failed,
}
use pkt_sender.Port.Owned.{
  owns, IdsMatch, Fits, Goes, Goes-none, Goes-trans, set_pools-Goes, port_free_single-Goes,
}

module _ (ports : Ports) (x : Pool) where
  free_ports-Goes :
      (n i : ℕ) (table : PoolTable)
      → Fits ports x table
      → Goes ports x table (free_ports ports n i table).0 (free_ports ports n i table).1
  unfolding free_ports
  free_ports-Goes zero i table f = Goes-none ports x table f
  free_ports-Goes (suc n) i table f =
      let g = port_free_single-Goes ports x table i f in
      Goes-trans ports x g (free_ports-Goes n (suc i) (port_free_single ports table i).0 g.fits)

  -- What is not owned stays so.
  port_free_single-owns :
      (table : PoolTable) (i : ℕ)
      → (owns table x ≡ false) ⊎ ((i ≡ port_of x) × (port_is_enabled ports i ≡ true))
      → owns (port_free_single ports table i).0 x ≡ false
  unfolding port_free_single free_pools
  port_free_single-owns table i h = ground arith

  free_ports-owns :
      (n i : ℕ) (table : PoolTable)
      → (owns table x ≡ false)
        ⊎ ((i ≤ port_of x) × (port_of x < i + n) × (port_is_enabled ports (port_of x) ≡ true))
      → owns (free_ports ports n i table).0 x ≡ false
  unfolding free_ports
  free_ports-owns zero i table (inl e) = e
  free_ports-owns zero i table (inr (lo, hi, on)) = absurd (omega arith)
  free_ports-owns (suc n) i table (inl e) =
      free_ports-owns n (suc i) (port_free_single ports table i).0
        (inl (port_free_single-owns table i (inl e)))
  free_ports-owns (suc n) i table (inr (lo, hi, on)) = elim (ℕ_discrete i (port_of x)) [
    | yes e ↦ free_ports-owns n (suc i) (port_free_single ports table i).0 (
        inl
          (port_free_single-owns table i (inr (e, ap (λ (k : ℕ). port_is_enabled ports k) e ∙ on))))
    | no ne ↦
        free_ports-owns n (suc i) (port_free_single ports table i).0
          (inr (omega arith, omega arith, on))
  ]

  module _ (answers : ℕ → PortAnswers) (sockets : Sockets) (ids : IdsMatch ports) where
    -- One port, and its entry where it is not set up.
    init_port-Goes :
        (i : ℕ) (table : PoolTable)
        → Fits ports x table
        → table i ≡ no_pools
        → Goes ports x table
            (init_port ports answers sockets i table).0
            (init_port ports answers sockets i table).1
    unfolding init_port
    init_port-Goes i table f fresh = elim (Bool-cases (port_is_enabled ports i)) [
      | inr off ↦ rw off (Goes-none ports x table f)
      | inl on ↦
          let ans : PortAnswers = answers i in
          let port : PortInfo = get_or ports.port_list i cleared in
          rw (on, fresh)
            (set_pools-Goes ports x table i (port_init_single ans sockets port i no_pools).0
              (port_init_single ans sockets port i no_pools).1 f on
              (λ e. rw fresh (single-tracked ans sockets port i x))
              (single-apart ans sockets port i x)
              (λ ne b.
                single-tracked_elsewhere ans sockets port i x b (λ e. ne (sym (ids i on) ∙ e)))
              (λ ne. single-elsewhere ans sockets port i x (λ e. ne (sym (ids i on) ∙ e))))
    ]

    init_port-keeps :
        (i : ℕ) (table : PoolTable) (j : ℕ)
        → i ≢ j
        → (init_port ports answers sockets i table).0 j ≡ table j
    unfolding init_port
    init_port-keeps i table j ne = ground arith

    init_port-failed :
        (i : ℕ) (table : PoolTable)
        → table i ≡ no_pools
        → (init_port ports answers sockets i table).2 ≡ false
        → (init_port ports answers sockets i table).0 i ≡ no_pools
    unfolding init_port
    init_port-failed i table fresh h = elim (Bool-cases (port_is_enabled ports i)) [
      | inr off ↦ rw off fresh
      | inl on ↦
          let self : (i == i) ≡ true = ground arith in
          let h' : (single (answers i) sockets (get_or ports.port_list i cleared) i).2 ≡ false =
            rw (on, fresh) at h in
          rw (on, self, fresh)
            (single-failed (answers i) sockets (get_or ports.port_list i cleared) i h')
    ]

  -- How the set-up goes on from a table: the life of the pool, and that it is gone after a failure.
  abbrev GoesOn : PoolTable → PoolTable × List PortCall × Bool → Type 0
  GoesOn table (table', calls, ok) =
      Goes ports x table table' calls × (ok ≡ false → owns table' x ≡ false)

  -- Where a port has failed, the pool is that of an earlier port, or is not there.
  owned_before :
      (i : ℕ) (table : PoolTable)
      → Fits ports x table
      → ((j : ℕ) → i ≤ j → table j ≡ no_pools)
      → (owns table x ≡ false)
        ⊎ ((0 ≤ port_of x) × (port_of x < 0 + i) × (port_is_enabled ports (port_of x) ≡ true))
  owned_before i table f fresh = elim (dec_lt (port_of x) i) [
    | no ge ↦ inl (ap (λ (p : PortPools). has x p) (fresh (port_of x) (omega arith)))
    | yes lt ↦ elim (Bool-cases (port_is_enabled ports (port_of x))) [
      | inl on ↦ inr (omega arith, omega arith, on)
      | inr off ↦ inl (f.disabled off)
    ]
  ]

  after_port-GoesOn :
      (i : ℕ) (table : PoolTable) (done : PoolTable × List PortCall × Bool)
      (rest : PoolTable → PoolTable × List PortCall × Bool)
      → Goes ports x table done.0 done.1
      → (done.2 ≡ false → done.0 i ≡ no_pools)
      → ((j : ℕ) → suc i ≤ j → done.0 j ≡ no_pools)
      → GoesOn done.0 (rest done.0)
      → GoesOn table (after_port ports i done rest)
  unfolding after_port
  after_port-GoesOn i table (t, calls, true) rest g failed fresh (h, gone) =
      (Goes-trans ports x g h, gone)
  after_port-GoesOn i table (t, calls, false) rest g failed fresh h =
      let from_i : (j : ℕ) → i ≤ j → t j ≡ no_pools = λ j le. elim (ℕ_discrete j i) [
        | yes e ↦ ap t e ∙ failed refl
        | no ne ↦ fresh j (omega arith)
      ] in
      (
        Goes-trans ports x g (free_ports-Goes i 0 t g.fits),
        λ _. free_ports-owns i 0 t (owned_before i t g.fits from_i),
      )

  module _ (answers : ℕ → PortAnswers) (sockets : Sockets) (ids : IdsMatch ports) where
    init_ports-GoesOn :
        (n i : ℕ) (table : PoolTable)
        → Fits ports x table
        → ((j : ℕ) → i ≤ j → table j ≡ no_pools)
        → GoesOn table (init_ports ports answers sockets n i table)
    unfolding init_ports
    init_ports-GoesOn zero i table f fresh = (Goes-none ports x table f, λ h. cc)
    init_ports-GoesOn (suc n) i table f fresh =
        let at_i : table i ≡ no_pools = fresh i (omega arith) in
        let g = init_port-Goes answers sockets ids i table f at_i in
        let later : (j : ℕ) → suc i ≤ j → (init_port ports answers sockets i table).0 j ≡ no_pools =
          λ j le.
            init_port-keeps answers sockets ids i table j (omega arith) ∙ fresh j (omega arith) in
        after_port-GoesOn i table (init_port ports answers sockets i table)
          (λ t. init_ports ports answers sockets n (suc i) t) g
          (init_port-failed answers sockets ids i table at_i) later
          (init_ports-GoesOn n (suc i) (init_port ports answers sockets i table).0 g.fits later)

  enabled-listed : ports.port_list ≡ [] → port_is_enabled ports (port_of x) ≡ false
  unfolding port_is_enabled
  enabled-listed e = rw e (ground arith)

  enabled-lt : port_is_enabled ports (port_of x) ≡ true → port_of x < ports.port_nb_max
  unfolding port_is_enabled
  enabled-lt e = ground arith

  -- `port_free` releases what the table has.
  free_list-releases :
      (l : List PortInfo) (table : PoolTable)
      → ports.port_list ≡ l
      → Fits ports x table
      → track x (owns table x) (free_list ports l table).2 ≡ some false
  unfolding free_list track
  free_list-releases [] table e f = ap some (f.disabled (enabled-listed e))
  free_list-releases (p ∷ ps) table e f =
      let g = free_ports-Goes ports.port_nb_max 0 table f in
      g.tracked
      ∙ ap some (
          free_ports-owns ports.port_nb_max 0 table
            (elim (Bool-cases (port_is_enabled ports (port_of x))) [
              | inl on ↦ inr (omega arith, omega (arith, enabled-lt on), on)
              | inr off ↦ inl (f.disabled off)
            ]))

  no_pools-Fits : Fits ports x (λ i. no_pools)
  no_pools-Fits = record { apart = refl; elsewhere = λ i ne. refl; disabled = λ off. refl }

-- Where no port is set up, there is nothing to free.
pub port_free-no_pools :
    (ports : Ports) (x : Pool) → track x false (port_free ports (λ i. no_pools)).2 ≡ some false
unfolding port_free
port_free-no_pools ports x =
    free_list-releases ports x ports.port_list (λ i. no_pools) refl (no_pools-Fits ports x)

-- For a table whose enabled ports bear their numbers, and whatever the driver answers: each
-- memory pool that `port_init` creates is freed once by `port_free`, or by `port_init` itself
-- where it fails, and no pool is freed that is not there.
pub port_init-releases :
    (ports : Ports) (answers : ℕ → PortAnswers) (sockets : Sockets) (x : Pool)
    → IdsMatch ports
    → let (table, calls, ok) = port_init ports answers sockets (λ i. no_pools) in
      (track x false (calls ++ (port_free ports table).2) ≡ some false)
      × ((ok ≡ true) ⊎ (track x false calls ≡ some false))
unfolding port_init port_free
port_init-releases ports answers sockets x ids =
    let table : PoolTable = λ i. no_pools in
    let done : PoolTable × List PortCall × Bool =
      init_ports ports answers sockets ports.port_nb_max 0 table in
    let (g, gone) =
      init_ports-GoesOn ports x answers sockets ids ports.port_nb_max 0 table
        (no_pools-Fits ports x) (λ j le. refl) in
    (
      track-append x false (owns done.0 x) false done.1 (free_list ports ports.port_list done.0).2
          g.tracked (free_list-releases ports x ports.port_list done.0 refl g.fits),
      elim (Bool-cases done.2) [ inl e ↦ inl e | inr e ↦ inr (g.tracked ∙ ap some (gone e)) ],
    )
