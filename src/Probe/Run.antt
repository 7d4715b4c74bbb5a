-- ===== src/Probe/Run.antt =====
-- The probes of a run of the timer, from the start.
use pkt_sender.Prelude.{
  ℕ, zero, suc, ◌+◌, ◌^◌, ◌≤◌, ◌<◌, ◌≡◌, refl, ap, subst, ◌∙◌, inl, inr, ◌⊎◌, Bool, true, false,
  ◌&&◌, List, [], ◌∷◌, ◌++◌, some, arith, ◌==◌, length, Bool-cases,
}
use mathlib.Core.Option.{some-injective}
use pkt_sender.Probe.Defs.{
  ProbeCtl, PktConfigure, ProbeEvent, prepares, transmits, records, frees, process_probe,
  init_local_probe, init_probes, probe_init,
}
use pkt_sender.Probe.Sequence.{sent_on, AreReady, Goes, Goes-none, send_probes-Goes}

-- One expiry of the timer: whether the TX jobs run, and the answers for each port.
pub record Tick : Type 0 where
  pub is_tx : Bool
  pub alloc : ℕ → Bool
  pub taken : ℕ → Bool

abbrev pub run : (ℕ → Bool) → List ProbeCtl → List Tick → List ProbeEvent
run enabled cs [] = []
run enabled cs (t ∷ ticks) =
    let (cs', events) = process_probe t.is_tx enabled t.alloc t.taken cs in
    events ++ run enabled cs' ticks

abbrev pub numbers_from : ℕ → ℕ → List ℕ
numbers_from zero i = []
numbers_from (suc n) i = i ∷ numbers_from n (suc i)

sent_on-append : (q : ℕ) (a b : List ProbeEvent) → sent_on q (a ++ b) ≡ sent_on q a ++ sent_on q b
sent_on-append q [] b = refl
sent_on-append q (prepares p ∷ a) b = sent_on-append q a b
sent_on-append q (transmits p queue pkt false ∷ a) b = sent_on-append q a b
sent_on-append q (records p pkt ∷ a) b = sent_on-append q a b
sent_on-append q (frees pkt ∷ a) b = sent_on-append q a b
sent_on-append q (transmits p queue pkt true ∷ a) b = elim (Bool-cases (p == q)) [
  | inl e ↦ rw e (ap (λ (xs : List ℕ). pkt.probe_id ∷ xs) (sent_on-append q a b))
  | inr e ↦ rw e (sent_on-append q a b)
]

module _ (enabled : ℕ → Bool) where
  tick-Goes :
      (t : Tick) (n : ℕ → ℕ) (cs : List ProbeCtl)
      → ((q : ℕ) → suc (n q) < 2 ^ 64)
      → AreReady enabled n 0 cs
      → Goes enabled n 0 (process_probe t.is_tx enabled t.alloc t.taken cs)
  unfolding process_probe
  tick-Goes t n cs lt r = elim (Bool-cases t.is_tx) [
    | inl e ↦ rw e (send_probes-Goes enabled t.alloc t.taken n 0 cs lt r)
    | inr e ↦ rw e (Goes-none enabled n 0 cs r)
  ]

  -- At most one probe and then those that follow it.
  joined :
      (xs ys : List ℕ) (n k : ℕ)
      → (xs ≡ []) ⊎ (xs ≡ n ∷ [])
      → ys ≡ numbers_from k (n + length xs)
      → (m : ℕ) × (xs ++ ys ≡ numbers_from m n)
  joined xs ys n k (inl e) f = (k, rw e (f ∙ ap (numbers_from k) (omega (arith, ap length e))))
  joined xs ys n k (inr e) f = (
    suc k,
    rw e (ap (λ (t : List ℕ). n ∷ t) (f ∙ ap (numbers_from k) (omega (arith, ap length e)))),
  )

  at_most_one : (xs : List ℕ) (n : ℕ) → (xs ≡ []) ⊎ (xs ≡ n ∷ []) → length xs ≤ 1
  at_most_one xs n (inl e) = omega (arith, ap length e)
  at_most_one xs n (inr e) = omega (arith, ap length e)

  run-numbers :
      (ticks : List Tick) (n : ℕ → ℕ) (cs : List ProbeCtl) (q : ℕ)
      → ((x : ℕ) → n x + length ticks < 2 ^ 64)
      → AreReady enabled n 0 cs
      → (m : ℕ) × (sent_on q (run enabled cs ticks) ≡ numbers_from m (n q))
  run-numbers [] n cs q lt r = (0, refl)
  run-numbers (t ∷ ticks) n cs q lt r =
      let done = process_probe t.is_tx enabled t.alloc t.taken cs in
      let g : Goes enabled n 0 done = tick-Goes t n cs (λ x. omega (arith, lt x)) r in
      let (k, rest) =
        run-numbers ticks (λ x. n x + length (sent_on x done.1)) done.0 q
          (λ x. omega (arith, lt x, at_most_one (sent_on x done.1) (n x) (g.next_only x)))
          g.ready in
      let (m, all) =
        joined (sent_on q done.1) (sent_on q (run enabled done.0 ticks)) (n q) k (g.next_only q)
          rest in
      (m, sent_on-append q done.1 (run enabled done.0 ticks) ∙ all)

  init-AreReady :
      (seq : ℕ → PktConfigure) (n i : ℕ) → AreReady enabled (λ q. 0) i (init_probes enabled seq n i)
  unfolding init_probes init_local_probe
  init-AreReady seq zero i = tt
  init-AreReady seq (suc n) i = (λ on. rw on (refl, refl), init-AreReady seq n (suc i))

probe_init-list :
    (enabled : ℕ → Bool) (seq : ℕ → PktConfigure) (malloc_ok pool_ok : Bool) (nb_ports : ℕ)
    (cs : List ProbeCtl)
    → probe_init enabled seq malloc_ok pool_ok nb_ports ≡ some cs
    → init_probes enabled seq nb_ports 0 ≡ cs
unfolding probe_init
probe_init-list enabled seq malloc_ok pool_ok nb_ports cs e =
    elim (Bool-cases (malloc_ok && pool_ok)) [
      | inl ok ↦ some-injective _ _ (rw ok at e)
      | inr bad ↦ cc (rw bad at e)
    ]

-- With mbufs as values, which no two controllers share, from what `probe_init` gives, and for less than 2 ^ 64 expiries of the timer, the probes that
-- the driver takes from any one port are numbered 0, 1, 2 and so on, with none left out and none
-- sent twice, whatever the driver and the pool answer.
pub run-numbers_from :
    (enabled : ℕ → Bool) (seq : ℕ → PktConfigure) (malloc_ok pool_ok : Bool) (nb_ports : ℕ)
    (cs : List ProbeCtl) (ticks : List Tick) (q : ℕ)
    → probe_init enabled seq malloc_ok pool_ok nb_ports ≡ some cs
    → length ticks < 2 ^ 64
    → (m : ℕ) × (sent_on q (run enabled cs ticks) ≡ numbers_from m 0)
run-numbers_from enabled seq malloc_ok pool_ok nb_ports cs ticks q e lt =
    run-numbers enabled ticks (λ x. 0) cs q (λ x. omega (arith, lt))
      (subst (AreReady enabled (λ x. 0) 0)
        (probe_init-list enabled seq malloc_ok pool_ok nb_ports cs e)
        (init-AreReady enabled seq nb_ports 0))
