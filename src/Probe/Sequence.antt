-- ===== src/Probe/Sequence.antt =====
-- The probes that the driver takes from a port are numbered one after the other.
use pkt_sender.Prelude.{
  ℕ, suc, ◌+◌, ◌^◌, ◌≤◌, ◌<◌, ◌≡◌, ◌≢◌, refl, sym, ap, subst, ◌∙◌, inl, inr, ◌⊎◌, Bool, true, false,
  List, [], ◌∷◌, Option, none, some, arith, if◌then◌else◌, ◌==◌, length, Bool-cases, ℕ_discrete,
}
use pkt_sender.Probe.Defs.{
  ProbeCtl, ProbePkt, ProbeEvent, prepares, transmits, records, frees, probe_of, construct_probe,
  with_packet, send_probe, send_then, send_probes,
}

-- The numbers of the probes that the driver has taken from a port.
abbrev pub sent_on : ℕ → List ProbeEvent → List ℕ
sent_on q [] = []
sent_on q (prepares p ∷ events) = sent_on q events
sent_on q (transmits p queue pkt true ∷ events) =
    if p == q then pkt.probe_id ∷ sent_on q events else sent_on q events
sent_on q (transmits p queue pkt false ∷ events) = sent_on q events
sent_on q (records p pkt ∷ events) = sent_on q events
sent_on q (frees pkt ∷ events) = sent_on q events

-- `n` probes are sent, and the next is made already or not.
abbrev pub IsPending : Option ProbePkt → ℕ → ℕ → Type 0
IsPending none idx n = idx ≡ n
IsPending (some p) idx n = (p.probe_id ≡ n) × (idx ≡ suc n)

abbrev pub IsReady : ℕ → ProbeCtl → ℕ → Type 0
IsReady q c n = (c.portid ≡ q) × IsPending c.next_pkt c.next_idx n

module _ (enabled : ℕ → Bool) where
  abbrev pub AreReady : (ℕ → ℕ) → ℕ → List ProbeCtl → Type 0
  AreReady n i [] = Unit
  AreReady n i (c ∷ cs) = (enabled i ≡ true → IsReady i c (n i)) × AreReady n (suc i) cs

  AreReady-map :
      (n k : ℕ → ℕ) (i : ℕ) (cs : List ProbeCtl)
      → ((q : ℕ) → i ≤ q → n q ≡ k q)
      → AreReady n i cs
      → AreReady k i cs
  AreReady-map n k i [] e r = tt
  AreReady-map n k i (c ∷ cs) e (h, r) = (
    λ on. subst (IsReady i c) (e i (omega arith)) (h on),
    AreReady-map n k (suc i) cs (λ q le. e q (omega arith)) r,
  )

  -- What a run of the loop leaves: of each port at most its next probe is sent, and of no port
  -- before the first.
  pub record Goes (n : ℕ → ℕ) (i : ℕ) (r : List ProbeCtl × List ProbeEvent) : Type 0 where
    pub ready : AreReady (λ q. n q + length (sent_on q r.1)) i r.0
    pub next_only : (q : ℕ) → (sent_on q r.1 ≡ []) ⊎ (sent_on q r.1 ≡ n q ∷ [])
    pub not_before : (q : ℕ) → q < i → sent_on q r.1 ≡ []

  pub Goes-none : (n : ℕ → ℕ) (i : ℕ) (cs : List ProbeCtl) → AreReady n i cs → Goes n i (cs, [])
  Goes-none n i cs r = record {
    ready = AreReady-map n (λ q. n q + 0) i cs (λ q le. omega arith) r;
    next_only = λ q. inl refl;
    not_before = λ q lt. refl;
  }

  -- A round that sends nothing, before the others.
  Goes-cons :
      (n : ℕ → ℕ) (i : ℕ) (c : ProbeCtl) (cs : List ProbeCtl) (events : List ProbeEvent)
      → (enabled i ≡ true → IsReady i c (n i))
      → Goes n (suc i) (cs, events)
      → Goes n i (c ∷ cs, events)
  Goes-cons n i c cs events h g = record {
    ready = (
      λ on.
          subst (IsReady i c) {x = n i} {y = n i + length (sent_on i events)}
            (omega (arith, ap length (g.not_before i (omega arith)))) (h on),
      g.ready,
    );
    next_only = g.next_only;
    not_before = λ q lt. g.not_before q (omega arith);
  }

  -- The controller with the packet that it is about to send.
  abbrev Has : ℕ → ℕ → Option (ProbeCtl × ProbePkt) → Type 0
  Has q n none = Unit
  Has q n (some (c, p)) =
      (c.portid ≡ q) × (p.probe_id ≡ n) × (c.next_idx ≡ suc n) × (c.next_pkt ≡ some p)

  with_packet-Has :
      (alloc : Bool) (q n : ℕ) (c : ProbeCtl) (o : Option ProbePkt)
      → c.next_pkt ≡ o
      → c.portid ≡ q
      → IsPending o c.next_idx n
      → suc n < 2 ^ 64
      → Has q n (with_packet alloc c o)
  unfolding with_packet construct_probe probe_of
  with_packet-Has alloc q n c (some p) e port pending lt = (port, pending.0, pending.1, e)
  with_packet-Has false q n c none e port pending lt = tt
  with_packet-Has true q n c none e port pending lt =
      (port, pending, omega (arith, pending, lt), refl)

  IsReady-Has :
      (alloc : Bool) (q n : ℕ) (c : ProbeCtl)
      → IsReady q c n
      → suc n < 2 ^ 64
      → Has q n (with_packet alloc c c.next_pkt)
  IsReady-Has alloc q n c r lt = with_packet-Has alloc q n c c.next_pkt refl r.0 r.1 lt

  module _ (n : ℕ → ℕ) (i : ℕ) (c : ProbeCtl) (p : ProbePkt) (cs : List ProbeCtl)
      (events : List ProbeEvent) (g : Goes n (suc i) (cs, events)) (at : c.portid ≡ i)
      (next : p.probe_id ≡ n i) (idx : c.next_idx ≡ suc (n i)) where
    abbrev taken_events : List ProbeEvent
    taken_events =
        prepares c.portid
        ∷ transmits c.portid c.queueid p true
        ∷ records c.portid p
        ∷ frees p
        ∷ events

    here : sent_on i taken_events ≡ n i ∷ []
    here =
        let e : (c.portid == i) ≡ true = ground arith in
        rw (e, next, g.not_before i (omega arith)) refl

    elsewhere : (q : ℕ) → q ≢ i → sent_on q taken_events ≡ sent_on q events
    elsewhere q ne = let e : (c.portid == q) ≡ false = ground arith in rw e refl

    taken-Goes : Goes n i (record c { next_pkt = none } ∷ cs, taken_events)
    taken-Goes = record {
      ready = (
        λ on. (at, idx ∙ omega (arith, ap length here)),
        AreReady-map (λ q. n q + length (sent_on q events))
            (λ q. n q + length (sent_on q taken_events)) (suc i) cs
            (λ q le.
              ap (λ (xs : List ℕ). n q + length xs) (sym (elsewhere q (λ e. absurd (omega arith)))))
            g.ready,
      );
      next_only = λ q. elim (ℕ_discrete q i) [
        | yes e ↦
            inr (ap (λ (x : ℕ). sent_on x taken_events) e ∙ here ∙ ap (λ (x : ℕ). n x ∷ []) (sym e))
        | no ne ↦ elim (g.next_only q) [
          | inl none_sent ↦ inl (elsewhere q ne ∙ none_sent)
          | inr one ↦ inr (elsewhere q ne ∙ one)
        ]
      ];
      not_before = λ q lt. elsewhere q (λ e. absurd (omega arith)) ∙ g.not_before q (omega arith);
    }

  send_then-Goes :
      (taken : Bool) (n : ℕ → ℕ) (i : ℕ) (c : ProbeCtl) (cs : List ProbeCtl)
      (o : Option (ProbeCtl × ProbePkt)) (rest : List ProbeCtl × List ProbeEvent)
      → AreReady n i (c ∷ cs)
      → Has i (n i) o
      → Goes n (suc i) rest
      → Goes n i (send_then taken c cs o rest)
  unfolding send_then send_probe
  send_then-Goes taken n i c cs none rest r h g = Goes-none n i (c ∷ cs) r
  send_then-Goes false n i c cs (some (c', p)) (cs', events) r h g =
      let waits =
        Goes-cons n i c' cs' events
          (λ on. (
            h.0,
            subst (λ (o : Option ProbePkt). IsPending o c'.next_idx (n i)) (sym h.3) (h.1, h.2),
          ))
          g in
      record { ready = waits.ready; next_only = waits.next_only; not_before = waits.not_before }
  send_then-Goes true n i c cs (some (c', p)) (cs', events) r h g =
      taken-Goes n i c' p cs' events g h.0 h.1 h.2

  pub send_probes-Goes :
      (alloc taken : ℕ → Bool) (n : ℕ → ℕ) (i : ℕ) (cs : List ProbeCtl)
      → ((q : ℕ) → suc (n q) < 2 ^ 64)
      → AreReady n i cs
      → Goes n i (send_probes enabled alloc taken i cs)
  unfolding send_probes
  send_probes-Goes alloc taken n i [] lt r = Goes-none n i [] r
  send_probes-Goes alloc taken n i (c ∷ cs) lt r = elim (Bool-cases (enabled i)) [
    | inl on ↦ rw on (
        send_then-Goes (taken i) n i c cs (with_packet (alloc i) c c.next_pkt)
          (send_probes enabled alloc taken (suc i) cs) r
          (IsReady-Has (alloc i) i (n i) c (r.0 on) (lt i))
          (send_probes-Goes alloc taken n (suc i) cs lt r.1))
    | inr off ↦ rw off (Goes-cons n i c _ _ r.0 (send_probes-Goes alloc taken n (suc i) cs lt r.1))
  ]
