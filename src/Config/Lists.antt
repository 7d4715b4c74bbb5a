-- ===== src/Config/Lists.antt =====
-- The ports that each lcore and job gets.
use pkt_sender.Prelude.{
  ℕ, ◌≤◌, ◌<◌, ◌≡◌, refl, sym, ap, ◌∙◌, inl, inr, Bool, true, false, ◌&&◌, List, [], ◌∷◌, ◌++◌,
  arith, if◌then◌else◌, leb, ◌==◌, length, take, length-set, Bool-cases, ==_iff,
}
use pkt_sender.Prelude.Slots.{take-set}
use pkt_sender.Control.Defs.{LcoreJob, max_port_per_job}
use pkt_sender.Config.Defs.{LcoreParams}
use pkt_sender.Config.Assign.{Assigned, is_for, add_port, assign_one, init_lcore_port}
use mathlib.Core.List.{append-nil, append_assoc}

-- The list of a job has its room, and as many ports as it has room for at most.
pub record IsJob (job : LcoreJob) : Type 0 where
  pub room : length job.port_list ≡ max_port_per_job
  pub most : job.nb_ports ≤ max_port_per_job

abbrev pub ports_of : LcoreJob → List ℕ
ports_of job = take job.nb_ports job.port_list

-- The ports of the mappings of this lcore and job, in order.
unfoldable pub wanted : ℕ → ℕ → List LcoreParams → List ℕ
wanted lcore job [] = []
wanted lcore job (p ∷ params) =
    let rest = wanted lcore job params in if is_for lcore job p then p.port_id ∷ rest else rest

-- A job after a part of the loop: it has these ports more.
pub record Gets (before : LcoreJob) (more : List ℕ) (after : LcoreJob) : Type 0 where
  pub ports : ports_of after ≡ ports_of before ++ more
  pub is_job : IsJob after

add_port-Gets :
    (job : LcoreJob) (port : ℕ)
    → IsJob job
    → job.nb_ports < max_port_per_job
    → Gets job (port ∷ []) (add_port job port)
unfolding add_port
add_port-Gets job port v h = record {
  ports = take-set job.nb_ports job.port_list port (omega (arith, v.room));
  is_job = record {
    room = length-set job.port_list job.nb_ports port ∙ v.room;
    most = omega arith;
  };
}

and-true : (a b : Bool) → (a && b) ≡ true → (a ≡ true) × (b ≡ true)
and-true false b e = cc
and-true true b e = (refl, e)

module _ (stat_lcore lcore job : ℕ) where
  assign_one-Gets :
      (p : LcoreParams) (s : Assigned)
      → IsJob (s.jobs lcore job)
      → (assign_one stat_lcore p s).1 ≡ true
      → Gets
          (s.jobs lcore job)
          (wanted lcore job (p ∷ []))
          ((assign_one stat_lcore p s).0.jobs lcore job)
  unfolding assign_one wanted
  assign_one-Gets p s v =
      elim (Bool-cases (leb max_port_per_job (s.jobs p.lcore_id p.job).nb_ports)) [
        | inl full ↦ rw full (λ e. cc)
        | inr free ↦ rw free (λ e. elim (Bool-cases (is_for lcore job p)) [
          | inr other ↦ rw other record { ports = sym (append-nil _); is_job = v }
          | inl mine ↦
              let (l, j) = and-true (p.lcore_id == lcore) (p.job == job) mine in
              let free' : leb max_port_per_job (s.jobs lcore job).nb_ports ≡ false =
                rw ((==_iff p.lcore_id lcore).0 l, (==_iff p.job job).0 j) at free in
              rw (mine, (==_iff p.lcore_id lcore).0 l, (==_iff p.job job).0 j)
                (add_port-Gets (s.jobs lcore job) p.port_id v (ground arith))
        ])
      ]

  wanted-cons :
      (p : LcoreParams) (params : List LcoreParams)
      → wanted lcore job (p ∷ []) ++ wanted lcore job params ≡ wanted lcore job (p ∷ params)
  unfolding wanted
  wanted-cons p params = elim (Bool-cases (is_for lcore job p)) [
    | inl e ↦ rw e refl
    | inr e ↦ rw e refl
  ]

  -- For a lcore and job whose list has room for four ports and holds at most four, where
  -- `__init_lcore_port` succeeds, the list holds its ports and then those of the mappings for
  -- it, in order, and at most four.
  pub init_lcore_port-Gets :
      (params : List LcoreParams) (s : Assigned)
      → IsJob (s.jobs lcore job)
      → (init_lcore_port stat_lcore params s).1 ≡ true
      → Gets
          (s.jobs lcore job)
          (wanted lcore job params)
          ((init_lcore_port stat_lcore params s).0.jobs lcore job)
  unfolding init_lcore_port wanted
  init_lcore_port-Gets [] s v = λ e. record { ports = sym (append-nil _); is_job = v }
  init_lcore_port-Gets (p ∷ params) s v = elim (Bool-cases (assign_one stat_lcore p s).1) [
    | inr over ↦ rw over (λ e. cc)
    | inl fits ↦ rw fits (λ e.
        let first = assign_one-Gets p s v fits in
        let rest = init_lcore_port-Gets params (assign_one stat_lcore p s).0 first.is_job e in
        record {
          ports =
              rest.ports
              ∙ ap (λ (t : List ℕ). t ++ wanted lcore job params) first.ports
              ∙ append_assoc (ports_of (s.jobs lcore job)) (wanted lcore job (p ∷ []))
                  (wanted lcore job params)
              ∙ ap (λ (t : List ℕ). ports_of (s.jobs lcore job) ++ t) (wanted-cons p params);
          is_job = rest.is_job;
        })
  ]
