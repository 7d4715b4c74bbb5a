-- ===== src/Stats/Listed.antt =====
-- Which ports `stat_init` of src/stat.c puts into its table.
use pkt_sender.Prelude.{
  ℕ, zero, suc, ◌+◌, ◌≤◌, ◌≡◌, refl, ap, ◌∙◌, inl, inr, arith, true, false, List, [], ◌∷◌, ◌++◌,
  some, if◌then◌else◌, ltb, leb, set, replicate, length, length-append, Bool-cases,
}
use mathlib.Core.List.{append-nil, append_assoc}
use pkt_sender.Port.Defs.{Ports, port_is_enabled}
use pkt_sender.Stats.Defs.{EthStats, PortStats, no_entry, init_entries, stat_init}

module _ (ports : Ports) (counters : ℕ → EthStats) (cycles : ℕ → ℕ) where
  -- The entries of the enabled ones of `n` ports, the first of them `i`.
  unfoldable pub entries : ℕ → ℕ → List PortStats
  entries zero i = []
  entries (suc n) i =
      let rest = entries n (suc i) in
      if port_is_enabled ports i
      then record { portid = i; cyc_start = cycles i; stat_last = counters i } ∷ rest
      else rest

  set-append :
      (done : List PortStats) (m : ℕ) (e : PortStats)
      → set (done ++ replicate (suc m) no_entry) (length done) e
        ≡ (done ++ (e ∷ [])) ++ replicate m no_entry
  set-append [] m e = refl
  set-append (d ∷ done) m e = ap (λ (l : List PortStats). d ∷ l) (set-append done m e)

  none_left : (n i : ℕ) → length (entries n i) ≡ 0 → entries n i ≡ []
  none_left n i h = empty (entries n i) h
    where
      empty : (l : List PortStats) → length l ≡ 0 → l ≡ []
      empty [] e = refl
      empty (x ∷ l) e = absurd (omega arith)

  -- The loop, with `m` entries left to fill, one at least, and as many enabled ports left.
  init_entries-entries :
      (n i m c nb : ℕ) (done arr : List PortStats)
      → length (entries n i) ≡ suc m
      → c ≡ length done
      → nb ≡ c + suc m
      → arr ≡ done ++ replicate (suc m) no_entry
      → init_entries ports nb counters cycles n i c arr ≡ done ++ entries n i
  unfolding init_entries entries
  init_entries-entries zero i m c nb done arr h ec en ea = absurd (omega arith)
  init_entries-entries (suc n) i zero c nb done arr h ec en ea =
      elim (Bool-cases (port_is_enabled ports i)) [
        | inr off ↦
            rw off (init_entries-entries n (suc i) zero c nb done arr (rw off at h) ec en ea)
        | inl on ↦
            let full : leb nb (suc c) ≡ true = ground arith in
            let left : length (entries n (suc i)) ≡ 0 = let h' = rw on at h in omega arith in
            rw (on, full, ea, ec, none_left n (suc i) left)
              (set-append done 0
                  (record { portid = i; cyc_start = cycles i; stat_last = counters i })
                ∙ append-nil (
                    done
                    ++ (record { portid = i; cyc_start = cycles i; stat_last = counters i } ∷ [])))
      ]
  init_entries-entries (suc n) i (suc m) c nb done arr h ec en ea =
      elim (Bool-cases (port_is_enabled ports i)) [
        | inr off ↦
            rw off (init_entries-entries n (suc i) (suc m) c nb done arr (rw off at h) ec en ea)
        | inl on ↦
            let more : leb nb (suc c) ≡ false = ground arith in
            let e : PortStats = record {
              portid = i;
              cyc_start = cycles i;
              stat_last = counters i;
            } in
            let left : length (entries n (suc i)) ≡ suc m = let h' = rw on at h in omega arith in
            rw (on, more)
              (init_entries-entries n (suc i) m (suc c) nb (done ++ (e ∷ [])) (set arr c e) left
                  (omega (arith, length-append done (e ∷ []))) (omega arith)
                  (rw (ea, ec) (set-append done (suc m) e))
                ∙ append_assoc done (e ∷ []) (entries n (suc i)))
      ]

-- With memory, and for the count of the enabled ports, which is not 0, `stat_init` gives a table
-- with one entry for each enabled port, in their order, with the counters and the time that were
-- read for it.
pub stat_init-entries :
    (ports : Ports) (counters : ℕ → EthStats) (cycles : ℕ → ℕ) (nb_ports nb_port_enabled : ℕ)
    → length (entries ports counters cycles nb_ports 0) ≡ nb_port_enabled
    → 1 ≤ nb_port_enabled
    → stat_init ports counters cycles true nb_ports nb_port_enabled
      ≡ some (entries ports counters cycles nb_ports 0)
unfolding stat_init entries
stat_init-entries ports counters cycles zero nb_port_enabled h pos = absurd (omega arith)
stat_init-entries ports counters cycles (suc n) zero h pos = absurd (omega arith)
stat_init-entries ports counters cycles (suc n) (suc m) h pos =
    let enough : ltb (suc m) 1 ≡ false = ground arith in
    let some_port : ltb (suc n) 1 ≡ false = ground arith in
    rw (enough, some_port)
      (ap some (
        init_entries-entries ports counters cycles (suc n) 0 m 0 (suc m) []
          (replicate (suc m) no_entry) h refl (omega arith) refl))
