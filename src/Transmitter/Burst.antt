-- ===== src/Transmitter/Burst.antt =====
-- `tx_ctl_tx_burst` of src/transmitter.c, with the loop that hands its packets to the driver.
use pkt_sender.Prelude.{
  ℕ, zero, suc, ◌+◌, ◌-◌, ◌%◌, ◌^◌, ◌<◌, ◌≡◌, refl, ap, subst, ◌∙◌, inl, inr, ◌⊎◌, List, [], ◌∷◌,
  ◌++◌, Option, none, some, arith, if◌then◌else◌, leb, length, take, drop, length-drop,
  take-append-drop,
}
use pkt_sender.Transmitter.Defs.{Mbufs, BurstTurn, max_pkt_burst, duff, send_burst}

-- The fields of a `struct tx_ctl` that a burst reads or writes.
pub record TxCtl : Type 0 where
  pub total_size : ℕ
  pub len : ℕ
  pub rate_next_cycles : ℕ

-- A burst is not due, or the pool has no mbufs, or an mbuf is in use, or the driver takes no more, or
-- the packets are handed over
-- in these parts, and then these are freed.
pub data BurstOutcome : Type 0 where
  not_due no_mbufs panic spins : BurstOutcome
  sent : List (List ℕ) → List ℕ → BurstOutcome

abbrev pub frame_extra_bytes : ℕ
frame_extra_bytes = 12 + 8 + 4

-- The loop over the sizes, with `n` mbufs left from `i` on.
unfoldable pub add_sizes : ℕ → ℕ → Mbufs → ℕ → ℕ
add_sizes zero i m total = total
add_sizes (suc n) i m total =
    add_sizes n (suc i) m ((total + ((m i).pkt_len + frame_extra_bytes)) % 2 ^ 32)

abbrev pub places : ℕ → ℕ → List ℕ
places zero i = []
places (suc n) i = i ∷ places n (suc i)

-- `rate_cycles` is a `double`: `delay size` is what its product with `size` is, cut to an integer.
module _ (headroom : ℕ) (delay : ℕ → ℕ) (takes : ℕ → ℕ → ℕ) (fuel : ℕ) where
  -- The end of a burst, once the packets are handed over.
  unfoldable pub end_burst : TxCtl → ℕ → ℕ → Option (List (List ℕ)) → TxCtl × BurstOutcome
  end_burst ctl cycles total none = (record ctl { total_size = total; len = max_pkt_burst }, spins)
  end_burst ctl cycles total (some calls) = (
    record { total_size = 0; len = 0; rate_next_cycles = (cycles + delay total) % 2 ^ 64 },
    sent calls (places max_pkt_burst 0),
  )

  unfoldable pub send_mbufs : TxCtl → ℕ → Option Mbufs → TxCtl × BurstOutcome
  send_mbufs ctl cycles none = (ctl, panic)
  send_mbufs ctl cycles (some m) =
      end_burst ctl cycles (add_sizes max_pkt_burst 0 m ctl.total_size)
        (send_burst takes fuel 0 (places max_pkt_burst 0))

  -- `tx_ctl_tx_burst`, with fuel for the loop over the calls of the driver.
  unfoldable pub tx_ctl_tx_burst : TxCtl → BurstTurn → TxCtl × BurstOutcome
  tx_ctl_tx_burst ctl t =
      if leb t.cycles ctl.rate_next_cycles
      then (ctl, not_due)
      else if t.got
      then send_mbufs ctl t.cycles (duff headroom max_pkt_burst t.mbufs)
      else (ctl, no_mbufs)

abbrev pub concat : List (List ℕ) → List ℕ
concat [] = []
concat (xs ∷ xss) = xs ++ concat xss

abbrev pub Sends : List ℕ → Option (List (List ℕ)) → Type 0
Sends pkts none = ⊥
Sends pkts (some calls) = concat calls ≡ pkts

-- How many of `cnt` packets are left after `n` calls of the driver, from the `i`-th on.
abbrev pub left : (ℕ → ℕ → ℕ) → ℕ → ℕ → ℕ → ℕ
left takes zero i cnt = cnt
left takes (suc n) i cnt = left takes n (suc i) (cnt - takes i cnt)

left-zero : (takes : ℕ → ℕ → ℕ) (n i cnt : ℕ) → cnt ≡ 0 → left takes n i cnt ≡ 0
left-zero takes zero i cnt e = e
left-zero takes (suc n) i cnt e = left-zero takes n (suc i) (cnt - takes i cnt) (omega arith)

-- How a number of calls ends.
abbrev pub EndsBurst : ℕ → List ℕ → Option (List (List ℕ)) → Type 0
EndsBurst rest pkts calls = ((rest ≡ 0) × Sends pkts calls) ⊎ ((0 < rest) × (calls ≡ none))

EndsBurst-cons :
    (rest ret : ℕ) (pkts : List ℕ) (o : Option (List (List ℕ)))
    → EndsBurst rest (drop ret pkts) o
    → EndsBurst rest pkts (elim o [ none ↦ none | some calls ↦ some (take ret pkts ∷ calls) ])
EndsBurst-cons rest ret pkts none (inl (e, s)) = absurd s
EndsBurst-cons rest ret pkts none (inr (h, e)) = inr (h, refl)
EndsBurst-cons rest ret pkts (some calls) (inl (e, s)) =
    inl (e, ap (λ (t : List ℕ). take ret pkts ++ t) s ∙ take-append-drop ret pkts)
EndsBurst-cons rest ret pkts (some calls) (inr (h, e)) = absurd (ground arith)

-- For any driver, whatever it takes at each call: `__send_burst` has ended within `fuel` calls
-- exactly if by then the driver has taken as many packets as the burst has, and then it has got
-- all packets, once each and in their order.
pub send_burst-EndsBurst :
    (takes : ℕ → ℕ → ℕ) (fuel i : ℕ) (pkts : List ℕ)
    → EndsBurst (left takes fuel i (length pkts)) pkts (send_burst takes fuel i pkts)
unfolding send_burst
send_burst-EndsBurst takes fuel i [] = inl (left-zero takes fuel i 0 refl, refl)
send_burst-EndsBurst takes zero i (p ∷ pkts) = inr (omega arith, refl)
send_burst-EndsBurst takes (suc fuel) i (p ∷ pkts) =
    EndsBurst-cons _ (takes i (length (p ∷ pkts))) (p ∷ pkts) _ (
      subst
        (λ (n : ℕ).
          EndsBurst (left takes fuel (suc i) n) (drop (takes i (length (p ∷ pkts))) (p ∷ pkts))
            (send_burst takes fuel (suc i) (drop (takes i (length (p ∷ pkts))) (p ∷ pkts))))
        (length-drop (takes i (length (p ∷ pkts))) (p ∷ pkts))
        (send_burst-EndsBurst takes fuel (suc i) (drop (takes i (length (p ∷ pkts))) (p ∷ pkts))))
