-- ===== src/Port/Running.antt =====
-- Which devices run after the calls.
use pkt_sender.Prelude.{
  ℕ, zero, suc, ◌+◌, ◌≤◌, ◌<◌, ◌≡◌, refl, inl, inr, Bool, true, false, List, [], ◌∷◌, ◌++◌, Option,
  none, some, arith, if◌then◌else◌, leb, ◌==◌, Bool-cases, ℕ_discrete,
}
use pkt_sender.Port.Defs.{Ports, port_is_enabled}
use mathlib.Core.Option.{some-injective}
use pkt_sender.Port.Devices.{
  DeviceCall, dev_start, promiscuous_enable, timesync_enable, dev_stop, dev_close, start_ports,
  close_ports, end_start, port_start, port_close,
}

-- Whether device `p` runs after the calls, if it runs before them or not.
unfoldable pub runs : ℕ → Bool → List DeviceCall → Bool
runs p b [] = b
runs p b (dev_start q ok ∷ calls) = runs p (if p == q then ok else b) calls
runs p b (dev_stop q ∷ calls) = runs p (if p == q then false else b) calls
runs p b (promiscuous_enable q ∷ calls) = runs p b calls
runs p b (timesync_enable q ∷ calls) = runs p b calls
runs p b (dev_close q ∷ calls) = runs p b calls

pub runs-append :
    (p : ℕ) (b : Bool) (xs ys : List DeviceCall) → runs p b (xs ++ ys) ≡ runs p (runs p b xs) ys
unfolding runs
runs-append p b [] ys = refl
runs-append p b (dev_start q ok ∷ xs) ys = runs-append p (if p == q then ok else b) xs ys
runs-append p b (dev_stop q ∷ xs) ys = runs-append p (if p == q then false else b) xs ys
runs-append p b (promiscuous_enable q ∷ xs) ys = runs-append p b xs ys
runs-append p b (timesync_enable q ∷ xs) ys = runs-append p b xs ys
runs-append p b (dev_close q ∷ xs) ys = runs-append p b xs ys

module _ (ports : Ports) (p : ℕ) where
  -- Closing starts nothing.
  close_ports-down : (n i : ℕ) → runs p false (close_ports ports n i) ≡ false
  unfolding runs close_ports
  close_ports-down zero i = refl
  close_ports-down (suc n) i = elim (Bool-cases (port_is_enabled ports i)) [
    | inr e ↦ rw e (close_ports-down n (suc i))
    | inl e ↦ rw e (elim (Bool-cases (p == i)) [
      | inl f ↦ rw (runs, f) (close_ports-down n (suc i))
      | inr f ↦ rw (runs, f) (close_ports-down n (suc i))
    ])
  ]

  close_ports-stops :
      (n i : ℕ) (b : Bool)
      → i ≤ p
      → p < i + n
      → port_is_enabled ports p ≡ true
      → runs p b (close_ports ports n i) ≡ false
  unfolding runs close_ports
  close_ports-stops zero i b lo hi e = absurd (omega arith)
  close_ports-stops (suc n) i b lo hi e = elim (ℕ_discrete p i) [
    | yes same ↦
        let here : port_is_enabled ports i ≡ true = rw same at e in
        let found : (p == i) ≡ true = ground arith in
        rw here (rw (runs, found) (close_ports-down n (suc i)))
    | no ne ↦ elim (Bool-cases (port_is_enabled ports i)) [
      | inr f ↦ rw f (close_ports-stops n (suc i) b (omega arith) (omega arith) e)
      | inl f ↦ rw f (close_ports-stops n (suc i) _ (omega arith) (omega arith) e)
    ]
  ]

  module _ (starts : ℕ → Bool) where
    start_ports-range : (n i : ℕ) {k : ℕ} → (start_ports ports starts n i).1 ≡ some k → i ≤ k
    unfolding start_ports
    start_ports-range zero i = λ e. cc
    start_ports-range (suc n) i {k} = elim (Bool-cases (port_is_enabled ports i)) [
      | inr f ↦ rw f (λ e. let le = start_ports-range n (suc i) e in omega arith)
      | inl f ↦ elim (Bool-cases (starts i)) [
        | inl g ↦ rw (f, g) (λ e. let le = start_ports-range n (suc i) e in omega arith)
        | inr g ↦ rw (f, g) (λ e. let same = some-injective i k e in omega arith)
      ]
    ]

    -- Where a start fails, a device that runs is an enabled one below it.
    start_ports-below :
        (n i : ℕ) {k : ℕ}
        → (start_ports ports starts n i).1 ≡ some k
        → runs p false (start_ports ports starts n i).0 ≡ true
        → (p < k) × (port_is_enabled ports p ≡ true)
    unfolding start_ports runs
    start_ports-below zero i = λ e u. cc
    start_ports-below (suc n) i {k} = elim (Bool-cases (port_is_enabled ports i)) [
      | inr f ↦ rw f (λ e u. start_ports-below n (suc i) e u)
      | inl f ↦ elim (Bool-cases (starts i)) [
        | inr g ↦
            rw (f, g)
              (λ e u. elim (Bool-cases (p == i)) [
                | inl h ↦ let w : false ≡ true = rw h at u in cc
                | inr h ↦ let w : false ≡ true = rw h at u in cc
              ])
        | inl g ↦
            rw (f, g)
              (λ e u. elim (ℕ_discrete p i) [
                | yes same ↦ let le = start_ports-range n (suc i) e in (omega arith, rw same f)
                | no ne ↦
                    let other : (p == i) ≡ false = ground arith in
                    start_ports-below n (suc i) e (rw (runs, other) at u)
              ])
      ]
    ]

    -- Where `port_start` fails no device is left running.
    end_start-failed :
        (calls : List DeviceCall) (failed : Option ℕ)
        → ((k : ℕ)
            → failed ≡ some k
            → runs p false calls ≡ true
            → (p < k) × (port_is_enabled ports p ≡ true))
        → (end_start ports calls failed).1 ≡ false
        → runs p false (end_start ports calls failed).0 ≡ false
    unfolding end_start
    end_start-failed calls none below e = cc
    end_start-failed calls (some k) below e =
        rw (runs-append p false calls (close_ports ports k 0))
          (elim (Bool-cases (runs p false calls)) [
            | inr u ↦ rw u (close_ports-down k 0)
            | inl u ↦
                let (lt, on) = below k refl u in
                close_ports-stops k 0 _ (omega arith) (omega arith) on
          ])

-- For any answers of the driver, where `port_start` returns an error, a device that did not run
-- before does not run after its calls.
pub port_start-failed :
    (ports : Ports) (starts : ℕ → Bool) (p : ℕ)
    → (port_start ports starts).1 ≡ false
    → runs p false (port_start ports starts).0 ≡ false
unfolding port_start
port_start-failed ports starts p =
    end_start-failed ports p starts _ _ (λ k. start_ports-below ports p starts ports.port_nb_max 0)

-- An enabled port does not run after the calls of `port_close`, whether it ran before or not.
pub port_close-stops :
    (ports : Ports) (p : ℕ) (b : Bool)
    → port_is_enabled ports p ≡ true
    → runs p b (port_close ports) ≡ false
unfolding port_close port_is_enabled
port_close-stops ports p b e = elim (Bool-cases (leb ports.port_nb_max p)) [
  | inl out ↦ let w : false ≡ true = rw out at e in cc
  | inr in_range ↦ close_ports-stops ports p ports.port_nb_max 0 b (omega arith) (ground arith) e
]
