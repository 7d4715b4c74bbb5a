-- ===== src/Port/Stopped.antt =====
-- The devices after `port_start` and `port_close` of src/port.c.
use pkt_sender.Prelude.{
  ℕ, zero, suc, ◌≡◌, refl, sym, ap, ◌∙◌, inl, inr, Bool, true, false, List, ◌++◌, Option, none,
  some, arith, ◌==◌, Bool-cases, ℕ_discrete,
}
use pkt_sender.Port.Defs.{Ports, port_is_enabled}
use pkt_sender.Port.Devices.{
  DeviceCall, start_ports, close_ports, end_start, port_start, port_close,
}
use pkt_sender.Port.Running.{runs, runs-append, port_close-stops}

-- A disabled device is left alone.
module _ (ports : Ports) (p : ℕ) (off : port_is_enabled ports p ≡ false) where
  -- An enabled port is another.
  ne_enabled : (i : ℕ) → port_is_enabled ports i ≡ true → (p == i) ≡ false
  ne_enabled i e = elim (ℕ_discrete p i) [
    | yes same ↦
        let w : false ≡ true = sym off ∙ ap (λ (k : ℕ). port_is_enabled ports k) same ∙ e in cc
    | no ne ↦ ground arith
  ]

  start_ports-disabled :
      (starts : ℕ → Bool) (n i : ℕ) (b : Bool) → runs p b (start_ports ports starts n i).0 ≡ b
  unfolding runs start_ports
  start_ports-disabled starts zero i b = refl
  start_ports-disabled starts (suc n) i b = elim (Bool-cases (port_is_enabled ports i)) [
    | inr e ↦ rw e (start_ports-disabled starts n (suc i) b)
    | inl e ↦
        let apart : (p == i) ≡ false = ne_enabled i e in
        rw e (elim (Bool-cases (starts i)) [
          | inl f ↦ rw (f, runs, apart) (start_ports-disabled starts n (suc i) b)
          | inr f ↦ rw (f, runs, apart) refl
        ])
  ]

  close_ports-disabled : (n i : ℕ) (b : Bool) → runs p b (close_ports ports n i) ≡ b
  unfolding runs close_ports
  close_ports-disabled zero i b = refl
  close_ports-disabled (suc n) i b = elim (Bool-cases (port_is_enabled ports i)) [
    | inr e ↦ rw e (close_ports-disabled n (suc i) b)
    | inl e ↦
        let apart : (p == i) ≡ false = ne_enabled i e in
        rw e (rw (runs, apart) (close_ports-disabled n (suc i) b))
  ]

  end_start-disabled :
      (calls : List DeviceCall) (failed : Option ℕ)
      → runs p false calls ≡ false
      → runs p false (end_start ports calls failed).0 ≡ false
  unfolding end_start
  end_start-disabled calls none h = h
  end_start-disabled calls (some k) h =
      rw (runs-append p false calls (close_ports ports k 0), h) (close_ports-disabled k 0 false)

-- No device that was started runs after `port_close`.
pub port_start-closed :
    (ports : Ports) (starts : ℕ → Bool) (p : ℕ)
    → runs p false ((port_start ports starts).0 ++ port_close ports) ≡ false
unfolding port_start port_close
port_start-closed ports starts p =
    runs-append p false (port_start ports starts).0 (port_close ports)
    ∙ (elim (Bool-cases (port_is_enabled ports p)) [
      | inl on ↦ port_close-stops ports p (runs p false (port_start ports starts).0) on
      | inr off ↦
          ap (λ (b : Bool). runs p b (port_close ports))
            (end_start-disabled ports p off (start_ports ports starts ports.port_nb_max 0).0
              (start_ports ports starts ports.port_nb_max 0).1
              (start_ports-disabled ports p off starts ports.port_nb_max 0 false))
          ∙ close_ports-disabled ports p off ports.port_nb_max 0 false
    ])
