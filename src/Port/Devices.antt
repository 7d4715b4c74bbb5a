-- ===== src/Port/Devices.antt =====
-- `port_start` and `port_close` of src/port.c, as the calls of the driver that they make.
use pkt_sender.Prelude.{
  ℕ, zero, suc, Bool, true, false, List, [], ◌∷◌, ◌++◌, Option, none, some, if◌then◌else◌,
}
use pkt_sender.Port.Defs.{Ports, port_is_enabled}

-- A start of a device stands with its answer.
pub data DeviceCall : Type 0 where
  dev_start : ℕ → Bool → DeviceCall
  promiscuous_enable timesync_enable dev_stop dev_close : ℕ → DeviceCall

-- The loop of `port_start` with `n` ports left, the next of them the `i`-th: its calls, and the port
-- that did not start. `starts` is the answer of the driver.
unfoldable pub start_ports : Ports → (ℕ → Bool) → ℕ → ℕ → List DeviceCall × Option ℕ
start_ports ports starts zero i = ([], none)
start_ports ports starts (suc n) i =
    let (calls, failed) = start_ports ports starts n (suc i) in
    if port_is_enabled ports i
    then if starts i
      then (dev_start i true ∷ promiscuous_enable i ∷ timesync_enable i ∷ calls, failed)
      else (dev_start i false ∷ [], some i)
    else (calls, failed)

-- The loop that stops and closes `n` ports, the next of them the `i`-th.
unfoldable pub close_ports : Ports → ℕ → ℕ → List DeviceCall
close_ports ports zero i = []
close_ports ports (suc n) i =
    let calls = close_ports ports n (suc i) in
    if port_is_enabled ports i then dev_stop i ∷ dev_close i ∷ calls else calls

-- The end of `port_start`: the calls in all, and whether it returns 0 or ERR_DPDK.
unfoldable pub end_start : Ports → List DeviceCall → Option ℕ → List DeviceCall × Bool
end_start ports calls none = (calls, true)
end_start ports calls (some portid) = (calls ++ close_ports ports portid 0, false)

unfoldable pub port_start : Ports → (ℕ → Bool) → List DeviceCall × Bool
port_start ports starts =
    let (calls, failed) = start_ports ports starts ports.port_nb_max 0 in
    end_start ports calls failed

unfoldable pub port_close : Ports → List DeviceCall
port_close ports = close_ports ports ports.port_nb_max 0
