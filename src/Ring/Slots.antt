-- ===== src/Ring/Slots.antt =====
-- A ring of 32-bit numbers, as tools/cuckoohash.c and tools/cmd_dump.c use it: each put and get is of
-- four bytes. `SlotRing` is the numbers that it holds.
use pkt_sender.Prelude.{
  ℕ, ◌+◌, ◌*◌, List, [], ◌∷◌, ◌++◌, Option, none, some, if◌then◌else◌, ltb, length,
}

pub record SlotRing : Type 0 where
  pub data_size : ℕ
  pub slots : List ℕ

-- `ringbuffer_put(r, (char *)&slot, sizeof(uint32_t))`
unfoldable pub put_slot : SlotRing → ℕ → SlotRing
put_slot r slot =
    if ltb (4 * length r.slots + 4) r.data_size
    then record r { slots = r.slots ++ (slot ∷ []) }
    else r

-- `ringbuffer_get(r, (char *)&slot, sizeof(uint32_t))`; `none` is an answer other than four.
unfoldable pub take_slot : ℕ → List ℕ → Option (ℕ × SlotRing)
take_slot size [] = none
take_slot size (slot ∷ rest) = some (slot, record { data_size = size; slots = rest })

unfoldable pub get_slot : SlotRing → Option (ℕ × SlotRing)
unfolding take_slot
get_slot r = take_slot r.data_size r.slots
