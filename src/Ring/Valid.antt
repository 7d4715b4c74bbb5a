-- ===== src/Ring/Valid.antt =====
-- The invariant of a ring at rest, the bytes that it holds, and the code's sizes as distances.
use pkt_sender.Prelude.{ℕ, ◌-◌, ◌^◌, ◌≤◌, ◌<◌, ◌≡◌, List, arith, length}
use pkt_sender.Prelude.Words.{sub32, mask-sub32, size-le}
use pkt_sender.Ring.Defs.{Ring, get_rest_size, get_used_size}
use pkt_sender.Ring.Window.{distance, window, length-window}

-- No writer is between its reservation and its publication: `finish_pos` has caught up.
pub record IsValid (k : ℕ) (r : Ring) : Type 0 where
  pub is_power : r.data_size ≡ 2 ^ k
  pub small : k ≤ 31
  pub full : length r.bytes ≡ r.data_size
  pub read_in : r.read_pos < r.data_size
  pub write_in : r.write_pos < r.data_size
  pub quiet : r.finish_pos ≡ r.write_pos

abbrev pub used : Ring → ℕ
used r = distance r.data_size r.read_pos r.finish_pos

abbrev pub contents : Ring → List ℕ
contents r = window r.bytes r.data_size r.read_pos (used r)

pub length-contents : (r : Ring) → length (contents r) ≡ used r
length-contents r = length-window r.bytes r.data_size r.read_pos (used r)

pub get_used_size-distance :
    (k size w r : ℕ)
    → size ≡ 2 ^ k
    → k ≤ 31
    → w < size
    → r < size
    → get_used_size w r size ≡ distance size r w
unfolding get_used_size
get_used_size-distance k size w r e small hw hr =
    rw (mask-sub32 k size e small w r hw hr) (ground arith)

pub get_rest_size-distance :
    (k size w r : ℕ)
    → size ≡ 2 ^ k
    → k ≤ 31
    → w < size
    → r < size
    → get_rest_size w r size ≡ size - distance size r w
unfolding get_rest_size sub32
get_rest_size-distance k size w r e small hw hr =
    rw (mask-sub32 k size e small w r hw hr) (ground (arith, size-le k size e small))
