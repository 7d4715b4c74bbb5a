-- ===== src/Ring/Queue.antt =====
-- What a ring promises its user: a queue of bytes, oldest first, that takes a block whole or not at all.
use pkt_sender.Prelude.{ℕ, ◌+◌, min, List, ◌++◌, if◌then◌else◌, ltb, length, take, drop}

abbrev pub Queue : Type 0
Queue = List ℕ

-- A queue under a ring of `size` bytes holds fewer than `size`.
unfoldable pub put : ℕ → Queue → List ℕ → ℕ × Queue
put size q block = if ltb (length q + length block) size then (length block, q ++ block) else (0, q)

unfoldable pub get : Queue → ℕ → ℕ × List ℕ × Queue
get q len = (min len (length q), take len q, drop len q)
