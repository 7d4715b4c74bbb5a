-- ===== src/Crc/Tables/Rows.antt =====
-- A function listed over a range, as the tables of tools/hash.c list the register.
use pkt_sender.Prelude.{ℕ, zero, suc, ◌+◌, ◌<◌, ◌≡◌, ap, ◌∙◌, List, [], ◌∷◌, arith, get_or}

unfoldable pub rows : ℕ → ℕ → (ℕ → ℕ) → List ℕ
rows zero i f = []
rows (suc n) i f = f i ∷ rows n (i + 1) f

pub get_or-rows : (n i : ℕ) (f : ℕ → ℕ) (j : ℕ) → j < n → get_or (rows n i f) j 0 ≡ f (i + j)
unfolding rows
get_or-rows zero i f j h = absurd (omega arith)
get_or-rows (suc n) i f zero h = ap f (omega arith)
get_or-rows (suc n) i f (suc j) h = get_or-rows n (i + 1) f j (omega arith) ∙ ap f (omega arith)
