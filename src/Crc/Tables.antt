-- ===== src/Crc/Tables.antt =====
-- `crc32c_tables` of tools/hash.c, and what its rows are.
pub mod Rows
pub mod Table0
pub mod Table1
pub mod Table2
pub mod Table3
pub mod Table4
pub mod Table5
pub mod Table6
pub mod Table7
use pkt_sender.Prelude.{ℕ, zero, suc, ◌+◌, ◌*◌, ◌<◌, ◌≡◌, ap, ◌∙◌, List, [], arith, get_or}
use pkt_sender.Crc.Reference.{crc_bits}
use native.Mathlib.Nat.{zero-add}
use Rows.{rows, get_or-rows}
use Table0.{table_0, table_0-eq-rows}
use Table1.{table_1, table_1-eq-rows}
use Table2.{table_2, table_2-eq-rows}
use Table3.{table_3, table_3-eq-rows}
use Table4.{table_4, table_4-eq-rows}
use Table5.{table_5, table_5-eq-rows}
use Table6.{table_6, table_6-eq-rows}
use Table7.{table_7, table_7-eq-rows}

unfoldable pub crc32c_tables : ℕ → List ℕ
crc32c_tables zero = table_0
crc32c_tables (suc zero) = table_1
crc32c_tables (suc (suc zero)) = table_2
crc32c_tables (suc (suc (suc zero))) = table_3
crc32c_tables (suc (suc (suc (suc zero)))) = table_4
crc32c_tables (suc (suc (suc (suc (suc zero))))) = table_5
crc32c_tables (suc (suc (suc (suc (suc (suc zero)))))) = table_6
crc32c_tables (suc (suc (suc (suc (suc (suc (suc zero))))))) = table_7
crc32c_tables (suc (suc (suc (suc (suc (suc (suc (suc n)))))))) = []

-- For each of the eight rows and 256 columns, the entry is the register after `8 * (row + 1)`
-- steps from the column.
pub crc32c_tables-step :
    (k x : ℕ) → k < 8 → x < 256 → get_or (crc32c_tables k) x 0 ≡ crc_bits (8 * suc k) x
unfolding crc32c_tables
crc32c_tables-step zero x below h =
    ap (λ (t : List ℕ). get_or t x 0) table_0-eq-rows
    ∙ get_or-rows 256 0 (crc_bits 8) x h
    ∙ ap (crc_bits 8) (zero-add x)
crc32c_tables-step (suc zero) x below h =
    ap (λ (t : List ℕ). get_or t x 0) table_1-eq-rows
    ∙ get_or-rows 256 0 (crc_bits 16) x h
    ∙ ap (crc_bits 16) (zero-add x)
crc32c_tables-step (suc (suc zero)) x below h =
    ap (λ (t : List ℕ). get_or t x 0) table_2-eq-rows
    ∙ get_or-rows 256 0 (crc_bits 24) x h
    ∙ ap (crc_bits 24) (zero-add x)
crc32c_tables-step (suc (suc (suc zero))) x below h =
    ap (λ (t : List ℕ). get_or t x 0) table_3-eq-rows
    ∙ get_or-rows 256 0 (crc_bits 32) x h
    ∙ ap (crc_bits 32) (zero-add x)
crc32c_tables-step (suc (suc (suc (suc zero)))) x below h =
    ap (λ (t : List ℕ). get_or t x 0) table_4-eq-rows
    ∙ get_or-rows 256 0 (crc_bits 40) x h
    ∙ ap (crc_bits 40) (zero-add x)
crc32c_tables-step (suc (suc (suc (suc (suc zero))))) x below h =
    ap (λ (t : List ℕ). get_or t x 0) table_5-eq-rows
    ∙ get_or-rows 256 0 (crc_bits 48) x h
    ∙ ap (crc_bits 48) (zero-add x)
crc32c_tables-step (suc (suc (suc (suc (suc (suc zero)))))) x below h =
    ap (λ (t : List ℕ). get_or t x 0) table_6-eq-rows
    ∙ get_or-rows 256 0 (crc_bits 56) x h
    ∙ ap (crc_bits 56) (zero-add x)
crc32c_tables-step (suc (suc (suc (suc (suc (suc (suc zero))))))) x below h =
    ap (λ (t : List ℕ). get_or t x 0) table_7-eq-rows
    ∙ get_or-rows 256 0 (crc_bits 64) x h
    ∙ ap (crc_bits 64) (zero-add x)
crc32c_tables-step (suc (suc (suc (suc (suc (suc (suc (suc k)))))))) x below h =
    absurd (omega arith)
