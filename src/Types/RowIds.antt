-- ===== src/Types/RowIds.antt =====
-- The order of `RowID`s, which makes them keys of a map.
use dyod_so_se.Prelude.{◌≡◌, ◌↔◌, true, false, arith}
use dyod_so_se.Types.{RowId, row_id_less, row_id_equal}

-- `operator<` of `RowID` is a strict total order: no position is below itself, it is transitive, and of
-- two positions neither of which is below the other each is the other; `operator==` holds of equal
-- positions alone.
pub row_id_less-order :
    ((a : RowId) → row_id_less a a ≡ false)
    × ((a b c : RowId) → row_id_less a b ≡ true → row_id_less b c ≡ true → row_id_less a c ≡ true)
    × ((a b : RowId) → row_id_less a b ≡ false → row_id_less b a ≡ false → a ≡ b)
    × ((a b : RowId) → (row_id_equal a b ≡ true) ↔ (a ≡ b))
unfolding row_id_less row_id_equal
row_id_less-order =
    (λ a. ground arith, λ a b c h k. ground arith, λ a b h k. ground arith, λ a b. ground arith)
