-- ===== src/Parser/Mapper.antt =====
-- internal/parser/row_mapper.go: the cells of a row under the numbers of their columns. `itoa` is
-- `strconv.Itoa`.
use Prim.Native.String.{◌++◌ as append_text}
use bulk.Base.{ℕ, suc, String, List, [], ◌∷◌}
use bulk.Domain.{Fields}

-- The loop from column i on.
map_cells : (ℕ → String) → ℕ → List String → Fields
map_cells itoa i [] = []
map_cells itoa i (v ∷ row) = (append_text "col_" (itoa i), v) ∷ map_cells itoa (suc i) row

-- `MapRowToFields`
pub map_row_to_fields : (ℕ → String) → List String → Fields
unfolding map_cells
map_row_to_fields itoa row = map_cells itoa 0 row
