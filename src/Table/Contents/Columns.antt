-- ===== src/Table/Contents/Columns.antt =====
-- One column of the rows that a chunk or a table holds.

use dyod_so_se.DictionarySegment.Invariant.{decoded}
use dyod_so_se.Outcome.{ok, subscript}
use dyod_so_se.Prelude.Text.{Text}
use dyod_so_se.Prelude.{
  ℕ, zero, suc, ◌+◌, ◌^◌, ◌<◌, ◌≡◌, refl, sym, ap, ◌∙◌, Bool, List, [], ◌∷◌, Option, none, some,
  map, length, length-map, get_elem?, arith,
}
use dyod_so_se.Segment.{Segment, value_segment, dictionary_segment}
use dyod_so_se.Table.Append.{Spells}
use dyod_so_se.Table.Compress.Rows.{as_value_self, as_dictionary_self, as_value-dictionary}
use dyod_so_se.Table.Contents.Cells.{length-column_of}
use dyod_so_se.Table.Contents.{Row, Schema, first, rest, column_of, Holds, no_column, values, ids}
use dyod_so_se.TableScan.Execute.Chunks.{HasRows, by_values, by_dictionary}
use dyod_so_se.Types.{Platform, DataType, Variant, Value, resolve_data_type}
use dyod_so_se.ValueSegment.Invariant.{cells, length-cells}
use dyod_so_se.Types.{scalar}
use mathlib.Core.Path.{subst}

-- a column has one type
same_type :
    {d k : DataType} {b n : Bool} (o : Option (DataType × Bool))
    → o ≡ some (k, n)
    → o ≡ some (d, b)
    → k ≡ d
same_type {d} o e e' = ap (λ o. elim o [ none ↦ d | some p ↦ p.0 ]) (sym e ∙ e')

module _ (P : Platform) where
  -- the values of the rows in column `k`
  abbrev pub column : ℕ → List (Row P) → List (Option (Variant P))
  column k rows = map (λ row. get_elem? row k) rows

  column-first : (rows : List (Row P)) → column 0 rows ≡ map first rows
  column-first [] = refl
  column-first ([] ∷ rows) = ap (◌∷◌ none) (column-first rows)
  column-first ((v ∷ row) ∷ rows) = ap (◌∷◌ (some v)) (column-first rows)

  column-rest : (k : ℕ) (rows : List (Row P)) → column (suc k) rows ≡ column k (map rest rows)
  column-rest k [] = refl
  column-rest k ([] ∷ rows) = ap (◌∷◌ none) (column-rest k rows)
  column-rest k ((v ∷ row) ∷ rows) = ap (◌∷◌ (get_elem? row k)) (column-rest k rows)

module _ {P : Platform} where
  -- the segment of column `k`, and the rows that it stores
  abbrev pub ColumnAt : List (Segment P) → List (Row P) → ℕ → DataType → Type 0
  ColumnAt ss rows k d =
      (segment : Segment P) × (r : List (Option (Value P d))) × (get_elem? ss k ≡ some segment)
      × HasRows d segment r
      × (column P k rows ≡ column_of P d r)

  pub column_at :
      {compressed : Bool} {schema : Schema} {rows : List (Row P)} {ss : List (Segment P)} (k : ℕ)
      (d : DataType) (b : Bool)
      → Holds compressed schema rows ss
      → get_elem? schema k ≡ some (d, b)
      → length rows < 2 ^ 32
      → ColumnAt ss rows k d
  column_at k d b (no_column h) e small = cc
  column_at {rows = rows} {ss = ss} zero d b (values d' b' s valid nullable here more) e small =
      subst (ColumnAt ss rows zero) (same_type (some (d', b')) refl e) (
        value_segment d' s,
        cells s,
        refl,
        by_values s (as_value_self P d' s) valid
            (omega (
              arith,
              length-column_of P d' rows (cells s) here,
              length-cells (scalar P d') s valid,
              small,
            ))
            refl,
        column-first P rows ∙ here,
      )
  column_at {rows = rows} (suc k) d b (values d' b' s valid nullable here more) e small =
      let (segment, r, there, stored, same) =
        column_at k d b more e (omega (arith, length-map rows rest, small)) in
      (segment, r, there, stored, column-rest P k rows ∙ same)
  column_at {rows = rows} {ss = ss} zero d b (ids d' b' ds w here more) e small =
      subst (ColumnAt ss rows zero) (same_type (some (d', b')) refl e) (
        dictionary_segment d' ds,
        decoded ds,
        refl,
        by_dictionary ds (as_value-dictionary P d' ds) (as_dictionary_self P d' ds) w refl,
        column-first P rows ∙ here,
      )
  column_at {rows = rows} (suc k) d b (ids d' b' ds w here more) e small =
      let (segment, r, there, stored, same) =
        column_at k d b more e (omega (arith, length-map rows rest, small)) in
      (segment, r, there, stored, column-rest P k rows ∙ same)

-- the type that column `k` is defined with
pub type_at :
    (types : List Text) (nullable : List Bool) (i : ℕ) (schema : Schema) (k : ℕ) (d : DataType)
    (b : Bool)
    → Spells types nullable i schema
    → get_elem? schema k ≡ some (d, b)
    → (type : Text) × (subscript types (i + k) ≡ ok type) × (resolve_data_type type ≡ some d)
type_at types nullable i [] k d b h e = cc
type_at types nullable i ((d', b') ∷ schema) zero d b (type, typed, known, null, more) e = (
  type,
  ap (subscript types) (omega arith) ∙ typed,
  known ∙ ap some (same_type (some (d', b')) refl e),
)
type_at types nullable i ((d', b') ∷ schema) (suc k) d b (type, typed, known, null, more) e =
    let (type', typed', known') = type_at types nullable (suc i) schema k d b more e in
    (type', ap (subscript types) (omega arith) ∙ typed', known')
