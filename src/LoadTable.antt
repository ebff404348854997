-- ===== src/LoadTable.antt =====
-- `utils/load_table.cpp`: a table from a file with a line of column names, a line of types, and a
-- line for each row, whose fields stand between `|`.
pub mod RoundTrip
pub mod Contents
use dyod_so_se.Outcome.{
  Outcome, ok, throw, ◌>>=◌, ◌>>◌, Build, assert, or_throw, file_not_found, mismatched_types,
  mismatched_values, not_castable,
}
use dyod_so_se.Prelude.Text.{Text}
use dyod_so_se.Prelude.{
  ℕ, ◌^◌, ◌%◌, Bool, true, false, List, [], ◌∷◌, ◌++◌, Option, none, some, if◌then◌else◌, length,
  take, leb, ◌==◌,
}
use dyod_so_se.StringUtils.{tokens_from}
use dyod_so_se.Table
use dyod_so_se.Table.{Table}
use dyod_so_se.Types.{Platform, Variant, to_variant, resolve_data_type}

-- `'|'` and `'\n'`
abbrev pub bar : ℕ
bar = 124

abbrev pub newline : ℕ
newline = 10

unfoldable pub split : Text → ℕ → List Text
unfolding tokens_from
split str delimiter = tokens_from delimiter [] str

abbrev pub ends_line : Text → Bool
ends_line [] = false
ends_line (c ∷ []) = c == newline
ends_line (c ∷ d ∷ cs) = ends_line (d ∷ cs)

-- What the two calls of `getline` leave in `line`, and the lines behind them. A call at the end of
-- the file clears `line`; a call after one that met the end leaves it as it is.
abbrev pub header_lines : Bool → List Text → Text × Text × List Text
header_lines ended [] = ([], [], [])
header_lines ended (l ∷ []) = (l, (if ended then [] else l), [])
header_lines ended (l ∷ m ∷ rows) = (l, m, rows)

-- The columns that a counter of 16 bits visits: from 2 ^ 16 on it starts over, and `add_column` throws
-- at the first column, which is there.
abbrev pub counted : List Text → List Text
counted xs = if leb (2 ^ 16) (length xs) then take (2 ^ 16) xs ++ xs else xs

-- the fields of a row as values; a column whose type is not resolved gives none
unfoldable pub variant_values : (P : Platform) → List Text → List Text → Outcome (List (Variant P))
variant_values P [] fields = ok []
variant_values P (type ∷ types) [] = ok []
variant_values P (type ∷ types) (field ∷ fields) = elim (resolve_data_type type) [
  | none ↦ variant_values P types fields
  | some d ↦ do
    v ← or_throw not_castable (P.lexical_cast_text d field)
    rest ← variant_values P types fields
    ok (to_variant P d v ∷ rest)
]

module _ {P : Platform} where
  unfoldable pub add_columns : Build → List Text → List Text → Table P → Outcome (Table P)
  unfolding Table.add_column
  add_columns build [] types t = ok t
  add_columns build (n ∷ ns) [] t = ok t
  add_columns build (n ∷ ns) (type ∷ types) t = do
    t' ← Table.add_column build n type false t
    add_columns build ns types t'

  unfoldable pub append_row : Build → List Text → ℕ → List Text → Table P → Outcome (Table P)
  unfolding variant_values Table.append
  append_row build types column_count fields t = do
    assert (length fields == column_count) mismatched_values
    values ← variant_values P types fields
    let r = Table.append build values t
    r.0
    ok r.1

  unfoldable pub append_rows : Build → List Text → ℕ → List Text → Table P → Outcome (Table P)
  unfolding append_row split
  append_rows build types column_count [] t = ok t
  append_rows build types column_count (line ∷ lines) t = do
    t' ← append_row build types column_count (split line bar) t
    append_rows build types column_count lines t'

  -- `file` is what the file holds, or `none` where it is not open
  unfoldable pub load_table : Build → Option Text → ℕ → Outcome (Table P)
  unfolding append_rows add_columns Table.new
  load_table build file chunk_size = do
    content ← or_throw file_not_found file
    let header = header_lines (ends_line content) (tokens_from newline [] content)
    let column_names = split header.0 bar
    let column_types = split header.1 bar
    assert (length column_types == length column_names) mismatched_types
    t ←
        add_columns build (counted column_names) (counted column_types)
          (Table.new (chunk_size % 2 ^ 32))
    append_rows build column_types (length column_names) header.2 t
