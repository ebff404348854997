-- ===== src/Print/Widths.antt =====
-- `Print::_column_string_widths`, and what a column and a cell are printed as.
use dyod_so_se.Chunk
use dyod_so_se.Chunk.{Chunk}
use dyod_so_se.Outcome.{Outcome, ok, ◌>>=◌, Build, subscript, assign}
use dyod_so_se.Prelude.Text.{Text, text}
use dyod_so_se.Prelude.{
  ℕ, zero, suc, ◌^◌, ◌%◌, List, [], ◌∷◌, ◌++◌, if◌then◌else◌, length, min, max,
}
use dyod_so_se.Reference.{Store, element}
use dyod_so_se.Table
use dyod_so_se.Table.{Table}
use dyod_so_se.Types.{Platform, Variant}

-- the least and the greatest width that `_on_execute` asks for
abbrev pub min_width : ℕ
min_width = 8

abbrev pub max_width : ℕ
max_width = 20

module _ {P : Platform} where
  unfoldable pub print_column_type : Table P → ℕ → Outcome Text
  unfolding Table.column_type Table.is_column_nullable
  print_column_type t column_id = do
    type ← Table.column_type t column_id
    nullable ← Table.is_column_nullable t column_id
    ok (if nullable then type ++ text "_null" else type)

  -- the first loop of `_column_string_widths`, for `n` columns from `column_id` on
  unfoldable pub name_widths : ℕ → Table P → ℕ → ℕ → Outcome (List ℕ)
  unfolding Table.column_name
  name_widths least t zero column_id = ok []
  name_widths least t (suc n) column_id = do
    name ← Table.column_name t column_id
    widths ← name_widths least t n (suc column_id)
    ok (max least (length name % 2 ^ 16) ∷ widths)

-- `static_cast<uint16_t>(boost::lexical_cast<std::string>(value).size())`
abbrev pub cell_length : (P : Platform) → Variant P → ℕ
cell_length P v = length (P.lexical_cast_string v) % 2 ^ 16

module _ {P : Platform} (build : Build) (store : Store P) (depth : ℕ) where
  -- the value in a row of a chunk
  unfoldable pub cell : Chunk P → ℕ → ℕ → Outcome (Variant P)
  unfolding Chunk.get_segment element
  cell c column_id row = do
    segment ← Chunk.get_segment c column_id
    element build store depth segment row

  -- the loops of `_column_string_widths` over the rows, the columns and the chunks
  unfoldable pub widen_rows : ℕ → ℕ → Chunk P → ℕ → ℕ → ℕ → List ℕ → Outcome (List ℕ)
  unfolding cell
  widen_rows least most c column_id zero row widths = ok widths
  widen_rows least most c column_id (suc n) row widths = do
    v ← cell c column_id row
    width ← subscript widths column_id
    widths' ← assign widths column_id (max (max least width) (min most (cell_length P v)))
    widen_rows least most c column_id n (suc row) widths'

  unfoldable pub widen_columns : ℕ → ℕ → Chunk P → ℕ → ℕ → List ℕ → Outcome (List ℕ)
  unfolding widen_rows Chunk.size
  widen_columns least most c zero column_id widths = ok widths
  widen_columns least most c (suc n) column_id widths = do
    size ← Chunk.size c
    widths' ← widen_rows least most c column_id size 0 widths
    widen_columns least most c n (suc column_id) widths'

  unfoldable pub widen_chunks : ℕ → ℕ → Table P → ℕ → ℕ → List ℕ → Outcome (List ℕ)
  unfolding widen_columns Table.get_chunk Chunk.column_count
  widen_chunks least most t zero chunk_id widths = ok widths
  widen_chunks least most t (suc n) chunk_id widths = do
    c ← Table.get_chunk t chunk_id
    widths' ← widen_columns least most c (Chunk.column_count c) 0 widths
    widen_chunks least most t n (suc chunk_id) widths'

  unfoldable pub column_string_widths : ℕ → ℕ → Table P → Outcome (List ℕ)
  unfolding name_widths widen_chunks Table.column_count Table.chunk_count
  column_string_widths least most t = do
    widths ← name_widths least t (Table.column_count t) 0
    widen_chunks least most t (Table.chunk_count t) 0 widths
