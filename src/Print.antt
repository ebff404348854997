-- ===== src/Print.antt =====
-- `operators/print.cpp`: a table as text.
pub mod Widths
pub mod Widened
pub mod Fits
pub mod Readings
pub mod Fitted
pub mod Bounds
pub mod Layout
pub mod Output
pub mod Aligned
pub mod Selected
use dyod_so_se.Chunk
use dyod_so_se.Chunk.{Chunk}
use dyod_so_se.Operator.{Operator, constructed, execute, left_input_table, table_wrapper_on_execute}
use dyod_so_se.Outcome.{Outcome, ok, undefined, Build, subscript, deref}
use dyod_so_se.Prelude.Text.{Text, text}
use dyod_so_se.Prelude.{
  ℕ, zero, suc, ◌^◌, ◌%◌, Bool, true, false, List, [], ◌∷◌, ◌++◌, Option, some, if◌then◌else◌, ◌==◌,
}
use dyod_so_se.Print.Widths.{min_width, max_width, print_column_type, cell, column_string_widths}
use dyod_so_se.Reference.{Store}
use dyod_so_se.Stream.{Written, ◌>>=◌, ◌>>◌, write, call, endl, padded, show_ℕ, show}
use dyod_so_se.Table
use dyod_so_se.Table.{Table}
use dyod_so_se.Types.{Platform, Variant}

module _ {P : Platform} (build : Build) (store : Store P) (depth : ℕ) where
  -- the loops over the column headers: `|` and a text in the column's width
  unfoldable pub print_headers : (ℕ → Outcome Text) → List ℕ → ℕ → ℕ → Written (Unit {0})
  print_headers header widths zero column_id = write []
  print_headers header widths (suc n) column_id = do
    write (text "|")
    width ← call (subscript widths column_id)
    s ← call (header column_id)
    write (padded width s)
    print_headers header widths n (suc column_id)

  unfoldable pub print_cells : List ℕ → Chunk P → ℕ → ℕ → ℕ → Written (Unit {0})
  unfolding cell
  print_cells widths c row zero column_id = write []
  print_cells widths c row (suc n) column_id = do
    width ← call (subscript widths column_id)
    v ← call (cell build store depth c column_id row)
    write (padded width (show P v))
    write (text "|")
    print_cells widths c row n (suc column_id)

  unfoldable pub print_rows : List ℕ → Chunk P → ℕ → ℕ → Written (Unit {0})
  unfolding print_cells Chunk.column_count
  print_rows widths c zero row = write []
  print_rows widths c (suc n) row = do
    write (text "|")
    print_cells widths c row (Chunk.column_count c) 0
    write endl
    print_rows widths c n (suc row)

  unfoldable pub print_chunk : List ℕ → ℕ → Chunk P → Written (Unit {0})
  unfolding print_rows Chunk.size
  print_chunk widths chunk_id c = do
    write (text "=== Chunk ")
    write (show_ℕ chunk_id)
    write (text " === ")
    write endl
    n ← call (Chunk.size c)
    if n == 0 then write (text "Empty chunk." ++ endl) else print_rows widths c n 0

  unfoldable pub print_chunks : List ℕ → Table P → ℕ → ℕ → Written (Unit {0})
  unfolding print_chunk Table.get_chunk
  print_chunks widths t zero chunk_id = write []
  print_chunks widths t (suc n) chunk_id = do
    c ← call (Table.get_chunk t chunk_id)
    print_chunk widths chunk_id c
    print_chunks widths t n (suc chunk_id)

  -- `_on_execute`, on the table at address `input`, which it returns
  unfoldable pub print_table : ℕ → Written (Option ℕ)
  unfolding column_string_widths print_headers print_chunks print_column_type Table.column_count
      Table.chunk_count
  print_table input = do
    t ← call (subscript store input)
    widths ← call (column_string_widths build store depth min_width max_width t)
    write (text "=== Columns" ++ endl)
    print_headers (Table.column_name t) widths (Table.column_count t) 0
    write (text "|" ++ endl)
    print_headers (print_column_type t) widths (Table.column_count t) 0
    write (text "|" ++ endl)
    print_chunks widths t (Table.chunk_count t) 0
    call (ok (some input))

  -- `_on_execute` from its start: the output of the left input, which it does not test for null
  unfoldable pub print_on_execute : Option Operator → Written (Option ℕ)
  unfolding print_table left_input_table
  print_on_execute left_input = do
    input ← call (left_input_table left_input)
    address ← call (deref input)
    print_table address

  -- the static `print`: a `TableWrapper`, and a `Print` on it
  unfoldable pub print : Option ℕ → Written (Unit {0})
  unfolding print_on_execute execute table_wrapper_on_execute
  print table =
      let wrapped = execute (table_wrapper_on_execute table) constructed in
      call wrapped.0 >>= λ _.
      let printed = print_on_execute (some wrapped.1) in
      ((execute printed.0 constructed).0, printed.1)
