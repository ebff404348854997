-- ===== src/Tests/Prints.antt =====
-- The theorems on `Print` and on the printed storage manager, at a concrete table.
use dyod_so_se.Outcome.{ok, undefined, debug, release}
use dyod_so_se.Prelude.Text.{Text, text}
use dyod_so_se.Prelude.{ℕ, ◌≡◌, ◌<◌, refl, List, [], ◌∷◌, ◌++◌, map, get_elem?, some, arith}
use dyod_so_se.AttributeVector
use dyod_so_se.Chunk.{Chunk}
use dyod_so_se.Print
use dyod_so_se.Table
use dyod_so_se.Print.Bounds.{name_width, column_string_widths-Covers}
use dyod_so_se.Print.Layout.{table_text}
use dyod_so_se.Print.Output.{print-text}
use dyod_so_se.Print.Widened.{Grown, Covers}
use dyod_so_se.Print.Widths.{min_width, max_width, column_string_widths, cell}
use dyod_so_se.StorageManager.Summary
use dyod_so_se.StorageManager.Summary.{
  Describes, no_table, table, Description, lines_text, print-lines,
}
use dyod_so_se.Stream.{endl, digits}
use dyod_so_se.Table.Contents.{Row, row_at}
use dyod_so_se.Tests.Contents.{
  stored_table, stored_table-Stores, stored_rows, first_part, second_part, one_column,
  stored_chunks,
}
use dyod_so_se.Tests.Queries.{stored}
use dyod_so_se.Tests.Tables.{manager}
use dyod_so_se.Tests.{platform, some_table, second_chunk}
use dyod_so_se.Types.{Variant, RowId, int}

column_string_widths-Covers_example :
    (ws : List ℕ) × (column_string_widths debug stored 0 8 20 stored_table ≡ ok ws)
    × Grown 8 20 (map (name_width 8) (text "a" ∷ [])) ws
    × ((position : RowId) (row : Row platform) (k : ℕ) (v : Variant platform)
        → row_at platform (first_part ∷ second_part ∷ []) position ≡ some row
        → k < 1
        → get_elem? row k ≡ some v
        → Covers 8 20 platform ws k v)
unfolding stored_chunks
column_string_widths-Covers_example =
    column_string_widths-Covers debug stored 0 stored_table 8 20 one_column stored_rows
      stored_table-Stores (omega arith) (tt, (((refl, tt), ((refl, tt), ((refl, tt), tt))), tt))

print-text_example :
    (ws : List ℕ) × (column_string_widths debug stored 0 min_width max_width stored_table ≡ ok ws)
    × (Print.print_table debug stored 0 0 ≡ (
      ok (some 0),
      table_text platform ws stored_table.column_names stored_table.column_types
          stored_table.column_nullable
          (first_part ∷ second_part ∷ []),
    ))
    × (Print.print debug stored 0 (some 0) ≡ (
      ok tt,
      table_text platform ws stored_table.column_names stored_table.column_types
          stored_table.column_nullable
          (first_part ∷ second_part ∷ []),
    ))
unfolding stored_chunks
print-text_example =
    print-text debug stored 0 stored_table 0 (int, _) [] stored_rows stored_table-Stores refl
      (omega arith) (tt, (((refl, tt), ((refl, tt), ((refl, tt), tt))), tt))

-- reading the null row of a compressed chunk is undefined
null_row_of_dictionary : cell release (some_table ∷ []) 0 second_chunk 0 1 ≡ undefined
unfolding cell AttributeVector.get
null_row_of_dictionary = refl

print-lines_example :
    Summary.print stored manager ≡ (ok tt, text "t #columns: 1 #rows: 6 #chunks 2" ++ endl)
unfolding digits
print-lines_example =
    print-lines stored manager (record { name = text "t"; columns = 1; rows = 6; chunks = 2 } ∷ [])
      (table (text "t") 0 stored_table int _ [] stored_rows refl stored_table-Stores (omega arith)
        (omega arith) no_table)
