-- ===== src/Tests/Scans.antt =====
-- The theorems on scans, at concrete segments and tables.
use dyod_so_se.DictionarySegment
use dyod_so_se.DictionarySegment.{DictionarySegment}
use dyod_so_se.DictionarySegment.Invariant.{decoded}
use dyod_so_se.Outcome.{ok, debug}
use dyod_so_se.Prelude.Int.{ℤ, pos}
use dyod_so_se.Prelude.Text.{text}
use dyod_so_se.Prelude.{ℕ, zero, suc, inl, ◌<◌, ◌≡◌, refl, [], ◌∷◌, some, arith}
use dyod_so_se.Reference.{Store}
use dyod_so_se.Scalar.{int_scalar, int_scalar-IsLawful}
use dyod_so_se.Segment.{value_segment, dictionary_segment}
use dyod_so_se.ValueSegment.Invariant.{cells}
use dyod_so_se.Chunk
use dyod_so_se.AttributeVector
use dyod_so_se.Table
use dyod_so_se.TableScan.Execute.Chunks.{HasRows, by_values, by_dictionary, ColumnRows}
use dyod_so_se.Table.Compress.Chunks.{Column}
use dyod_so_se.Table.Compress.Schedule.{IsSchedule}
use dyod_so_se.Table.Compress.{compress_chunk}
use dyod_so_se.TableScan.Execute.Compressed.{table_after, on_execute-compressed}
use dyod_so_se.TableScan.Execute.{Scan, on_execute}
use dyod_so_se.TableScan.Segments.{tablescan_compressed}
use dyod_so_se.TableScan.{tablescan_value_segment, tablescan_dict_segment}
use dyod_so_se.Tests.Segments.{
  some_values-IsValid, some_values-IsNullSafe, some_dictionary-IsDictionary,
}
use dyod_so_se.Tests.{platform, some_values, some_dictionary, first_chunk, some_table}
use dyod_so_se.Types.{int, of_int, type_cast?, op_less_than, op_less_than_equals}

tablescan_compressed_example :
    (ds : DictionarySegment ℤ) × (DictionarySegment.new int_scalar debug (some some_values) ≡ ok ds)
    × (tablescan_dict_segment platform int debug op_less_than_equals (of_int (pos 5)) ds 1
        ≡ tablescan_value_segment platform int debug op_less_than_equals
            (of_int (pos 5))
            some_values
            1)
unfolding type_cast?
tablescan_compressed_example =
    tablescan_compressed platform int int_scalar-IsLawful debug op_less_than_equals (of_int (pos 5))
      (pos 5) refl 1 some_values some_values-IsValid some_values-IsNullSafe (omega arith)

abbrev store : Store platform
store = some_table ∷ []

abbrev scan : Scan platform
scan = record { column_id = 0; scan_type = op_less_than; search_value = of_int (pos 5) }

castable : type_cast? platform int scan.search_value ≡ some (pos 5)
unfolding type_cast?
castable = refl

first_rows : HasRows {P = platform} int (value_segment int some_values) (cells some_values)
first_rows = by_values some_values refl some_values-IsValid (omega arith) refl

second_rows :
    HasRows {P = platform} int (dictionary_segment int some_dictionary) (decoded some_dictionary)
second_rows = by_dictionary some_dictionary refl refl some_dictionary-IsDictionary refl

some_table-ColumnRows :
    ColumnRows debug store scan int int_scalar-IsLawful
      (pos 5)
      castable
      some_table.chunks
      (cells some_values ∷ decoded some_dictionary ∷ [])
unfolding Chunk.size Chunk.get_segment AttributeVector.size
some_table-ColumnRows = (
  value_segment int some_values,
  refl,
  refl,
  first_rows,
  (dictionary_segment int some_dictionary, refl, refl, second_rows, tt),
)

some_table-Column : (k : ℕ) → k < Table.column_count some_table → Column some_table first_chunk 3 k
unfolding Table.column_count Chunk.get_segment
some_table-Column zero h = record {
  type = text "int";
  d = int;
  segment = value_segment int some_values;
  s = some_values;
  typed = refl;
  known = refl;
  laws = int_scalar-IsLawful;
  there = refl;
  cast = refl;
  valid = some_values-IsValid;
  safe = some_values-IsNullSafe;
  size = refl;
}
some_table-Column (suc k) h = absurd (omega (arith, h))

first_there : Table.get_chunk some_table 0 ≡ ok first_chunk
unfolding Table.get_chunk
first_there = refl

has_column : scan.column_id < Table.column_count some_table
unfolding Table.column_count
has_column = omega arith

abbrev compressed_table : Table.Table platform
compressed_table =
    table_after debug scan int int_scalar-IsLawful (pos 5) castable some_table 0 0 first_chunk 3
      first_there (omega arith) some_table-Column has_column

one_thread : IsSchedule (Table.column_count some_table) (0 ∷ [])
unfolding Table.column_count
one_thread = ((omega arith, tt), λ c h. inl (omega (arith, h)))

on_execute-compressed_example :
    (compress_chunk debug (0 ∷ []) 0 some_table ≡ ok compressed_table)
    × (on_execute debug (compressed_table ∷ []) scan 0 ≡ on_execute debug store scan 0)
unfolding Table.column_type
on_execute-compressed_example =
    on_execute-compressed debug scan int int_scalar-IsLawful (pos 5) castable some_table 0 0
      first_chunk 3 first_there (omega arith) some_table-Column has_column (0 ∷ []) store
      (compressed_table ∷ []) (text "int") (cells some_values ∷ decoded some_dictionary ∷ [])
      one_thread refl refl refl refl refl (omega arith) some_table-ColumnRows
