-- ===== src/Tests/Histories.antt =====
-- The theorems on the history of a table and on tables with the same rows, at concrete tables.
use dyod_so_se.AttributeVector
use dyod_so_se.AttributeVector.{uint8}
use dyod_so_se.Algorithm
use dyod_so_se.DictionarySegment
use dyod_so_se.DictionarySegment.{DictionarySegment}
use dyod_so_se.Outcome.{debug}
use dyod_so_se.Prelude.Int.{ℤ, pos}
use dyod_so_se.Prelude.Text.{text}
use dyod_so_se.Prelude.{
  ℕ, ◌<◌, get_elem?, ◌≡◌, refl, inl, true, false, List, [], ◌∷◌, none, some, map, arith,
}
use dyod_so_se.Scalar.{int_scalar-IsLawful}
use dyod_so_se.Segment.{ReferenceSegment, value_segment, dictionary_segment}
use dyod_so_se.Table
use dyod_so_se.Table.Columns.{HasSchema}
use dyod_so_se.Table.Compress.{compress_chunk}
use dyod_so_se.Table.Contents.Histories.{
  Defined, constructed, column, Reached, defined, appended, compressed, Reached-Stores,
  Reached-HasTypedSegment,
}
use dyod_so_se.Table.Contents.Counts.{HasTypedSegment}
use dyod_so_se.Table.Contents.{
  Row, concat, row_at, Stores, ChunksHold, values, no_column, chunk, no_chunk, converts, no_value,
}
use dyod_so_se.Table.{Table}
use dyod_so_se.TableScan.Execute.Kept.{positions}
use dyod_so_se.TableScan.Execute.Independence.{on_execute-SameRows}
use dyod_so_se.TableScan.Execute.{on_execute}
use dyod_so_se.Tests.Contents.{
  one_column, row_of, null_row, stored_table, stored_table-Stores, stored_rows, first_part,
  second_part,
}
use dyod_so_se.Tests.Queries.{above_four}
use dyod_so_se.Tests.{platform}
use dyod_so_se.Types.{int, of_int, type_cast?}
use dyod_so_se.ValueSegment
use dyod_so_se.ValueSegment.{ValueSegment}

-- a table of chunks of one row, with a column and no row
abbrev empty : Table platform
empty = record {
  chunks =
      record { columns = value_segment int (record { values = []; null_values = some [] }) ∷ [] }
      ∷ [];
  column_names = text "a" ∷ [];
  column_types = text "int" ∷ [];
  column_nullable = true ∷ [];
  target_chunk_size = 1;
}

-- with the row 7
abbrev one_row : Table platform
one_row = record empty {
  chunks =
      record {
        columns =
            value_segment int (record { values = pos 7 ∷ []; null_values = some (false ∷ []) })
            ∷ [];
      }
      ∷ [];
}

-- with a null row behind it, in a chunk of its own
abbrev two_rows : Table platform
two_rows = record empty {
  chunks =
      record {
        columns =
            value_segment int (record { values = pos 7 ∷ []; null_values = some (false ∷ []) })
            ∷ [];
      }
      ∷ record {
        columns =
            value_segment int (record { values = pos 0 ∷ []; null_values = some (true ∷ []) }) ∷ [];
      }
      ∷ [];
}

-- and the first chunk compressed
abbrev encoded : Table platform
encoded = record empty {
  chunks =
      record {
        columns =
            dictionary_segment int (record {
              dictionary = pos 7 ∷ [];
              attribute_vector = record { width_of = uint8; ids = 0 ∷ [] };
            })
            ∷ [];
      }
      ∷ record {
        columns =
            value_segment int (record { values = pos 0 ∷ []; null_values = some (true ∷ []) }) ∷ [];
      }
      ∷ [];
}

empty-Defined : Defined debug 1 one_column empty
unfolding Table.contains Table.new Table.add_column
empty-Defined = column (text "a") (text "int") true int constructed refl refl (omega arith) refl

one_row-Reached : Reached debug 1 one_column (row_of 7 ∷ []) one_row
unfolding Table.append type_cast?
one_row-Reached =
    appended (row_of 7) (row_of 7) (defined empty-Defined)
      (converts int true (some (pos 7)) refl no_value) refl

two_rows-Reached : Reached debug 1 one_column (row_of 7 ∷ null_row ∷ []) two_rows
unfolding Table.append
two_rows-Reached =
    appended null_row null_row one_row-Reached (converts int true none refl no_value) refl

one_counted : Table.column_count two_rows ≡ 1
unfolding Table.column_count
one_counted = refl

encoded-Reached : Reached debug 1 one_column (row_of 7 ∷ null_row ∷ []) encoded
unfolding Table.get_chunk compress_chunk DictionarySegment.initialize_attributes_vector
    Algorithm.unique Algorithm.sort ValueSegment.size DictionarySegment.fill_attributes_vector
    Algorithm.invert AttributeVector.set_id AttributeVector.new Algorithm.get_or_insert
encoded-Reached =
    compressed (0 ∷ []) 0
      (record {
        columns =
            value_segment int (record { values = pos 7 ∷ []; null_values = some (false ∷ []) })
            ∷ [];
      })
      two_rows-Reached refl ((λ e. (refl, tt)), tt)
      ((omega (arith, one_counted), tt), (λ c h. inl (omega (arith, one_counted, h)))) refl

Reached-Stores_example : Stores one_column encoded (row_of 7 ∷ null_row ∷ [])
Reached-Stores_example =
    Reached-Stores debug 1 (omega arith) (omega arith) (omega arith) (int_scalar-IsLawful, tt)
      encoded-Reached

Reached-HasTypedSegment_example :
    (parts : List (List (Row platform))) × (concat parts ≡ row_of 7 ∷ null_row ∷ [])
    × ((i k : ℕ)
        → i < 2
        → k < 1
        → (part : List (Row platform)) × (get_elem? parts i ≡ some part)
          × HasTypedSegment encoded part i k)
Reached-HasTypedSegment_example =
    Reached-HasTypedSegment debug 1 (omega arith) (omega arith) (omega arith)
      (int_scalar-IsLawful, tt) encoded-Reached (omega arith)

-- the rows of `stored_table`, in one value segment
abbrev pub all_values : ValueSegment ℤ
all_values = record {
  values = pos 7 ∷ pos 0 ∷ pos 3 ∷ pos 3 ∷ pos 7 ∷ pos 7 ∷ [];
  null_values = some (false ∷ true ∷ false ∷ false ∷ false ∷ false ∷ []);
}

abbrev pub whole_table : Table platform
whole_table = record stored_table {
  chunks = record { columns = value_segment int all_values ∷ [] } ∷ [];
  target_chunk_size = 6;
}

pub whole_table-HasSchema : HasSchema whole_table
unfolding Table.contains
whole_table-HasSchema = record { distinct = (refl, tt); types = refl; nullable = refl }

pub whole_chunks : ChunksHold one_column 6 whole_table.chunks (stored_rows ∷ [])
unfolding ValueSegment.is_nullable
whole_chunks =
    chunk false
      (values int true all_values
        ((λ e. cc), ((λ e. refl), ((λ e. cc), ((λ e. cc), ((λ e. cc), ((λ e. cc), tt)))))) refl refl
        (no_column (refl, (refl, (refl, (refl, (refl, (refl, tt))))))))
      (omega arith) no_chunk

abbrev pub whole_table-Stores : Stores one_column whole_table stored_rows
whole_table-Stores = record {
  named = whole_table-HasSchema;
  spells = stored_table-Stores.spells;
  complete = refl;
  narrow = omega arith;
  positive = omega arith;
  bounded = omega arith;
  parts = stored_rows ∷ [];
  chunks = whole_chunks;
  contents = refl;
  before = [];
  last_chunk = record { columns = value_segment int all_values ∷ [] };
  last = refl;
}

castable : type_cast? platform int (of_int (pos 4)) ≡ some (pos 4)
unfolding type_cast?
castable = refl

on_execute-SameRows_example :
    (found : List ReferenceSegment) × (found' : List ReferenceSegment) × (on_execute debug
        (stored_table ∷ whole_table ∷ [])
        above_four
        0
      ≡ Table.from_references stored_table found)
    × (on_execute debug (stored_table ∷ whole_table ∷ []) above_four 1
        ≡ Table.from_references whole_table found')
    × (map (row_at platform (first_part ∷ second_part ∷ [])) (positions found)
        ≡ map (row_at platform (stored_rows ∷ [])) (positions found'))
on_execute-SameRows_example =
    on_execute-SameRows debug (stored_table ∷ whole_table ∷ []) above_four int int_scalar-IsLawful
      (pos 4) castable one_column true stored_rows stored_table whole_table 0 1 stored_table-Stores
      whole_table-Stores refl refl refl refl (omega arith) (omega arith)
