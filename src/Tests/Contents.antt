-- ===== src/Tests/Contents.antt =====
-- The theorems on the rows that a table stores, at a concrete table.
use dyod_so_se.AttributeVector.{uint8}
use dyod_so_se.DictionarySegment.Invariant.{IsDictionary}
use dyod_so_se.DictionarySegment.{DictionarySegment}
use dyod_so_se.Outcome.{ok, debug}
use dyod_so_se.Prelude.Int.{ℤ, pos}
use dyod_so_se.Prelude.Text.{text}
use dyod_so_se.Prelude.{ℕ, ◌≡◌, refl, inl, true, false, List, [], ◌∷◌, ◌++◌, some, arith}
use dyod_so_se.Scalar.{int_scalar, int_scalar-IsLawful}
use dyod_so_se.Segment.{dictionary_segment}
use dyod_so_se.Table
use dyod_so_se.Table.Columns.{HasSchema}
use dyod_so_se.Table.Compress.{compress_chunk}
use dyod_so_se.Table.Contents.Appended.{StoresMore, append-StoresMore}
use dyod_so_se.Table.Contents.Compressed.{compress_chunk-Stores}
use dyod_so_se.Table.Contents.Counts.{row_count-length}
use dyod_so_se.Table.Contents.{
  Row, Schema, ChunksHold, Stores, Converts, values, ids, no_column, chunk, no_chunk, converts,
  no_value,
}
use dyod_so_se.Table.{Table}
use dyod_so_se.Tests.Segments.{some_values-IsValid, some_values-IsNullSafe}
use dyod_so_se.Tests.{platform, some_values, first_chunk, some_table}
use dyod_so_se.Types.{int, of_int, null, type_cast?}
use dyod_so_se.ValueSegment

-- 3, 7, 7
abbrev pub plain_dictionary : DictionarySegment ℤ
plain_dictionary = record {
  dictionary = pos 3 ∷ pos 7 ∷ [];
  attribute_vector = record { width_of = uint8; ids = 0 ∷ 1 ∷ 1 ∷ [] };
}

pub plain_dictionary-IsDictionary : IsDictionary int_scalar plain_dictionary
plain_dictionary-IsDictionary = record {
  ascending = ((refl, tt), (tt, tt));
  small = ground arith;
  in_range = (omega arith, (omega arith, (omega arith, tt)));
  rows = ground arith;
}

-- a chunk of value segments and a compressed one
abbrev pub stored_table : Table platform
stored_table = record some_table {
  chunks = first_chunk ∷ record { columns = dictionary_segment int plain_dictionary ∷ [] } ∷ [];
}

abbrev pub one_column : Schema
one_column = (int, true) ∷ []

abbrev pub row_of : ℕ → Row platform
row_of n = of_int (pos n) ∷ []

abbrev pub null_row : Row platform
null_row = null ∷ []

abbrev pub first_part : List (Row platform)
first_part = row_of 7 ∷ null_row ∷ row_of 3 ∷ []

abbrev pub second_part : List (Row platform)
second_part = row_of 3 ∷ row_of 7 ∷ row_of 7 ∷ []

abbrev pub stored_rows : List (Row platform)
stored_rows = first_part ++ second_part

unfoldable pub stored_chunks :
    ChunksHold one_column 3 stored_table.chunks (first_part ∷ second_part ∷ [])
unfolding ValueSegment.is_nullable
stored_chunks =
    chunk false
      (values int true some_values some_values-IsValid refl refl
        (no_column (refl, (refl, (refl, tt)))))
      (omega arith)
      (chunk true
        (ids int true plain_dictionary plain_dictionary-IsDictionary refl
          (no_column (refl, (refl, (refl, tt)))))
        (omega arith) no_chunk)

pub stored_table-HasSchema : HasSchema stored_table
unfolding Table.contains
stored_table-HasSchema = record { distinct = (refl, tt); types = refl; nullable = refl }

abbrev pub stored_table-Stores : Stores one_column stored_table stored_rows
stored_table-Stores = record {
  named = stored_table-HasSchema;
  spells = (text "int", refl, refl, refl, tt);
  complete = refl;
  narrow = omega arith;
  positive = omega arith;
  bounded = omega arith;
  parts = first_part ∷ second_part ∷ [];
  chunks = stored_chunks;
  contents = refl;
  before = first_chunk ∷ [];
  last_chunk = record { columns = dictionary_segment int plain_dictionary ∷ [] };
  last = refl;
}

nine-Converts : Converts platform one_column (row_of 9) (row_of 9)
unfolding type_cast?
nine-Converts = converts int true (some (pos 9)) refl no_value

append-StoresMore_example :
    StoresMore debug int true [] stored_table stored_rows stored_table-Stores
      (row_of 9)
      (row_of 9)
      nine-Converts
append-StoresMore_example =
    append-StoresMore debug int true [] stored_table stored_rows stored_table-Stores (row_of 9)
      (row_of 9) nine-Converts

one_counted : Table.column_count stored_table ≡ 1
unfolding Table.column_count
one_counted = refl

compress_chunk-Stores_example :
    (t' : Table platform) × (compress_chunk debug (0 ∷ []) 0 stored_table ≡ ok t')
    × Stores one_column t' stored_rows
unfolding Table.get_chunk
compress_chunk-Stores_example =
    compress_chunk-Stores debug stored_table one_column stored_rows stored_table-Stores 0
      first_chunk refl (some_values-IsNullSafe, tt) (int_scalar-IsLawful, tt) (0 ∷ [])
      ((omega (arith, one_counted), tt), (λ c h. inl (omega (arith, one_counted, h))))

row_count-length_example : Table.row_count stored_table ≡ ok 6
row_count-length_example =
    row_count-length int true [] stored_table stored_rows stored_table-Stores (omega arith)
