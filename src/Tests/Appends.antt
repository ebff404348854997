-- ===== src/Tests/Appends.antt =====
-- The theorem on a row that a chunk takes in part, and a row count, at concrete chunks and tables.
use dyod_so_se.Chunk
use dyod_so_se.Chunk.{Chunk}
use dyod_so_se.Chunk.Append.{TakesRow, takes, no_column, RowAdded, append-partial}
use dyod_so_se.Outcome.{ok, throw, Error, debug}
use dyod_so_se.Prelude.Int.{pos}
use dyod_so_se.Prelude.Text.{text}
use dyod_so_se.Prelude.{◌≡◌, refl, List, [], ◌∷◌, ◌++◌, some, arith}
use dyod_so_se.Segment.{Segment, value_segment}
use dyod_so_se.Table.{Table}
use dyod_so_se.Table
use dyod_so_se.Tests.Segments.{some_values-IsValid}
use dyod_so_se.Tests.{platform, some_values, first_chunk, some_table}
use dyod_so_se.Types.{Variant, int, of_int, of_string, type_cast?}
use dyod_so_se.ValueSegment
use dyod_so_se.ValueSegment.{ValueSegment}

abbrev row : List (Variant platform)
row = of_int (pos 9) ∷ []

row-TakesRow : TakesRow row first_chunk.columns
unfolding type_cast? ValueSegment.is_nullable
row-TakesRow = takes int some_values (some (pos 9)) some_values-IsValid refl no_column

-- two columns, the second of which takes no text
append-partial_example :
    (ss' : List (Segment platform)) × (e : Error) × (Chunk.append debug
        (of_int (pos 9) ∷ of_string (text "x") ∷ [])
        (record { columns = value_segment int some_values ∷ value_segment int some_values ∷ [] })
      ≡ (throw e, record { columns = ss' ++ value_segment int some_values ∷ [] }))
    × RowAdded row first_chunk.columns ss'
unfolding type_cast? ValueSegment.is_nullable
append-partial_example =
    append-partial debug {vs = row} {ss = first_chunk.columns} (of_string (text "x")) [] int
      some_values [] row-TakesRow some_values-IsValid refl refl (omega arith)

abbrev open_table : Table platform
open_table = record some_table { chunks = first_chunk ∷ []; target_chunk_size = 4 }

counted_rows : Table.row_count open_table ≡ ok 3
unfolding Table.row_count Table.row_count_from Chunk.size ValueSegment.size
counted_rows = refl
