-- ===== src/Tests/Queries.antt =====
-- The theorems on scans of a table that stores rows, at a concrete table.
use dyod_so_se.Table.Contents.Reads.{element-row_at}
use dyod_so_se.TableScan.{create_scan_operation}
use dyod_so_se.Operator.{constructed, execute, get_table_on_execute}
use dyod_so_se.Outcome.{ok, debug}
use dyod_so_se.Prelude.Int.{pos}
use dyod_so_se.Prelude.Text.{text}
use dyod_so_se.Prelude.{◌≡◌, refl, true, List, [], ◌∷◌, some, map, All, arith}
use dyod_so_se.Reference.{Store, element}
use dyod_so_se.Scalar.{int_scalar-IsLawful}
use dyod_so_se.Segment.{ReferenceSegment, reference_segment}
use dyod_so_se.Table.Contents.{row_at}
use dyod_so_se.TableScan.Execute.Kept.{positions, IsShort}
use dyod_so_se.TableScan.Execute.OutputChunks.{OutputChunks}
use dyod_so_se.Chunk.{Chunk}
use dyod_so_se.TableScan.Execute.Output.{ReadsRows, scan_on_execute-rows}
use dyod_so_se.TableScan.Execute.{Scan, scan_on_execute}
use dyod_so_se.Tests.Contents.{
  stored_table, stored_table-Stores, stored_rows, first_part, second_part, one_column, row_of,
}
use dyod_so_se.Tests.Tables.{bound, manager, manager-Models}
use dyod_so_se.Tests.{platform}
use dyod_so_se.Types.{RowId, int, of_int, type_cast?, op_greater_than}

abbrev pub stored : Store platform
stored = stored_table ∷ []

-- the rows above 4
abbrev pub above_four : Scan platform
above_four = record { column_id = 0; scan_type = op_greater_than; search_value = of_int (pos 4) }

castable : type_cast? platform int (of_int (pos 4)) ≡ some (pos 4)
unfolding type_cast?
castable = refl

scan_on_execute-rows_example :
    (cs : List (Chunk platform)) × (found : List ReferenceSegment) × (scan_on_execute debug stored
        above_four
        (some (execute (get_table_on_execute (text "t") manager) constructed).1)
      ≡ ok (record stored_table { chunks = cs }))
    × OutputChunks 1 found cs
    × All (λ r. r.referenced_table ≡ 0) found
    × All IsShort found
    × (map (row_at platform (first_part ∷ second_part ∷ [])) (positions found)
        ≡ some (row_of 7) ∷ some (row_of 7) ∷ some (row_of 7) ∷ [])
    × ReadsRows debug stored stored_table 0 one_column stored_rows stored_table-Stores refl
        (omega arith)
        (record stored_table { chunks = cs })
        found
unfolding create_scan_operation
scan_on_execute-rows_example =
    scan_on_execute-rows debug stored above_four int int_scalar-IsLawful (pos 4) castable
      stored_table 0 one_column true stored_rows stored_table-Stores refl refl refl (omega arith)
      bound manager (text "t") manager-Models refl

-- the position of the second row of the second chunk
abbrev second_of_second : RowId
second_of_second = record { chunk_id = 1; chunk_offset = 1 }

element-row_at_example :
    element debug stored 1
      (reference_segment (record {
        referenced_table = 0;
        referenced_column_id = 0;
        pos_list = second_of_second ∷ [];
      }))
      0
    ≡ ok (of_int (pos 7))
element-row_at_example =
    element-row_at debug stored stored_table one_column stored_rows stored_table-Stores
      (omega arith) 0
      (record { referenced_table = 0; referenced_column_id = 0; pos_list = second_of_second ∷ [] })
      0 second_of_second (row_of 7) (of_int (pos 7)) refl refl refl refl refl
