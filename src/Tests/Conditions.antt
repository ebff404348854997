-- ===== src/Tests/Conditions.antt =====
-- The theorems on one scan after another, at a concrete table and its selections.
use dyod_so_se.Algorithm
use dyod_so_se.AttributeVector
use dyod_so_se.DictionarySegment
use dyod_so_se.Outcome.{ok, debug}
use dyod_so_se.Prelude.Int.{pos}
use dyod_so_se.Prelude.{ℕ, map, ◌≡◌, refl, true, List, [], ◌∷◌, some, arith}
use dyod_so_se.Print.Layout.{table_text}
use dyod_so_se.Print.Selected.{print-Scanned}
use dyod_so_se.Print.Widths.{min_width, max_width, column_string_widths}
use dyod_so_se.Print.{print}
use dyod_so_se.Reference.{Store}
use dyod_so_se.Scalar.{int_scalar-IsLawful}
use dyod_so_se.Segment.{ReferenceSegment}
use dyod_so_se.Table
use dyod_so_se.Table.Contents.{Row, concat}
use dyod_so_se.Table.{Table}
use dyod_so_se.TableScan.Execute.Conditions.{
  Scanned, first, again, Scanned-Selection, Scanned-SameRows,
}
use dyod_so_se.TableScan.Execute.Output.{ReadsRows}
use dyod_so_se.TableScan.Execute.OutputChunks.{output_chunk}
use dyod_so_se.TableScan.Execute.Queries.{Query, Selection, on_execute-Selection}
use dyod_so_se.TableScan.Execute.{on_execute}
use dyod_so_se.TableScan.{create_scan_operation, id_operation}
use dyod_so_se.Tests.Contents.{stored_table, stored_rows, one_column, row_of, stored_table-Stores}
use dyod_so_se.Tests.Histories.{whole_table, whole_table-Stores}
use dyod_so_se.Tests.{platform}
use dyod_so_se.Types.{PosList, int, of_int, type_cast?, op_greater_than}
use mathlib.Core.List.Perm

castable : (n : ℕ) → type_cast? platform int (of_int (pos n)) ≡ some (pos n)
unfolding type_cast?
castable n = refl

-- the rows above a number
abbrev above : ℕ → Query platform one_column
above n = record {
  scan = record { column_id = 0; scan_type = op_greater_than; search_value = of_int (pos n) };
  data_type = int;
  nullable = true;
  search = pos n;
  column = refl;
  laws = int_scalar-IsLawful;
  castable = castable n;
  not_null = refl;
}

-- positions in the stored table
abbrev into_table : PosList → ReferenceSegment
into_table ps = record { referenced_table = 0; referenced_column_id = 0; pos_list = ps }

abbrev above_two_found : List ReferenceSegment
above_two_found =
    into_table
      (record { chunk_id = 0; chunk_offset = 0 } ∷ record { chunk_id = 0; chunk_offset = 2 } ∷ [])
    ∷ into_table (
        record { chunk_id = 1; chunk_offset = 0 }
        ∷ record { chunk_id = 1; chunk_offset = 1 }
        ∷ record { chunk_id = 1; chunk_offset = 2 }
        ∷ [])
    ∷ []

abbrev above_four_found : List ReferenceSegment
above_four_found =
    into_table (record { chunk_id = 0; chunk_offset = 0 } ∷ [])
    ∷ into_table
        (record { chunk_id = 1; chunk_offset = 1 } ∷ record { chunk_id = 1; chunk_offset = 2 } ∷ [])
    ∷ []

abbrev made_of : List ReferenceSegment → Table platform
made_of found = record stored_table { chunks = map (output_chunk 1) found }

-- the rows above 4 of the table that stores them in one chunk
abbrev whole_found : List ReferenceSegment
whole_found =
    record {
      referenced_table = 3;
      referenced_column_id = 0;
      pos_list =
          record { chunk_id = 0; chunk_offset = 0 }
          ∷ record { chunk_id = 0; chunk_offset = 4 }
          ∷ record { chunk_id = 0; chunk_offset = 5 }
          ∷ [];
    }
    ∷ []

abbrev whole_above_four : Table platform
whole_above_four = record whole_table { chunks = map (output_chunk 1) whole_found }

-- the two tables that store the rows, and the tables that scans make from them
abbrev tables : Store platform
tables =
    stored_table
    ∷ made_of above_two_found
    ∷ made_of above_four_found
    ∷ whole_table
    ∷ whole_above_four
    ∷ []

abbrev Selects : Table platform → List (Row platform) → Type 0
Selects =
    Selection debug tables one_column stored_table 0 stored_rows stored_table-Stores refl
      (omega arith)

above_two-Selection :
    Selects (made_of above_two_found) (row_of 7 ∷ row_of 3 ∷ row_of 3 ∷ row_of 7 ∷ row_of 7 ∷ [])
unfolding Table.from_references
above_two-Selection = record {
  found = above_two_found;
  made = refl;
  tables = (refl, (refl, tt));
  short = (omega arith, (omega arith, tt));
  few_found = omega arith;
  names = refl;
}

on_execute-Selection_example :
    (t'' : Table platform) × (on_execute debug tables (above 4).scan 1 ≡ ok t'')
    × Selects t'' (row_of 7 ∷ row_of 7 ∷ row_of 7 ∷ [])
unfolding create_scan_operation
on_execute-Selection_example =
    on_execute-Selection debug tables one_column stored_table 0 stored_rows stored_table-Stores refl
      (omega arith) (above 4) (made_of above_two_found)
      (row_of 7 ∷ row_of 3 ∷ row_of 3 ∷ row_of 7 ∷ row_of 7 ∷ []) 1 above_two-Selection refl

abbrev Scans : List (Query platform one_column) → Table platform → Type 0
Scans =
    Scanned debug tables one_column stored_table 0 stored_rows stored_table-Stores refl
      (omega arith)

two_then_four : Scans (above 4 ∷ above 2 ∷ []) (made_of above_four_found)
unfolding on_execute create_scan_operation AttributeVector.size id_operation AttributeVector.get
    DictionarySegment.upper_bound_id Algorithm.upper_bound
two_then_four =
    again (above 4) (above 2 ∷ []) (made_of above_two_found) (made_of above_four_found) 1
      (first (above 2) (made_of above_two_found) refl) refl refl

-- the same conditions in the other order, on the other table
four_then_two :
    Scanned debug tables one_column whole_table 3 stored_rows whole_table-Stores refl
      (omega arith)
      (above 2 ∷ above 4 ∷ [])
      whole_above_four
unfolding on_execute create_scan_operation AttributeVector.size id_operation AttributeVector.get
    DictionarySegment.upper_bound_id Algorithm.upper_bound
four_then_two =
    again (above 2) (above 4 ∷ []) whole_above_four whole_above_four 4
      (first (above 4) whole_above_four refl) refl refl

Scanned-Selection_example :
    (s : Selects (made_of above_four_found) (row_of 7 ∷ row_of 7 ∷ row_of 7 ∷ [])) × ReadsRows debug
      tables stored_table 0 one_column stored_rows stored_table-Stores refl
      (omega arith)
      (made_of above_four_found)
      s.found
unfolding create_scan_operation
Scanned-Selection_example =
    Scanned-Selection debug tables one_column stored_table 0 stored_rows stored_table-Stores refl
      (omega arith) (above 4 ∷ above 2 ∷ []) (made_of above_four_found) two_then_four

Scanned-SameRows_example :
    (selected : List (Row platform)) × Selects (made_of above_four_found) selected
    × Selection debug tables one_column whole_table 3 stored_rows whole_table-Stores refl
        (omega arith)
        whole_above_four
        selected
Scanned-SameRows_example =
    Scanned-SameRows debug tables one_column stored_rows stored_table whole_table 0 3
      stored_table-Stores whole_table-Stores refl refl (omega arith) (omega arith)
      (above 4 ∷ above 2 ∷ []) (above 2 ∷ above 4 ∷ []) (made_of above_four_found) whole_above_four
      two_then_four four_then_two (Perm.swap (above 2) (above 4) [])

print-Scanned_example :
    (ws : List ℕ) × (parts : List (List (Row platform))) × (concat parts
      ≡ row_of 7 ∷ row_of 7 ∷ row_of 7 ∷ [])
    × (column_string_widths debug tables 1 min_width max_width (made_of above_four_found) ≡ ok ws)
    × (print debug tables 1 (some 2) ≡ (
      ok tt,
      table_text platform ws stored_table.column_names stored_table.column_types
          stored_table.column_nullable parts,
    ))
unfolding create_scan_operation
print-Scanned_example =
    print-Scanned debug tables stored_table 0 one_column stored_rows stored_table-Stores refl
      (omega arith) (omega arith) 0 (above 4 ∷ above 2 ∷ []) (made_of above_four_found) 2
      two_then_four refl ((refl, tt), ((refl, tt), ((refl, tt), tt)))
