-- ===== src/TableScan/Execute/Output.antt =====
-- The table that a scan makes, and the rows that are read from it.

use dyod_so_se.Chunk.{Chunk}
use dyod_so_se.DictionarySegment.Reads.{All-get_elem?}
use dyod_so_se.Operator.Life.{get_table_on_execute-view}
use dyod_so_se.Operator.{constructed, execute, get_table_on_execute, left_input_table, get_output}
use dyod_so_se.Outcome.{ok, ◌>>=◌, Build, subscript}
use dyod_so_se.Prelude.Text.{Text}
use dyod_so_se.Prelude.{
  ℕ, zero, suc, ◌+◌, ◌^◌, ◌<◌, ◌≡◌, ap, ◌∙◌, Bool, false, List, some, map, length, get_elem?, All,
  arith,
}
use dyod_so_se.Print.Widths.{cell}
use dyod_so_se.Reference.{Store}
use dyod_so_se.Scalar.{IsLawful}
use dyod_so_se.Segment.{ReferenceSegment, reference_segment}
use dyod_so_se.StorageManager.Map.{View, Models}
use dyod_so_se.StorageManager.{StorageManager}
use dyod_so_se.Table.Contents.Cells.{get_segment-there}
use dyod_so_se.Table.Contents.Reads.{element-row_at}
use dyod_so_se.Table.Contents.{Row, Schema, row_at, Stores}
use dyod_so_se.Table.{Table, reference_columns}
use dyod_so_se.TableScan.Execute.Passing.{filter}
use dyod_so_se.TableScan.Execute.Contents.{passes_scan, on_execute-filter}
use dyod_so_se.TableScan.Execute.Kept.{positions, IsShort}
use dyod_so_se.TableScan.Execute.OutputChunks.{
  OutputChunks, OutputChunks-there, from_references-OutputChunks,
}
use dyod_so_se.TableScan.Execute.{Scan, scan_on_execute}
use dyod_so_se.Types.{
  Platform, DataType, Variant, Value, scalar, type_cast?, variant_is_null, RowId,
}

module _ {P : Platform} where
  pub reference_columns-there :
      (r : ReferenceSegment) (n i j : ℕ)
      → j < n
      → get_elem? (reference_columns {P = P} r n i) j
        ≡ some (reference_segment (record r { referenced_column_id = i + j }))
  unfolding reference_columns
  reference_columns-there r zero i j h = absurd (omega (arith, h))
  reference_columns-there r (suc n) i zero h =
      ap (λ k. some (reference_segment (record r { referenced_column_id = k }))) (omega arith)
  reference_columns-there r (suc n) i (suc j) h =
      reference_columns-there r n (suc i) j (omega (arith, h))
      ∙ ap (λ k. some (reference_segment (record r { referenced_column_id = k }))) (omega arith)

module _ {P : Platform} (build : Build) (store : Store P) (t : Table P) (input : ℕ)
    (schema : Schema) (rows : List (Row P)) (stored : Stores schema t rows)
    (there : subscript store input ≡ ok t) (few : length t.chunks < 2 ^ 32) where
  -- Row `i` of chunk `n` of the output reads as the row that its position names, where a value is not
  -- null.
  abbrev pub ReadsRows : Table P → List ReferenceSegment → Type 0
  ReadsRows t' found =
      (n i : ℕ) (r : ReferenceSegment) (p : RowId) (row : Row P) (k depth : ℕ) (v : Variant P)
      → get_elem? found n ≡ some r
      → get_elem? r.pos_list i ≡ some p
      → row_at P stored.parts p ≡ some row
      → k < length schema
      → get_elem? row k ≡ some v
      → variant_is_null P v ≡ false
      → (c : Chunk P) × (get_elem? t'.chunks n ≡ some c)
        × (cell build store (suc depth) c k i ≡ ok v)

  -- a chunk of the output reads as the rows that its positions name
  pub cell-reference_columns :
      (r : ReferenceSegment) (p : RowId) (row : Row P) (i k depth : ℕ) (v : Variant P)
      → r.referenced_table ≡ input
      → get_elem? r.pos_list i ≡ some p
      → row_at P stored.parts p ≡ some row
      → k < length schema
      → get_elem? row k ≡ some v
      → variant_is_null P v ≡ false
      → cell build store
          (suc depth)
          (record { columns = reference_columns r (length schema) 0 })
          k
          i
        ≡ ok v
  unfolding cell
  cell-reference_columns r p row i k depth v address position named inside value known =
      let target : ReferenceSegment = record r { referenced_column_id = k } in
      let column : get_elem? (reference_columns {P = P} r (length schema) 0) k
          ≡ some (reference_segment target) =
        reference_columns-there r (length schema) 0 k inside
        ∙ ap (λ j. some (reference_segment (record r { referenced_column_id = j })))
            (omega arith) in
      rw
        (
          get_segment-there (record { columns = reference_columns r (length schema) 0 }) k
              (reference_segment target) column,
          ◌>>=◌,
        )
        (element-row_at build store t schema rows stored few depth target i p row v
          (ap (subscript store) address ∙ there) position named value known)

  pub reads_rows :
      (t' : Table P) (found : List ReferenceSegment)
      → All (λ r. r.referenced_table ≡ input) found
      → ((n : ℕ) (r : ReferenceSegment)
          → get_elem? found n ≡ some r
          → get_elem? t'.chunks n
            ≡ some (record { columns = reference_columns r (length schema) 0 }))
      → ReadsRows t' found
  reads_rows t' found tables chunks n i r p row k depth v at position named inside value known = (
    record { columns = reference_columns r (length schema) 0 },
    chunks n r at,
    cell-reference_columns r p row i k depth v
        (All-get_elem? (λ q. q.referenced_table ≡ input) found n r tables at) position named inside
        value known,
  )

module _ {P : Platform} (build : Build) (store : Store P) (scan : Scan P) (d : DataType)
    (laws : IsLawful (scalar P d)) (search : Value P d)
    (castable : type_cast? P d scan.search_value ≡ some search) (t : Table P) (input : ℕ)
    (schema : Schema) (b : Bool) (rows : List (Row P)) (stored : Stores schema t rows)
    (there : subscript store input ≡ ok t) (scanned : get_elem? schema scan.column_id ≡ some (d, b))
    (not_null : variant_is_null P scan.search_value ≡ false) (few : length t.chunks < 2 ^ 32) where
  -- A query for the rows of a table by its name. Where a storage manager binds a name to a table of
  -- fewer than 2 ^ 32 chunks that stores rows, a `TableScan` on an executed `GetTable`, with a
  -- search value that is not null and casts to the type of the scanned column, which has a lawful
  -- order, succeeds. Its output has the definitions of the table and exactly one chunk for each of
  -- a list of reference segments into the table, whose columns are this segment for each column, or
  -- a single empty chunk where there is no reference segment. The positions of these segments name,
  -- in order, exactly the rows whose value in the column is not null and passes; each segment has a
  -- position and fewer than 2 ^ 32, and the output reads as these rows where a value is not null.
  pub scan_on_execute-rows :
      (view : View) (sm : StorageManager) (name : Text)
      → Models view sm
      → view name ≡ some (some input)
      → (cs : List (Chunk P)) × (found : List ReferenceSegment) × (scan_on_execute build store scan
            (some (execute (get_table_on_execute name sm) constructed).1)
          ≡ ok (record t { chunks = cs }))
        × OutputChunks (length schema) found cs
        × All (λ r. r.referenced_table ≡ input) found
        × All IsShort found
        × (map (row_at P stored.parts) (positions found)
            ≡ map some (filter (passes_scan build store scan d laws search castable) rows))
        × ReadsRows build store t input schema rows stored there few
            (record t { chunks = cs })
            found
  unfolding scan_on_execute left_input_table get_output
  scan_on_execute-rows view sm name models bound =
      let (found, run, tables, names, short, fewer) =
        on_execute-filter build store scan d laws search castable t input schema b rows stored there
          scanned not_null few in
      let (cs, made, chunks) = from_references-OutputChunks t schema rows found stored in
      let got = rw bound at (get_table_on_execute-view view sm models name) in
      (
        cs,
        found,
        ap (λ e. scan_on_execute build store scan (some e.1)) got ∙ run ∙ made,
        chunks,
        tables,
        short,
        names,
        reads_rows build store t input schema rows stored there few (record t { chunks = cs }) found
            tables (OutputChunks-there (length schema) found cs chunks),
      )
