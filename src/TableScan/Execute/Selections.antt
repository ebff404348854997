-- ===== src/TableScan/Execute/Selections.antt =====
-- What `TableScan::_on_execute` finds in the table of reference segments that a scan made.
use dyod_so_se.Chunk
use dyod_so_se.Chunk.{Chunk}
use dyod_so_se.Outcome.{ok, ◌>>=◌, Build, subscript}
use dyod_so_se.Prelude.Text.{Text}
use dyod_so_se.Prelude.{
  ℕ, suc, ◌+◌, ◌^◌, ◌%◌, ◌<◌, ◌≤◌, ◌≡◌, refl, sym, ap, ◌∙◌, Bool, false, List, [], ◌∷◌, ◌++◌,
  Option, none, some, map, length, take_all, get_elem?, All, arith, ◌==◌,
}
use dyod_so_se.Reference.{Store}
use dyod_so_se.Segment.{Segment, ReferenceSegment, reference_segment, as_value, as_dictionary}
use dyod_so_se.ValueSegment.Reads.{get_elem?-below}
use dyod_so_se.Table
use dyod_so_se.Table.Contents.Cells.{map-append, get_segment-there}
use dyod_so_se.Table.Contents.{Row, Schema, row_at, Stores}
use dyod_so_se.Table.{Table, new_segments, reference_columns}
use dyod_so_se.TableScan.Execute.Again.{
  split_names, takes_row, length-keep_passing, keep_passing-names,
}
use dyod_so_se.TableScan.Execute.Kept.{
  positions, IsShort, positions-keep_found, keep_found-table, keep_found-IsShort,
}
use dyod_so_se.TableScan.Execute.Output.{reference_columns-there}
use dyod_so_se.TableScan.Execute.OutputChunks.{
  output_chunk, output_chunk-size, from_references-definitions,
}
use dyod_so_se.TableScan.Execute.Passing.{filter, filter-append}
use dyod_so_se.TableScan.Execute.References.{
  RowsAt, keep_passing, tablescan_reference_segment-keep_passing,
}
use dyod_so_se.TableScan.Execute.{Scan, scan_segment, keep_found, scan_chunks, on_execute}
use dyod_so_se.Types.{
  Platform, DataType, Value, RowId, PosList, type_cast?, variant_is_null, resolve_data_type, int,
  long, float, double, string,
}

module _ (P : Platform) where
  as_value-reference :
      (d : DataType) (r : ReferenceSegment) → as_value {P = P} d (reference_segment r) ≡ none
  as_value-reference int r = refl
  as_value-reference long r = refl
  as_value-reference float r = refl
  as_value-reference double r = refl
  as_value-reference string r = refl

  as_dictionary-reference :
      (d : DataType) (r : ReferenceSegment) → as_dictionary {P = P} d (reference_segment r) ≡ none
  as_dictionary-reference int r = refl
  as_dictionary-reference long r = refl
  as_dictionary-reference float r = refl
  as_dictionary-reference double r = refl
  as_dictionary-reference string r = refl

module _ {P : Platform} (build : Build) (store : Store P) (scan : Scan P) (d : DataType)
    (search : Value P d) (castable : type_cast? P d scan.search_value ≡ some search) where
  scan_segment-keep_passing :
      (a chunk_id : ℕ) (t : Table P) (r : ReferenceSegment) (cells : List (Option (Value P d)))
      → subscript store r.referenced_table ≡ ok t
      → length r.pos_list < 2 ^ 32
      → RowsAt build store scan d search t r.pos_list cells
      → scan_segment build store scan d a (reference_segment r) chunk_id
        ≡ ok (r.referenced_table, keep_passing build store scan d search r.pos_list cells)
  unfolding scan_segment
  scan_segment-keep_passing a chunk_id t r cells there small rows = rw (
    as_value-reference P d r,
    scan_segment,
    as_dictionary-reference P d r,
    tablescan_reference_segment-keep_passing build store scan d search t r cells castable there
        small rows,
    ◌>>=◌,
  )

  -- a chunk of reference segments, with what is found in it
  scan_chunks-found :
      (a chunk_id n input : ℕ) (c : Chunk P) (s : Segment P) (cs : List (Chunk P)) (ps : PosList)
      (rest : List ReferenceSegment)
      → Chunk.size c ≡ ok n
      → 0 < n
      → Chunk.get_segment c scan.column_id ≡ ok s
      → scan_segment build store scan d a s chunk_id ≡ ok (input, ps)
      → scan_chunks build store scan d a (suc chunk_id) cs ≡ ok rest
      → scan_chunks build store scan d a chunk_id (c ∷ cs)
        ≡ ok (keep_found build store scan d input ps rest)
  unfolding scan_chunks
  scan_chunks-found a chunk_id n input c s cs ps rest size filled there found others =
      let some_rows : (n == 0) ≡ false = ground (arith, filled) in
      rw (size, ◌>>=◌, some_rows, scan_chunks, there, found, others)

  pub on_execute-found :
      (a : ℕ) (t : Table P) (cs : List (Chunk P)) (type : Text) (found : List ReferenceSegment)
      → subscript store a ≡ ok (record t { chunks = cs })
      → Table.column_type t scan.column_id ≡ ok type
      → variant_is_null P scan.search_value ≡ false
      → resolve_data_type type ≡ some d
      → length cs < 2 ^ 32
      → scan_chunks build store scan d a 0 cs ≡ ok found
      → on_execute build store scan a ≡ Table.from_references t found
  unfolding on_execute Table.chunk_count Table.column_type
  on_execute-found a t cs type found there typed not_null known small scanned =
      let whole : length cs % 2 ^ 32 ≡ length cs = omega arith in
      rw
        (
          there,
          ◌>>=◌,
          typed,
          not_null,
          known,
          whole,
          take_all (length cs) cs (omega arith),
          scanned,
        )
        (from_references-definitions t cs found)

  module _ (t : Table P) (schema : Schema) (b : Bool) (rows : List (Row P))
      (stored : Stores schema t rows) (few : length t.chunks < 2 ^ 32)
      (known : get_elem? schema scan.column_id ≡ some (d, b)) where
    -- What is found in the chunks of a selection is a selection of its rows.
    pub found_again :
        (a input chunk_id : ℕ) (found : List ReferenceSegment) (selected : List (Row P))
        → subscript store input ≡ ok t
        → All (λ r. r.referenced_table ≡ input) found
        → All IsShort found
        → map (row_at P stored.parts) (positions found) ≡ map some selected
        → (more : List ReferenceSegment) × (scan_chunks build store scan d a chunk_id
              (map (output_chunk (length schema)) found)
            ≡ ok more)
          × All (λ r. r.referenced_table ≡ input) more
          × All IsShort more
          × (length more ≤ length found)
          × (map (row_at P stored.parts) (positions more)
              ≡ map some (filter (takes_row build store scan d search) selected))
    unfolding scan_chunks
    found_again a input chunk_id [] [] there tables short names =
        ([], refl, tt, tt, omega arith, refl)
    found_again a input chunk_id [] (row ∷ selected) there tables short names = cc
    found_again a input chunk_id (r ∷ found) selected there (table, tables) (brief, short) names =
        let look : RowId → Option (Row P) = row_at P stored.parts in
        let takes : Row P → Bool = takes_row build store scan d search in
        let (front, back, whole, here, others) =
          split_names look r.pos_list (positions found) selected names in
        let (cells, ats, kept) =
          keep_passing-names build store scan d search t schema b rows stored few known r.pos_list
            front here in
        let (more, scanned, tables', short', fewer, names') =
          found_again a input (suc chunk_id) found back there tables short others in
        let below = get_elem?-below schema scan.column_id (d, b) known in
        let column : ReferenceSegment = record r { referenced_column_id = 0 + scan.column_id } in
        let ps : PosList = keep_passing build store scan d search r.pos_list cells in
        let (brief', few') =
          keep_found-IsShort build store scan d input ps more
            (omega (arith, length-keep_passing build store scan d search r.pos_list cells, brief.1))
            short' in
        (
          keep_found build store scan d input ps more,
          scan_chunks-found a chunk_id (length r.pos_list) input (output_chunk (length schema) r)
              (reference_segment column) (map (output_chunk (length schema)) found) ps more
              (output_chunk-size P (length schema) r (omega (arith, below)) brief) brief.0
              (get_segment-there (output_chunk (length schema) r) scan.column_id
                (reference_segment column)
                (reference_columns-there r (length schema) 0 scan.column_id below))
              (scan_segment-keep_passing a chunk_id t column cells
                  (ap (subscript store) table ∙ there) brief.1 ats
                ∙ ap (λ i. ok (i, ps)) table)
              scanned,
          keep_found-table build store scan d input ps more tables',
          brief',
          omega (arith, few', fewer),
          ap (map look) (positions-keep_found build store scan d input ps more)
              ∙ map-append look ps (positions more)
              ∙ ap (λ xs. xs ++ map look (positions more)) kept
              ∙ ap (λ xs. map some (filter takes front) ++ xs) names'
              ∙ sym (map-append some (filter takes front) (filter takes back))
              ∙ ap (map some) (sym (filter-append takes front back))
              ∙ ap (λ xs. map some (filter takes xs)) (sym whole),
        )
