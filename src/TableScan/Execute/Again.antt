-- ===== src/TableScan/Execute/Again.antt =====
-- The scan of a reference segment whose positions name rows that a table stores.
use dyod_so_se.DictionarySegment.Reads.{get_elem?-map}
use dyod_so_se.Outcome.{Build}
use dyod_so_se.Prelude.{
  ◌^◌, ◌<◌, ◌≤◌, ◌≡◌, refl, sym, ap, ◌∙◌, Bool, true, false, List, [], ◌∷◌, ◌++◌, Option, none,
  some, map, length, get_elem?, arith, if◌then◌else◌,
}
use dyod_so_se.Reference.{Store}
use dyod_so_se.Table.Contents.Cells.{get_segment-there}
use dyod_so_se.Table.Contents.Columns.{column_at}
use dyod_so_se.Table.Contents.Reads.{chunk_at, get_chunk-there, named_part, map-get_elem?}
use dyod_so_se.Table.Contents.{Row, Schema, row_at, Stores}
use dyod_so_se.Table.{Table}
use dyod_so_se.TableScan.Execute.Passing.{
  filter, row_passes, value_passes, held_passes, held-null, held-to_variant,
}
use dyod_so_se.TableScan.Execute.References.{RowAt, RowsAt, cell_passes, keep_passing}
use dyod_so_se.TableScan.Execute.{Scan}
use dyod_so_se.TableScan.{create_scan_operation}
use dyod_so_se.Types.{Platform, DataType, Value, scalar, RowId, PosList}
use dyod_so_se.ValueSegment.Reads.{as_variant}

-- positions that name rows, in two parts
pub split_names :
    {A B : Type 0} (look : A → Option B) (ps qs : List A) (rows : List B)
    → map look (ps ++ qs) ≡ map some rows
    → (front : List B) × (back : List B) × (rows ≡ front ++ back)
      × (map look ps ≡ map some front)
      × (map look qs ≡ map some back)
split_names look [] qs rows e = ([], rows, refl, refl, e)
split_names look (p ∷ ps) qs [] e = cc
split_names look (p ∷ ps) qs (row ∷ rows) e =
    let (front, back, whole, names, others) = split_names look ps qs rows (cc) in
    (row ∷ front, back, ap (◌∷◌ row) whole, cc, others)

map-kept :
    {A B : Type 0} (look : A → Option B) (p : A) (row : B) (ps : List A) (rows : List B)
    (takes keeps : Bool)
    → takes ≡ keeps
    → look p ≡ some row
    → map look ps ≡ map some rows
    → map look (if keeps then p ∷ ps else ps) ≡ map some (if takes then row ∷ rows else rows)
map-kept look p row ps rows true true same here names = cc
map-kept look p row ps rows false false same here names = names
map-kept look p row ps rows true false same here names = cc
map-kept look p row ps rows false true same here names = cc

module _ {P : Platform} (build : Build) (store : Store P) (scan : Scan P) (d : DataType)
    (search : Value P d) where
  abbrev pub takes_row : Row P → Bool
  takes_row =
      row_passes P d scan.column_id
        (λ v. create_scan_operation (scalar P d) scan.scan_type v search)

  cell_passes-row :
      (row : Row P) (c : Option (Value P d))
      → get_elem? row scan.column_id ≡ some (as_variant P d c)
      → takes_row row ≡ cell_passes build store scan d search c
  cell_passes-row row none e =
      let passes : Value P d → Bool =
        λ v. create_scan_operation (scalar P d) scan.scan_type v search in
      ap (value_passes P d scan.column_id passes) e
      ∙ ap (held_passes P d scan.column_id passes) (held-null P d)
  cell_passes-row row (some x) e =
      let passes : Value P d → Bool =
        λ v. create_scan_operation (scalar P d) scan.scan_type v search in
      ap (value_passes P d scan.column_id passes) e
      ∙ ap (held_passes P d scan.column_id passes) (held-to_variant P d x)

  pub length-keep_passing :
      (ps : PosList) (cs : List (Option (Value P d)))
      → length (keep_passing build store scan d search ps cs) ≤ length ps
  unfolding keep_passing
  length-keep_passing [] cs = omega arith
  length-keep_passing (p ∷ ps) [] = omega arith
  length-keep_passing (p ∷ ps) (c ∷ cs) = ground (arith, length-keep_passing ps cs)

  module _ (t : Table P) (schema : Schema) (b : Bool) (rows : List (Row P))
      (stored : Stores schema t rows) (few : length t.chunks < 2 ^ 32)
      (scanned : get_elem? schema scan.column_id ≡ some (d, b)) where
    -- the cell that the scan reads at a position
    cell_at :
        (p : RowId) (row : Row P)
        → row_at P stored.parts p ≡ some row
        → (c : Option (Value P d)) × RowAt build store scan d search t p c
          × (get_elem? row scan.column_id ≡ some (as_variant P d c))
    cell_at p row named =
        let (part, part_there, row_there) =
          named_part build store t schema rows stored few p row named in
        let (chunk, k, chunk_there, holds, fits) =
          chunk_at schema t.target_chunk_size t.chunks stored.parts p.chunk_id part stored.chunks
            part_there in
        let (segment, cells, segment_there, has_rows, same) =
          column_at scan.column_id d b holds scanned (omega (arith, fits, stored.bounded)) in
        let (c, cell_there, one) =
          get_elem?-map (λ c. some (as_variant P d c)) cells p.chunk_offset
            (get_elem? row scan.column_id)
            (ap (λ xs. get_elem? xs p.chunk_offset) (sym same)
              ∙ map-get_elem? (λ r. get_elem? r scan.column_id) part p.chunk_offset row
                  row_there) in
        (
          c,
          record {
            chunk = chunk;
            segment = segment;
            rows = cells;
            chunk_there =
                get_chunk-there build store t schema rows stored few p.chunk_id chunk chunk_there;
            segment_there = get_segment-there chunk scan.column_id segment segment_there;
            stored = has_rows;
            row_there = cell_there;
          },
          sym one,
        )

    -- The positions that are kept name the rows that pass.
    pub keep_passing-names :
        (ps : PosList) (named : List (Row P))
        → map (row_at P stored.parts) ps ≡ map some named
        → (cs : List (Option (Value P d))) × RowsAt build store scan d search t ps cs
          × (map (row_at P stored.parts) (keep_passing build store scan d search ps cs)
              ≡ map some (filter takes_row named))
    unfolding keep_passing
    keep_passing-names [] [] e = ([], tt, refl)
    keep_passing-names [] (row ∷ named) e = cc
    keep_passing-names (p ∷ ps) [] e = cc
    keep_passing-names (p ∷ ps) (row ∷ named) e =
        let here : row_at P stored.parts p ≡ some row = cc in
        let (c, at, value) = cell_at p row here in
        let (cs, ats, names) = keep_passing-names ps named (cc) in
        let same = cell_passes-row row c value in
        (
          c ∷ cs,
          (at, ats),
          map-kept (row_at P stored.parts) p row (keep_passing build store scan d search ps cs)
              (filter takes_row named) (takes_row row) (cell_passes build store scan d search c)
              (cell_passes-row row c value) here names,
        )
