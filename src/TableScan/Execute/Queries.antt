-- ===== src/TableScan/Execute/Queries.antt =====
-- Scans of a stored table and of the tables that scans made from it: a query with one condition
-- after another.
use dyod_so_se.Chunk.{Chunk}
use dyod_so_se.Outcome.{◌>>=◌, ok, Build, subscript}
use dyod_so_se.Prelude.{
  ℕ, ◌^◌, ◌<◌, ◌≡◌, refl, ap, ◌∙◌, Bool, true, false, ◌&&◌, List, [], ◌∷◌, some, map, length,
  length-map, ◌≤◌, get_elem?, All, arith,
}
use dyod_so_se.Reference.{Store}
use dyod_so_se.Scalar.{IsLawful}
use dyod_so_se.Segment.{ReferenceSegment}
use dyod_so_se.Table
use dyod_so_se.Table.Contents.{Row, Schema, row_at, Stores}
use dyod_so_se.Table.{Table}
use dyod_so_se.TableScan.Execute.Again.{takes_row}
use dyod_so_se.TableScan.Execute.Contents.{type_of_column, on_execute-filter}
use dyod_so_se.TableScan.Execute.Kept.{positions, IsShort}
use dyod_so_se.TableScan.Execute.Output.{ReadsRows, reads_rows}
use dyod_so_se.TableScan.Execute.OutputChunks.{
  output_chunk, OutputChunks, OutputChunks-there, from_references-OutputChunks,
}
use dyod_so_se.TableScan.Execute.Passing.{filter}
use dyod_so_se.TableScan.Execute.Selections.{found_again, on_execute-found}
use dyod_so_se.TableScan.Execute.{Scan, scan_chunks, on_execute}
use dyod_so_se.Types.{Platform, DataType, Value, scalar, type_cast?, variant_is_null}

-- A scan of a column of the schema: its search value is not null and casts to the type of the
-- column, which has a lawful order.
pub record Query (P : Platform) (schema : Schema) : Type 0 where
  pub scan : Scan P
  pub data_type : DataType
  pub nullable : Bool
  pub search : Value P data_type
  pub column : get_elem? schema scan.column_id ≡ some (data_type, nullable)
  pub laws : IsLawful (scalar P data_type)
  pub castable : type_cast? P data_type scan.search_value ≡ some search
  pub not_null : variant_is_null P scan.search_value ≡ false

module _ {P : Platform} (build : Build) (store : Store P) (schema : Schema) where
  -- whether the scan takes a row
  abbrev pub takes : Query P schema → Row P → Bool
  takes q = takes_row build store q.scan q.data_type q.search

  -- all conditions together
  abbrev pub takes_all : List (Query P schema) → Row P → Bool
  takes_all [] row = true
  takes_all (q ∷ qs) row = takes q row && takes_all qs row

  module _ (t : Table P) (input : ℕ) (rows : List (Row P)) (stored : Stores schema t rows)
      (there : subscript store input ≡ ok t) (few : length t.chunks < 2 ^ 32) where
    -- A table of reference segments into the stored table, whose positions name these rows in
    -- order.
    pub record Selection (t' : Table P) (selected : List (Row P)) : Type 0 where
      pub found : List ReferenceSegment
      pub made : Table.from_references t found ≡ ok t'
      pub tables : All (λ r. r.referenced_table ≡ input) found
      pub short : All IsShort found
      pub few_found : length found < 2 ^ 32
      pub names : map (row_at P stored.parts) (positions found) ≡ map some selected

    pub on_execute-stored :
        (q : Query P schema)
        → (t' : Table P) × (on_execute build store q.scan input ≡ ok t')
          × Selection t' (filter (takes q) rows)
    on_execute-stored q =
        let (found, run, tables, names, short, fewer) =
          on_execute-filter build store q.scan q.data_type q.laws q.search q.castable t input schema
            q.nullable rows stored there q.column q.not_null few in
        let (cs, made, chunks) = from_references-OutputChunks t schema rows found stored in
        (
          record t { chunks = cs },
          run ∙ made,
          record {
            found = found;
            made = made;
            tables = tables;
            short = short;
            few_found = omega (arith, fewer, few);
            names = names;
          },
        )

    -- what the scan finds in the chunks of a selection
    abbrev Rescanned :
        (q : Query P schema) (a : ℕ) (found : List ReferenceSegment) (cs : List (Chunk P))
        (selected : List (Row P))
        → Type 0
    Rescanned q a found cs selected =
        (length cs < 2 ^ 32)
        × (more : List ReferenceSegment) × (scan_chunks build store q.scan q.data_type a 0 cs
            ≡ ok more)
        × All (λ r. r.referenced_table ≡ input) more
        × All IsShort more
        × (length more ≤ length found)
        × (map (row_at P stored.parts) (positions more) ≡ map some (filter (takes q) selected))

    rescan :
        (q : Query P schema) (a : ℕ) (found : List ReferenceSegment) (cs : List (Chunk P))
        (selected : List (Row P))
        → OutputChunks (length schema) found cs
        → length found < 2 ^ 32
        → All (λ r. r.referenced_table ≡ input) found
        → All IsShort found
        → map (row_at P stored.parts) (positions found) ≡ map some selected
        → Rescanned q a found cs selected
    unfolding scan_chunks
    rescan q a [] cs [] (c, one, size, columns) small tables short names = (
      rw one (omega arith),
      [],
      rw (one, scan_chunks, size, ◌>>=◌) refl,
      tt,
      tt,
      omega arith,
      refl,
    )
    rescan q a [] cs (row ∷ selected) out small tables short names = cc
    rescan q a (r ∷ found) cs selected out small tables short names =
        let (more, scanned, tables', short', fewer, names') =
          found_again build store q.scan q.data_type q.search q.castable t schema q.nullable rows
            stored few q.column a input 0 (r ∷ found) selected there tables short names in
        rw out (
          omega (arith, length-map found (output_chunk {P = P} (length schema)), small),
          more,
          scanned,
          tables',
          short',
          fewer,
          names',
        )

    -- A scan of a selection is a selection. Where a table of fewer than 2 ^ 32 chunks stores rows,
    -- a selection of them is a table that the constructor makes from fewer than 2 ^ 32 reference
    -- segments into it, none of which is empty or has 2 ^ 32 positions. A scan of a selection, with
    -- a search value that is not null and casts to the type of the scanned column, which has a
    -- lawful order, succeeds; its output is a selection too, whose positions name, in order,
    -- exactly those of the selected rows whose value in the column is not null and passes.
    pub on_execute-Selection :
        (q : Query P schema) (t' : Table P) (selected : List (Row P)) (a : ℕ)
        → Selection t' selected
        → subscript store a ≡ ok t'
        → (t'' : Table P) × (on_execute build store q.scan a ≡ ok t'')
          × Selection t'' (filter (takes q) selected)
    on_execute-Selection q t' selected a s at =
        let (cs, made, chunks) = from_references-OutputChunks t schema rows s.found stored in
        let same : t' ≡ record t { chunks = cs } = cc in
        let (small, more, scanned, tables, short, fewer, names) =
          rescan q a s.found cs selected chunks s.few_found s.tables s.short s.names in
        let (type, typed, known) =
          type_of_column build store q.scan q.data_type q.laws q.search q.castable t schema
            q.nullable rows stored q.column in
        let (cs', made', chunks') = from_references-OutputChunks t schema rows more stored in
        (
          record t { chunks = cs' },
          on_execute-found build store q.scan q.data_type q.search q.castable a t cs type more
                (at ∙ ap ok same) typed q.not_null known small scanned
              ∙ made',
          record {
            found = more;
            made = made';
            tables = tables;
            short = short;
            few_found = omega (arith, fewer, s.few_found);
            names = names;
          },
        )

    -- A selection reads as the selected rows, where a value is not null.
    pub Selection-ReadsRows :
        (t' : Table P) (selected : List (Row P)) (s : Selection t' selected)
        → ReadsRows build store t input schema rows stored there few t' s.found
    Selection-ReadsRows t' selected s =
        let (cs, run, chunks) = from_references-OutputChunks t schema rows s.found stored in
        let same : t' ≡ record t { chunks = cs } = cc in
        rw same (
          reads_rows build store t input schema rows stored there few (record t { chunks = cs })
            s.found s.tables (OutputChunks-there (length schema) s.found cs chunks))
