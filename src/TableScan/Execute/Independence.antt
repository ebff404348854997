-- ===== src/TableScan/Execute/Independence.antt =====
-- A scan does not see how its input is split into chunks, nor which of them are compressed.
use dyod_so_se.Outcome.{ok, Build, subscript}
use dyod_so_se.Prelude.{ℕ, ◌^◌, ◌<◌, ◌≡◌, sym, ◌∙◌, Bool, false, List, some, map, length, get_elem?}
use dyod_so_se.Reference.{Store}
use dyod_so_se.Scalar.{IsLawful}
use dyod_so_se.Segment.{ReferenceSegment}
use dyod_so_se.Table
use dyod_so_se.Table.Contents.{Row, Schema, row_at, Stores}
use dyod_so_se.Table.{Table}
use dyod_so_se.TableScan.Execute.Contents.{on_execute-filter}
use dyod_so_se.TableScan.Execute.Kept.{positions}
use dyod_so_se.TableScan.Execute.{Scan, on_execute}
use dyod_so_se.Types.{Platform, DataType, Value, scalar, type_cast?, variant_is_null}

module _ {P : Platform} (build : Build) (store : Store P) (scan : Scan P) (d : DataType)
    (laws : IsLawful (scalar P d)) (search : Value P d)
    (castable : type_cast? P d scan.search_value ≡ some search) where
  -- Two tables of fewer than 2 ^ 32 chunks that store the same rows, however they are split into
  -- chunks and whichever of these are compressed, give the same rows to a scan: for a search value
  -- that is not null and casts to the type of the scanned column, which has a lawful order, both
  -- scans make their tables from reference segments, and their positions name the same rows in the
  -- same order.
  pub on_execute-SameRows :
      (schema : Schema) (b : Bool) (rows : List (Row P)) (t t' : Table P) (input input' : ℕ)
      (stored : Stores schema t rows) (stored' : Stores schema t' rows)
      → subscript store input ≡ ok t
      → subscript store input' ≡ ok t'
      → get_elem? schema scan.column_id ≡ some (d, b)
      → variant_is_null P scan.search_value ≡ false
      → length t.chunks < 2 ^ 32
      → length t'.chunks < 2 ^ 32
      → (found : List ReferenceSegment) × (found' : List ReferenceSegment) × (on_execute build store
            scan input
          ≡ Table.from_references t found)
        × (on_execute build store scan input' ≡ Table.from_references t' found')
        × (map (row_at P stored.parts) (positions found)
            ≡ map (row_at P stored'.parts) (positions found'))
  on_execute-SameRows schema b rows t t' input input' stored stored' there there' scanned not_null
        few few' =
      let (found, run, tables, names, short, fewer) =
        on_execute-filter build store scan d laws search castable t input schema b rows stored there
          scanned not_null few in
      let (found', run', tables', names', short', fewer') =
        on_execute-filter build store scan d laws search castable t' input' schema b rows stored'
          there' scanned not_null few' in
      (found, found', run, run', names ∙ sym names')
