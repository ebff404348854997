-- ===== src/TableScan/Positions.antt =====
-- Which positions the scan of one segment returns.
use dyod_so_se.Algorithm.Order.{In}
use dyod_so_se.DictionarySegment.Invariant.{decoded, IsDictionary}
use dyod_so_se.DictionarySegment.{DictionarySegment}
use dyod_so_se.Outcome.{Outcome, ok, Build}
use dyod_so_se.Prelude.{ℕ, ◌<◌, ◌^◌, ◌≡◌, ◌↔◌, List, Bool, Option, some, length}
use dyod_so_se.Scalar.{IsLawful}
use dyod_so_se.TableScan.Segments.{tablescan_value_segment-select, tablescan_dict_segment-select}
use dyod_so_se.TableScan.Selection.{select, Selected, select_iff}
use dyod_so_se.TableScan.{create_scan_operation, tablescan_value_segment, tablescan_dict_segment}
use dyod_so_se.Types.{
  Platform, DataType, Variant, Value, scalar, type_cast?, RowId, PosList, ScanType,
}
use dyod_so_se.ValueSegment.Invariant.{cells, IsValid}
use dyod_so_se.ValueSegment.{ValueSegment}

-- The scan succeeds, and a position is in its result exactly if it names a row of the chunk that is
-- not null and whose value passes.
abbrev pub Finds : {T : Type 0} → (T → Bool) → ℕ → List (Option T) → Outcome PosList → Type 0
Finds passes chunk_id rows result =
    (found : PosList) × (result ≡ ok found)
    × ((r : RowId) → In r found ↔ Selected passes chunk_id 0 rows r)

module _ (P : Platform) (d : DataType) (laws : IsLawful (scalar P d)) (build : Build)
    (op : ScanType) (search_value : Variant P) (search : Value P d)
    (castable : type_cast? P d search_value ≡ some search) (chunk_id : ℕ) where
  abbrev passes : Value P d → Bool
  passes v = create_scan_operation (scalar P d) op v search

  -- For a column type with a lawful order and a search value that casts to it, the scan of a valid
  -- value segment of fewer than 2 ^ 32 values succeeds, and a position is in its result exactly if
  -- it names a row that is not null and whose value passes.
  pub tablescan_value_segment-Finds :
      (s : ValueSegment (Value P d))
      → IsValid (scalar P d) s
      → length s.values < 2 ^ 32
      → Finds
          (λ v. create_scan_operation (scalar P d) op v search)
          chunk_id
          (cells s)
          (tablescan_value_segment P d build op search_value s chunk_id)
  tablescan_value_segment-Finds s valid small = (
    select passes chunk_id 0 (cells s),
    tablescan_value_segment-select P d laws build op search_value search castable chunk_id s valid
        small,
    select_iff passes chunk_id (cells s),
  )

  -- For a column type with a lawful order and a search value that casts to it, the scan of a well-
  -- formed dictionary segment succeeds, and a position is in its result exactly if it names a row
  -- that is not null and whose value passes.
  pub tablescan_dict_segment-Finds :
      (ds : DictionarySegment (Value P d))
      → IsDictionary (scalar P d) ds
      → Finds
          (λ v. create_scan_operation (scalar P d) op v search)
          chunk_id
          (decoded ds)
          (tablescan_dict_segment P d build op search_value ds chunk_id)
  tablescan_dict_segment-Finds ds w = (
    select passes chunk_id 0 (decoded ds),
    tablescan_dict_segment-select P d laws build op search_value search castable chunk_id ds w,
    select_iff passes chunk_id (decoded ds),
  )
