-- ===== src/TableScan/Execute.antt =====
-- `TableScan::_on_execute` and `_tablescan_reference_segment`.
pub mod Chunks
pub mod Compressed
pub mod References
pub mod Passing
pub mod Kept
pub mod Contents
pub mod Output
pub mod Independence
pub mod Again
pub mod OutputChunks
pub mod Selections
pub mod Queries
pub mod Conditions
use dyod_so_se.AttributeVector
use dyod_so_se.Chunk
use dyod_so_se.Chunk.{Chunk}
use dyod_so_se.DictionarySegment
use dyod_so_se.DictionarySegment.{DictionarySegment}
use dyod_so_se.Operator.{Operator, left_input_table}
use dyod_so_se.Outcome.{
  Outcome, ok, throw, undefined, ◌>>=◌, ◌>>◌, Build, subscript, unsupported_segment, no_input,
  unsupported_target,
}
use dyod_so_se.Prelude.{
  ℕ, zero, suc, ◌^◌, ◌%◌, Bool, true, false, not, List, [], ◌∷◌, ◌++◌, Option, none, some,
  if◌then◌else◌, length, take, ◌==◌,
}
use dyod_so_se.Reference.{Store}
use dyod_so_se.Segment
use dyod_so_se.Segment.{Segment, ReferenceSegment, as_value, as_dictionary, as_reference}
use dyod_so_se.Table
use dyod_so_se.Table.{Table}
use dyod_so_se.TableScan.{create_scan_operation, tablescan_value_segment, tablescan_dict_segment}
use dyod_so_se.Types.{
  Platform, DataType, Variant, Value, scalar, to_variant, variant_is_null, type_cast,
  resolve_data_type, RowId, PosList, ScanType,
}
use dyod_so_se.ValueSegment
use dyod_so_se.ValueSegment.{ValueSegment}

-- the members of a `TableScan`
pub record Scan (P : Platform) : Type 0 where
  pub column_id : ℕ
  pub scan_type : ScanType
  pub search_value : Variant P

module _ {P : Platform} (build : Build) (store : Store P) (scan : Scan P) where
  module _ (d : DataType) where
    -- whether the scan takes a row of a value segment; a null row is skipped
    unfoldable pub value_row_passes : Value P d → ValueSegment (Value P d) → ℕ → Outcome Bool
    unfolding ValueSegment.is_null type_cast create_scan_operation
    value_row_passes search s i = do
      b ← ValueSegment.is_null build s i
      if b then ok false else do
        v ← subscript s.values i
        x ← type_cast P d (to_variant P d v)
        ok (create_scan_operation (scalar P d) scan.scan_type x search)

    unfoldable pub dictionary_row_passes :
        Value P d → DictionarySegment (Value P d) → ℕ → Outcome Bool
    unfolding DictionarySegment.value_of_value_id type_cast create_scan_operation
    dictionary_row_passes search s i = do
      id ← AttributeVector.get build s.attribute_vector i
      if id == DictionarySegment.null_value_id s then ok false else do
        v ← DictionarySegment.value_of_value_id build s id
        x ← type_cast P d (to_variant P d v)
        ok (create_scan_operation (scalar P d) scan.scan_type x search)

    -- the body of the loop, for one row of the position list
    unfoldable pub row_passes : Value P d → Table P → RowId → Outcome Bool
    unfolding value_row_passes dictionary_row_passes Table.get_chunk Chunk.get_segment
    row_passes search t r = do
      c ← Table.get_chunk t r.chunk_id
      target ← Chunk.get_segment c scan.column_id
      elim (as_value d target) [
        | some s ↦ value_row_passes search s r.chunk_offset
        | none ↦ elim (as_dictionary d target) [
          | some s ↦ dictionary_row_passes search s r.chunk_offset
          | none ↦ throw unsupported_target
        ]
      ]

    unfoldable pub scan_rows : Value P d → Table P → PosList → Outcome PosList
    unfolding row_passes
    scan_rows search t [] = ok []
    scan_rows search t (r ∷ rs) = do
      b ← row_passes search t r
      rest ← scan_rows search t rs
      ok (if b then r ∷ rest else rest)

    -- the table is read in the body of the loop alone
    unfoldable pub scan_positions : Value P d → ℕ → PosList → Outcome PosList
    unfolding scan_rows
    scan_positions search address [] = ok []
    scan_positions search address (r ∷ rs) =
        subscript store address >>= (λ t. scan_rows search t (r ∷ rs))

    -- the loop counts to `size`, which has 32 bits
    unfoldable pub tablescan_reference_segment : ReferenceSegment → Outcome PosList
    unfolding scan_positions type_cast
    tablescan_reference_segment r = do
      search ← type_cast P d scan.search_value
      scan_positions search r.referenced_table (take (length r.pos_list % 2 ^ 32) r.pos_list)

    -- the positions of one segment, and the table that they point into
    unfoldable pub scan_segment : ℕ → Segment P → ℕ → Outcome (ℕ × PosList)
    unfolding tablescan_reference_segment tablescan_value_segment tablescan_dict_segment
    scan_segment input segment chunk_id = elim (as_value d segment) [
      | some s ↦ do
        rows ← tablescan_value_segment P d build scan.scan_type scan.search_value s chunk_id
        ok (input, rows)
      | none ↦ elim (as_dictionary d segment) [
        | some s ↦ do
          rows ← tablescan_dict_segment P d build scan.scan_type scan.search_value s chunk_id
          ok (input, rows)
        | none ↦ elim (as_reference segment) [
          | some r ↦ do rows ← tablescan_reference_segment r; ok (r.referenced_table, rows)
          | none ↦ throw unsupported_segment
        ]
      ]
    ]

    -- only a position list with an entry becomes a reference segment
    unfoldable pub keep_found : ℕ → PosList → List ReferenceSegment → List ReferenceSegment
    keep_found address [] rest = rest
    keep_found address (r ∷ rs) rest =
        record {
          referenced_table = address;
          referenced_column_id = scan.column_id;
          pos_list = r ∷ rs;
        }
        ∷ rest

    -- the loop over the chunks; an empty chunk and an empty result are left out
    unfoldable pub scan_chunks : ℕ → ℕ → List (Chunk P) → Outcome (List ReferenceSegment)
    unfolding scan_segment keep_found Chunk.size Chunk.get_segment
    scan_chunks input chunk_id [] = ok []
    scan_chunks input chunk_id (c ∷ cs) = do
      n ← Chunk.size c
      elim (n == 0) [
        | true ↦ scan_chunks input (suc chunk_id) cs
        | false ↦ do
          segment ← Chunk.get_segment c scan.column_id
          found ← scan_segment input segment chunk_id
          rest ← scan_chunks input (suc chunk_id) cs
          ok (keep_found found.0 found.1 rest)
      ]

  -- `_on_execute`, on the table at address `input`; the loop counts to `chunk_count`
  unfoldable pub on_execute : ℕ → Outcome (Table P)
  unfolding scan_chunks Table.column_type Table.from_references Table.chunk_count
  on_execute input = do
    t ← subscript store input
    type ← Table.column_type t scan.column_id
    if variant_is_null P scan.search_value
        then Table.from_references t []
        else elim (resolve_data_type type) [
          | none ↦ Table.from_references t []
          | some d ↦
              scan_chunks d input 0 (take (Table.chunk_count t) t.chunks)
              >>= Table.from_references t
        ]

  -- `_on_execute` from its start: the output of the left input, which must not be null
  unfoldable pub scan_on_execute : Option Operator → Outcome (Table P)
  unfolding on_execute left_input_table
  scan_on_execute left_input = do
    input ← left_input_table left_input
    elim input [ none ↦ throw no_input | some address ↦ on_execute address ]
