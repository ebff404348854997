-- ===== src/TableScan.antt =====
-- `operators/table_scan.cpp`: the comparison that a scan type stands for, and the scan of one
-- segment of each kind. `TableScan/Execute.antt` has the loop over the chunks.
pub mod Ids
pub mod Selection
pub mod Segments
pub mod Positions
pub mod Execute
use dyod_so_se.AttributeVector
use dyod_so_se.DictionarySegment.{
  DictionarySegment, size, null_value_id, lower_bound_id, upper_bound_id,
}
use dyod_so_se.Outcome.{Outcome, ok, ◌>>=◌, Build}
use dyod_so_se.Prelude.{
  ℕ, zero, suc, ◌+◌, ◌^◌, ◌%◌, Bool, true, false, not, ◌&&◌, List, [], ◌∷◌, Option, none, some,
  if◌then◌else◌, ltb, leb, ◌==◌,
}
use dyod_so_se.Scalar.{Scalar, value_id_scalar}
use dyod_so_se.Types.{
  Platform, DataType, Variant, Value, scalar, type_cast, RowId, PosList, ScanType, op_equals,
  op_not_equals, op_less_than, op_less_than_equals, op_greater_than, op_greater_than_equals,
}
use dyod_so_se.ValueSegment.{ValueSegment, is_null}

-- `_create_scan_operation<T>`
unfoldable pub create_scan_operation : {T : Type 0} → Scalar T → ScanType → T → T → Bool
create_scan_operation o op_equals l r = o.equal l r
create_scan_operation o op_not_equals l r = not (o.equal l r)
create_scan_operation o op_less_than l r = o.less l r
create_scan_operation o op_less_than_equals l r = o.less_equal l r
create_scan_operation o op_greater_than l r = o.less r l
create_scan_operation o op_greater_than_equals l r = o.less_equal r l

-- the loop over the values; `index` is a `ChunkOffset`
unfoldable pub scan_values :
    {T : Type 0} → Build → ValueSegment T → (T → Bool) → ℕ → ℕ → List T → Outcome PosList
unfolding is_null
scan_values build s passes chunk_id index [] = ok []
scan_values build s passes chunk_id index (v ∷ vs) = do
  b ← is_null build s index
  rest ← scan_values build s passes chunk_id ((index + 1) % 2 ^ 32) vs
  ok (
      if not b && passes v
      then record { chunk_id = chunk_id; chunk_offset = index } ∷ rest
      else rest)

-- the `switch` of the dictionary scan: `none` where it returns at once
unfoldable pub id_operation : ScanType → ℕ → ℕ → Option (ℕ → Bool)
unfolding create_scan_operation
id_operation op_equals lower upper =
    if lower == upper
    then none
    else some (λ id. create_scan_operation value_id_scalar op_equals id lower)
id_operation op_not_equals lower upper =
    if lower == upper
    then some (λ id. true)
    else some (λ id. create_scan_operation value_id_scalar op_not_equals id lower)
id_operation op_less_than lower upper =
    some (λ id. create_scan_operation value_id_scalar op_less_than id lower)
id_operation op_less_than_equals lower upper = some (λ id. ltb id upper)
id_operation op_greater_than lower upper = some (λ id. leb upper id)
id_operation op_greater_than_equals lower upper =
    some (λ id. create_scan_operation value_id_scalar op_greater_than_equals id lower)

-- the loop over the attribute vector, `n` rounds from `index` on
unfoldable pub scan_ids :
    {T : Type 0} → Build → DictionarySegment T → (ℕ → Bool) → ℕ → ℕ → ℕ → Outcome PosList
scan_ids build ds passes chunk_id zero index = ok []
scan_ids build ds passes chunk_id (suc n) index = do
  id ← AttributeVector.get build ds.attribute_vector index
  rest ← scan_ids build ds passes chunk_id n (suc index)
  ok (
      if not (id == null_value_id ds) && passes id
      then record { chunk_id = chunk_id; chunk_offset = index } ∷ rest
      else rest)

-- the scan with the operation that the `switch` leaves
unfoldable pub scan_taking :
    {T : Type 0} → Build → DictionarySegment T → ℕ → Option (ℕ → Bool) → Outcome PosList
unfolding size scan_ids
scan_taking build ds chunk_id none = ok []
scan_taking build ds chunk_id (some passes) = scan_ids build ds passes chunk_id (size ds) 0

-- the dictionary scan, for a search value of the segment's type
unfoldable pub scan_dictionary :
    {T : Type 0} → Scalar T → Build → ScanType → T → DictionarySegment T → ℕ → Outcome PosList
unfolding scan_taking
scan_dictionary o build op search ds chunk_id =
    scan_taking build ds chunk_id
      (id_operation op (lower_bound_id o ds search) (upper_bound_id o ds search))

module _ (P : Platform) (d : DataType) (build : Build) (op : ScanType)
    (search_value : Variant P) where
  unfoldable pub tablescan_value_segment : ValueSegment (Value P d) → ℕ → Outcome PosList
  unfolding create_scan_operation scan_values type_cast
  tablescan_value_segment s chunk_id = do
    search ← type_cast P d search_value
    scan_values build s (λ v. create_scan_operation (scalar P d) op v search) chunk_id 0 s.values

  unfoldable pub tablescan_dict_segment : DictionarySegment (Value P d) → ℕ → Outcome PosList
  unfolding scan_dictionary type_cast
  tablescan_dict_segment ds chunk_id = do
    search ← type_cast P d search_value
    scan_dictionary (scalar P d) build op search ds chunk_id
