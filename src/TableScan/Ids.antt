-- ===== src/TableScan/Ids.antt =====
-- Comparing ids instead of values: with the bounds of the search value, the operation that the
-- dictionary scan picks answers as the comparison of the values does.
use dyod_so_se.Algorithm.Bounds.{
  lower_bound-le-length, upper_bound-le-length, lt-lower_bound, lt-upper_bound, bounds_apart,
}
use dyod_so_se.DictionarySegment.Bounds.{lt-lower_bound_id, lt-upper_bound_id}
use dyod_so_se.DictionarySegment.Invariant.{IsDictionary}
use dyod_so_se.DictionarySegment.{DictionarySegment, lower_bound_id, upper_bound_id}
use dyod_so_se.Prelude.{
  ℕ, ◌<◌, ◌≤◌, ◌≡◌, refl, sym, ◌∙◌, ◌&&◌, Bool, false, not, Option, none, some, length, arith,
  get_elem?, ltb,
}
use dyod_so_se.Scalar.{Scalar, IsLawful}
use dyod_so_se.TableScan.{create_scan_operation, id_operation}
use dyod_so_se.Types.{
  ScanType, op_equals, op_not_equals, op_less_than, op_less_than_equals, op_greater_than,
  op_greater_than_equals,
}
use dyod_so_se.ValueSegment.Reads.{get_elem?-below}

-- whether the scan takes a row with this id
abbrev pub takes : Option (ℕ → Bool) → ℕ → Bool
takes none id = false
takes (some passes) id = passes id

module _ {T : Type 0} (o : Scalar T) (laws : IsLawful o) where
  -- equality as two tests of order
  equal_by_less : (a b : T) → o.equal a b ≡ (not (o.less a b) && not (o.less b a))
  equal_by_less a b = ground (arith, laws.equal_iff a b, laws.less_total a b, laws.less_irrefl a)

  -- the six answers, from two tests of order
  by_order : ScanType → Bool → Bool → Bool
  by_order op_equals below above = not below && not above
  by_order op_not_equals below above = not (not below && not above)
  by_order op_less_than below above = below
  by_order op_less_than_equals below above = not above
  by_order op_greater_than below above = above
  by_order op_greater_than_equals below above = not below

  operation-by_order :
      (op : ScanType) (x v : T)
      → create_scan_operation o op x v ≡ by_order op (o.less x v) (o.less v x)
  unfolding create_scan_operation by_order
  operation-by_order op_equals x v = equal_by_less x v
  operation-by_order op_not_equals x v = rw (equal_by_less x v)
  operation-by_order op_less_than x v = refl
  operation-by_order op_less_than_equals x v = laws.less_equal-less x v
  operation-by_order op_greater_than x v = refl
  operation-by_order op_greater_than_equals x v = laws.less_equal-less v x

  -- an operation on ids, where no id but the lower bound lies between the bounds
  ids-by_order :
      (op : ScanType) (lower upper id : ℕ) (below above : Bool)
      → lower ≤ upper
      → (id < upper → id ≤ lower)
      → ltb id lower ≡ below
      → ltb id upper ≡ not above
      → takes (id_operation op lower upper) id ≡ by_order op below above
  unfolding id_operation by_order
  ids-by_order op_equals lower upper id below above h k p q = ground arith
  ids-by_order op_not_equals lower upper id below above h k p q = ground arith
  ids-by_order op_less_than lower upper id below above h k p q = ground arith
  ids-by_order op_less_than_equals lower upper id below above h k p q = ground arith
  ids-by_order op_greater_than lower upper id below above h k p q = ground arith
  ids-by_order op_greater_than_equals lower upper id below above h k p q = ground arith

  module _ (ds : DictionarySegment T) (w : IsDictionary o ds) (v : T) where
    abbrev lower : ℕ
    lower = lower_bound_id o ds v

    abbrev upper : ℕ
    upper = upper_bound_id o ds v

    ids_in_order : lower ≤ upper
    unfolding lower_bound_id upper_bound_id
    ids_in_order =
        let apart = bounds_apart o laws ds.dictionary v w.ascending in
        ground (
          arith,
          apart,
          w.small,
          lower_bound-le-length o ds.dictionary v,
          upper_bound-le-length o ds.dictionary v,
        )

    between : (id : ℕ) → id < length ds.dictionary → id < upper → id ≤ lower
    unfolding lower_bound_id upper_bound_id
    between id h lt =
        let apart = bounds_apart o laws ds.dictionary v w.ascending in
        ground (
          arith,
          apart,
          w.small,
          lower_bound-le-length o ds.dictionary v,
          upper_bound-le-length o ds.dictionary v,
        )

    -- In a well-formed dictionary segment of a type with a lawful order, the operation on ids takes
    -- the id of a value of the dictionary exactly if the operation on values takes the value, for
    -- each of the six scan types.
    pub takes-operation :
        (op : ScanType) (id : ℕ) (x : T)
        → get_elem? ds.dictionary id ≡ some x
        → takes (id_operation op lower upper) id ≡ create_scan_operation o op x v
    takes-operation op id x e =
        let below = get_elem?-below ds.dictionary id x e in
        ids-by_order op lower upper id (o.less x v) (o.less v x) ids_in_order (between id below)
          (lt-lower_bound_id o ds v id w.small below
            ∙ lt-lower_bound o laws ds.dictionary id x v w.ascending e)
          (lt-upper_bound_id o ds v id w.small below
            ∙ lt-upper_bound o laws ds.dictionary id x v w.ascending e)
        ∙ sym (operation-by_order op x v)
