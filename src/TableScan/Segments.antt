-- ===== src/TableScan/Segments.antt =====
-- The scan of a value segment and of a dictionary segment select the rows that pass.
use dyod_so_se.AttributeVector
use dyod_so_se.DictionarySegment.Invariant.{decoded, IsDictionary, IsNullSafe, Aligned}
use dyod_so_se.DictionarySegment.Reads.{get_elem?-map, null_id, row_id}
use dyod_so_se.DictionarySegment.RoundTrip.{new-rows}
use dyod_so_se.DictionarySegment.Rows.{flag_at-Aligned, Aligned-congr}
use dyod_so_se.DictionarySegment.{DictionarySegment, new, lower_bound_id, upper_bound_id, flag_at}
use dyod_so_se.Outcome.Laws.{debug_assert-true}
use dyod_so_se.Outcome.{ok, ◌>>=◌, Build, out_of_bounds}
use dyod_so_se.Prelude.{
  ℕ, zero, suc, ◌+◌, ◌^◌, ◌%◌, ◌<◌, ◌≡◌, refl, sym, ap, ◌∙◌, Bool, false, List, [], ◌∷◌, Option,
  none, some, length, length-map, arith, get_elem?, lt→ltb,
}
use dyod_so_se.Scalar.{Scalar, IsLawful}
use dyod_so_se.TableScan.Ids.{takes, takes-operation}
use dyod_so_se.TableScan.Selection.{select}
use dyod_so_se.TableScan.{
  create_scan_operation, scan_values, scan_ids, scan_taking, scan_dictionary, id_operation,
  tablescan_value_segment, tablescan_dict_segment,
}
use dyod_so_se.Types.{Platform, DataType, Variant, Value, scalar, type_cast?, ScanType}
use dyod_so_se.ValueSegment.Invariant.{cells, IsValid}
use dyod_so_se.ValueSegment.{ValueSegment, is_null}

-- within the segment, `is_null` reads the flag
is_null-flag_at :
    {T : Type 0} (build : Build) (s : ValueSegment T) (j : ℕ)
    → length s.values < 2 ^ 32
    → j < length s.values
    → is_null build s j ≡ flag_at s j
unfolding is_null flag_at
is_null-flag_at build s j small h =
    let below : j < length s.values % 2 ^ 32 = omega arith in
    rw (debug_assert-true build _ out_of_bounds (lt→ltb _ _ below), ◌>>=◌)

module _ {T : Type 0} (build : Build) (passes : T → Bool) (chunk_id : ℕ) where
  module _ (s : ValueSegment T) where
    scan_values-select :
        (i : ℕ) (vs : List T) (cs : List (Option T))
        → i + length vs < 2 ^ 32
        → Aligned (is_null build s) i vs cs
        → scan_values build s passes chunk_id i vs ≡ ok (select passes chunk_id i cs)
    unfolding scan_values select
    scan_values-select i [] [] small a = refl
    scan_values-select i [] (c ∷ cs) small a = absurd a
    scan_values-select i (v ∷ vs) [] small a = absurd a
    scan_values-select i (v ∷ vs) (none ∷ cs) small a =
        let next : (i + 1) % 2 ^ 32 ≡ suc i = omega arith in
        rw (a.0, ◌>>=◌, next, scan_values-select (suc i) vs cs (omega arith) a.1)
    scan_values-select i (v ∷ vs) (some x ∷ cs) small a =
        let next : (i + 1) % 2 ^ 32 ≡ suc i = omega arith in
        rw (a.0, ◌>>=◌, next, a.1, scan_values-select (suc i) vs cs (omega arith) a.2)

    is_null-Aligned :
        (o : Scalar T)
        → IsValid o s
        → length s.values < 2 ^ 32
        → Aligned (is_null build s) 0 s.values (cells s)
    is_null-Aligned o valid small =
        Aligned-congr (flag_at s) (is_null build s) (length s.values) 0 s.values (cells s)
          (λ j h. is_null-flag_at build s j small h) (omega arith)
          (flag_at-Aligned o.default_value s.null_values s.values valid)

  module _ (o : Scalar T) (ds : DictionarySegment T) (w : IsDictionary o ds)
      (pass_id : ℕ → Bool) where
    abbrev Agrees : Type 0
    Agrees = (id : ℕ) (x : T) → get_elem? ds.dictionary id ≡ some x → pass_id id ≡ passes x

    first :
        (i : ℕ) (c : Option T)
        → get_elem? (decoded ds) (i + 0) ≡ some c
        → get_elem? (decoded ds) i ≡ some c
    first i c e = let same : i ≡ i + 0 = omega arith in ap (get_elem? (decoded ds)) same ∙ e

    later :
        (i j : ℕ) (c : Option T)
        → get_elem? (decoded ds) (i + suc j) ≡ some c
        → get_elem? (decoded ds) (suc i + j) ≡ some c
    later i j c e =
        let same : suc i + j ≡ i + suc j = omega arith in ap (get_elem? (decoded ds)) same ∙ e

    scan_ids-select :
        (n i : ℕ) (cs : List (Option T))
        → Agrees
        → ((j : ℕ) (c : Option T)
            → get_elem? cs j ≡ some c
            → get_elem? (decoded ds) (i + j) ≡ some c)
        → length cs ≡ n
        → scan_ids build ds pass_id chunk_id n i ≡ ok (select passes chunk_id i cs)
    unfolding scan_ids select
    scan_ids-select zero i [] agrees at len = refl
    scan_ids-select zero i (c ∷ cs) agrees at len = absurd (omega arith)
    scan_ids-select (suc n) i [] agrees at len = absurd (omega arith)
    scan_ids-select (suc n) i (none ∷ cs) agrees at len =
        let (id, read, code) = row_id o ds w build i none (first i none (at 0 none refl)) in
        let rest =
          scan_ids-select n (suc i) cs agrees (λ j c e. later i j c (at (suc j) c e))
            (omega arith) in
        ground (arith, read, code, null_id o ds w, rest)
    scan_ids-select (suc n) i (some x ∷ cs) agrees at len =
        let (id, read, code) =
          row_id o ds w build i (some x) (first i (some x) (at 0 (some x) refl)) in
        let rest =
          scan_ids-select n (suc i) cs agrees (λ j c e. later i j c (at (suc j) c e))
            (omega arith) in
        ground (arith, read, code, null_id o ds w, rest, agrees id x code.1)

module _ {T : Type 0} (o : Scalar T) (build : Build) (passes : T → Bool) (chunk_id : ℕ)
    (ds : DictionarySegment T) (w : IsDictionary o ds) where
  none_passes :
      (i : ℕ) (cs : List (Option T))
      → ((id : ℕ) (x : T) → get_elem? ds.dictionary id ≡ some x → false ≡ passes x)
      → ((j : ℕ) (x : T)
          → get_elem? cs j ≡ some (some x)
          → (id : ℕ) × (get_elem? ds.dictionary id ≡ some x))
      → [] ≡ select passes chunk_id i cs
  unfolding select
  none_passes i [] fails from = refl
  none_passes i (none ∷ cs) fails from = none_passes (suc i) cs fails (λ j x e. from (suc j) x e)
  none_passes i (some x ∷ cs) fails from =
      let (id, there) = from 0 x refl in
      rw (← fails id x there, ← none_passes (suc i) cs fails (λ j y e. from (suc j) y e))

  decoded_value :
      (j : ℕ) (x : T)
      → get_elem? (decoded ds) j ≡ some (some x)
      → (id : ℕ) × (get_elem? ds.dictionary id ≡ some x)
  decoded_value j x e =
      let (id, there, same) =
        get_elem?-map (get_elem? ds.dictionary) ds.attribute_vector.ids j (some x) e in
      (id, same)

  scan_taking-select :
      (taking : Option (ℕ → Bool))
      → ((id : ℕ) (x : T) → get_elem? ds.dictionary id ≡ some x → takes taking id ≡ passes x)
      → scan_taking build ds chunk_id taking ≡ ok (select passes chunk_id 0 (decoded ds))
  unfolding scan_taking AttributeVector.size
  scan_taking-select none agrees = ap ok (none_passes 0 (decoded ds) agrees decoded_value)
  scan_taking-select (some f) agrees =
      let ids = ds.attribute_vector.ids in
      let rounds : length ids % 2 ^ 32 ≡ length ids = omega (arith, w.rows) in
      let start : (j : ℕ) (c : Option T)
          → get_elem? (decoded ds) j ≡ some c
          → get_elem? (decoded ds) (0 + j) ≡ some c =
        λ j c e. let same : 0 + j ≡ j = omega arith in ap (get_elem? (decoded ds)) same ∙ e in
      rw rounds (
        scan_ids-select build passes chunk_id o ds w f (length ids) 0 (decoded ds) agrees start
          (length-map ids (get_elem? ds.dictionary)))

module _ {T : Type 0} (o : Scalar T) (laws : IsLawful o) (build : Build) (op : ScanType)
    (search : T) (chunk_id : ℕ) where
  abbrev pub passes_search : T → Bool
  passes_search x = create_scan_operation o op x search

  -- The scan of a well-formed dictionary segment of a type with a lawful order, which compares ids,
  -- returns, in ascending order, the positions of the rows that are not null and whose value
  -- passes.
  pub scan_dictionary-select :
      (ds : DictionarySegment T)
      → IsDictionary o ds
      → scan_dictionary o build op search ds chunk_id
        ≡ ok (select passes_search chunk_id 0 (decoded ds))
  unfolding scan_dictionary
  scan_dictionary-select ds w =
      scan_taking-select o build passes_search chunk_id ds w
        (id_operation op (lower_bound_id o ds search) (upper_bound_id o ds search))
        (takes-operation o laws ds w search op)

module _ (P : Platform) (d : DataType) (laws : IsLawful (scalar P d)) (build : Build)
    (op : ScanType) (search_value : Variant P) (search : Value P d)
    (castable : type_cast? P d search_value ≡ some search) (chunk_id : ℕ) where
  -- A value segment is scanned to the positions of its rows that pass.
  pub tablescan_value_segment-select :
      (s : ValueSegment (Value P d))
      → IsValid (scalar P d) s
      → length s.values < 2 ^ 32
      → tablescan_value_segment P d build op search_value s chunk_id
        ≡ ok (select (λ v. create_scan_operation (scalar P d) op v search) chunk_id 0 (cells s))
  unfolding tablescan_value_segment
  tablescan_value_segment-select s valid small =
      let bound : 0 + length s.values < 2 ^ 32 = omega arith in
      rw (castable, ◌>>=◌)
        (scan_values-select build (λ v. create_scan_operation (scalar P d) op v search) chunk_id s 0
          s.values (cells s) bound
          (is_null-Aligned build (λ v. create_scan_operation (scalar P d) op v search) chunk_id s
            (scalar P d) valid small))

  pub tablescan_dict_segment-select :
      (ds : DictionarySegment (Value P d))
      → IsDictionary (scalar P d) ds
      → tablescan_dict_segment P d build op search_value ds chunk_id
        ≡ ok (select (λ v. create_scan_operation (scalar P d) op v search) chunk_id 0 (decoded ds))
  unfolding tablescan_dict_segment
  tablescan_dict_segment-select ds w =
      rw (castable, ◌>>=◌) (scan_dictionary-select (scalar P d) laws build op search chunk_id ds w)

  -- For a column type with a lawful order and a search value that casts to it, dictionary encoding
  -- succeeds on a valid and null-safe value segment of fewer than 2 ^ 32 values, and the scan of
  -- the dictionary segment that it makes has the same outcome as the scan of the value segment, for
  -- every scan type.
  pub tablescan_compressed :
      (s : ValueSegment (Value P d))
      → IsValid (scalar P d) s
      → IsNullSafe (scalar P d) s
      → length s.values < 2 ^ 32
      → (ds : DictionarySegment (Value P d)) × (new (scalar P d) build (some s) ≡ ok ds)
        × (tablescan_dict_segment P d build op search_value ds chunk_id
            ≡ tablescan_value_segment P d build op search_value s chunk_id)
  tablescan_compressed s valid safe small =
      let (ds, made, rows, w, _) = new-rows (scalar P d) laws build s valid small safe in
      (
        ds,
        made,
        tablescan_dict_segment-select ds w
            ∙ ap
                (λ cs.
                  ok (select (λ v. create_scan_operation (scalar P d) op v search) chunk_id 0 cs))
                rows
            ∙ sym (tablescan_value_segment-select s valid small),
      )
