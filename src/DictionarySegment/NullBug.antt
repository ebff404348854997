-- ===== src/DictionarySegment/NullBug.antt =====
-- What the constructor does to segments with null rows whose other values are not all above `T{}`:
-- it does not fail, and it loses the least value.
use dyod_so_se.Algorithm.Inverted.{length-invert}
use dyod_so_se.Algorithm.Order.{In, All-In, In-get_elem?, IsStrict}
use dyod_so_se.Algorithm.{Inverted, get_or_insert, invert}
use dyod_so_se.AttributeVector
use dyod_so_se.AttributeVector.Laws.{set_in_range_low}
use dyod_so_se.AttributeVector.{AttributeVector}
use dyod_so_se.DictionarySegment.Dictionary.{
  distinct_values, distinct-IsStrict, distinct-In, In-distinct, length-distinct-le,
}
use dyod_so_se.DictionarySegment.Flags.{masked_default}
use dyod_so_se.DictionarySegment.Invariant.{Aligned, has_null}
use dyod_so_se.DictionarySegment.RoundTrip.{initialize-width, size_small}
use dyod_so_se.DictionarySegment.Rows.{flag_at-Aligned}
use dyod_so_se.DictionarySegment.{
  DictionarySegment, fill_dictionary, fill_rows, fill_attributes_vector, flag_at, new,
  get_typed_value,
}
use dyod_so_se.Outcome.Laws.{debug_assert-true, >>=-returns}
use dyod_so_se.Outcome.{Outcome, ok, ◌>>=◌, Build, duplicate_in_dictionary, not_a_value_segment}
use dyod_so_se.Prelude.{
  ℕ, suc, ◌+◌, ◌^◌, ◌%◌, ◌<◌, ◌≤◌, ◌≡◌, ◌≢◌, inl, refl, ◌∙◌, Bool, true, false, List, [], ◌∷◌,
  Option, none, some, length, length-replicate, arith, get_elem?, ◌==◌, ==_iff,
}
use dyod_so_se.Scalar.{Scalar, IsLawful}
use dyod_so_se.ValueSegment.Invariant.{cells, FlagsFit, IsValid}
use dyod_so_se.ValueSegment.{ValueSegment}

module _ {T : Type 0} (o : Scalar T) (build : Build) (is_null : ℕ → Outcome Bool)
    (null_id : ℕ) where
  -- the loop never fails on rows that the vector has room for
  fill_rows_total :
      (i : ℕ) (vs : List T) (cs : List (Option T)) (m : Inverted o) (av : AttributeVector)
      → Aligned is_null i vs cs
      → i + length vs ≤ length av.ids
      → (av' : AttributeVector) × (fill_rows o build is_null null_id i vs m av ≡ ok av')
        × (length av'.ids ≡ length av.ids)
  unfolding fill_rows
  fill_rows_total i [] cs m av a room = (av, refl, refl)
  fill_rows_total i (v ∷ vs) [] m av a room = absurd a
  fill_rows_total i (v ∷ vs) (none ∷ cs) m av a room =
      let (av₁, written, size) = set_in_range_low build av i null_id (omega arith) in
      let (av₂, run, size₂) = fill_rows_total (suc i) vs cs m av₁ a.1 (omega arith) in
      (av₂, rw (a.0, ◌>>=◌, written) run, size₂ ∙ size)
  fill_rows_total i (v ∷ vs) (some x ∷ cs) m av a room =
      let entry = get_or_insert o v m in
      let (av₁, written, size) = set_in_range_low build av i entry.0 (omega arith) in
      let (av₂, run, size₂) = fill_rows_total (suc i) vs cs entry.1 av₁ a.2 (omega arith) in
      (av₂, rw (a.0, ◌>>=◌, written) run, size₂ ∙ size)

module _ {T : Type 0} (o : Scalar T) (laws : IsLawful o) where
  uncons : (z : T) (ds : List T) → In z ds → (y : T) × (rest : List T) × (ds ≡ y ∷ rest)
  uncons z [] i = absurd i
  uncons z (y ∷ rest) i = (y, rest, refl)

  -- With a null row the dictionary is the sorted distinct values without the first, whatever that is.
  fill_with_null :
      (flags : Option (List Bool)) (vs : List T)
      → FlagsFit o.default_value flags vs
      → has_null (record { values = vs; null_values = flags }) ≡ true
      → (y : T) × (rest : List T) × (distinct_values o laws vs ≡ y ∷ rest)
        × (fill_dictionary o (record { values = vs; null_values = flags })
            ≡ ok (rest, length (distinct_values o laws vs)))
  unfolding fill_dictionary
  fill_with_null none vs f h = cc
  fill_with_null (some fs) vs f h =
      let (y, rest, e) =
        uncons o.default_value (distinct_values o laws vs)
          (In-distinct o laws o.default_value vs (masked_default o.default_value fs vs f h)) in
      (y, rest, e, rw (h, e))

  -- no read gives a value that the dictionary lacks
  get_typed_value-In :
      (build : Build) (ds : DictionarySegment T) (i : ℕ) (x : T)
      → get_typed_value build ds i ≡ ok (some x)
      → In x ds.dictionary
  unfolding get_typed_value
  get_typed_value-In build ds i x e =
      let (id, read, rest) = >>=-returns (AttributeVector.get build ds.attribute_vector i) _ _ e in
      In-get_elem? ds.dictionary id x (ground (arith, read, rest))

  module _ (build : Build) (s : ValueSegment T) (valid : IsValid o s)
      (small : length s.values < 2 ^ 32) (with_null : has_null s ≡ true) where
    new_with_null :
        (y : T) × (rest : List T) × (distinct_values o laws s.values ≡ y ∷ rest)
        × (ds : DictionarySegment T) × (new o build (some s) ≡ ok ds)
        × (ds.dictionary ≡ rest)
    unfolding new fill_attributes_vector AttributeVector.new
    new_with_null =
        let (y, rest, e, filled) = fill_with_null s.null_values s.values valid with_null in
        let strict : IsStrict o (y ∷ rest) = rw e at (distinct-IsStrict o laws s.values) in
        let (w, made, _) =
          initialize-width o laws build (length (distinct_values o laws s.values)) (length s.values)
            (length-distinct-le o laws s.values) small in
        let fresh : (length (invert o 0 rest []) == length rest) ≡ true =
          (==_iff _ _).1 (length-invert o laws rest strict.1) in
        let zeros : length (AttributeVector.new w (length s.values)).ids ≡ length s.values =
          length-replicate (length s.values) 0 in
        let (av, run, _) =
          fill_rows_total o build (flag_at s) (length rest % 2 ^ 32) 0 s.values (cells s)
            (invert o 0 rest []) (AttributeVector.new w (length s.values))
            (flag_at-Aligned o.default_value s.null_values s.values valid) (omega (arith, zeros)) in
        (
          y,
          rest,
          e,
          record { dictionary = rest; attribute_vector = av },
          rw (
            debug_assert-true build true not_a_value_segment refl,
            ◌>>=◌,
            filled,
            size_small o laws build s valid small,
            made,
            debug_assert-true build _ duplicate_in_dictionary fresh,
            run,
          ),
          refl,
        )

    -- Where a valid value segment of a type with a lawful order has a null row and fewer than 2 ^
    -- 32 values, the constructor of a dictionary segment succeeds, and a row that is not null and
    -- whose value no stored value, those of the null rows included, is below does not read as its
    -- value in the segment that it makes.
    pub new-loses_least :
        (i : ℕ) (x : T)
        → get_elem? (cells s) i ≡ some (some x)
        → ((y : T) → In y s.values → o.less y x ≡ false)
        → (ds : DictionarySegment T) × (new o build (some s) ≡ ok ds)
          × (get_typed_value build ds i ≢ ok (some x))
    new-loses_least i x row least =
        let (y, rest, e, ds, made, dictionary) = new_with_null in
        let strict : IsStrict o (y ∷ rest) = rw e at (distinct-IsStrict o laws s.values) in
        let y_stored : In y s.values = distinct-In o laws y s.values (rw e (inl refl)) in
        let lost : In x rest → ⊥ = λ h.
          ground (arith, All-In (λ z. o.less y z ≡ true) x rest strict.0 h, least y y_stored) in
        (ds, made, λ read. lost (rw dictionary at (get_typed_value-In build ds i x read)))
