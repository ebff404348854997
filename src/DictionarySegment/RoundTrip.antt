-- ===== src/DictionarySegment/RoundTrip.antt =====
-- Dictionary encoding keeps the rows: the constructor of `DictionarySegment`, end to end.
use dyod_so_se.Algorithm.Inverted.{find-inverted, length-invert}
use dyod_so_se.Algorithm.{invert}
use dyod_so_se.AttributeVector
use dyod_so_se.AttributeVector.{AttributeVector, Width, modulus}
use dyod_so_se.DictionarySegment.Dictionary.{HasEntry, FilledDictionary, fill_dictionary-Fills}
use dyod_so_se.DictionarySegment.Widths.{chosen_width-IsNarrowest}
use dyod_so_se.DictionarySegment.Invariant.{decoded, IsDictionary, IsNullSafe}
use dyod_so_se.DictionarySegment.Rows.{Fits, flag_at-Aligned, fill_rows-Filled}
use dyod_so_se.DictionarySegment.{
  DictionarySegment, fill_attributes_vector, initialize_attributes_vector, flag_at, new,
}
use dyod_so_se.Outcome.Laws.{debug_assert-true}
use dyod_so_se.Outcome.{
  ok, ◌>>=◌, Build, distinct_exceeds_count, duplicate_in_dictionary, not_a_value_segment,
}
use dyod_so_se.Prelude.{
  ℕ, ◌^◌, ◌%◌, ◌<◌, ◌≤◌, ◌≡◌, refl, true, List, [], ◌∷◌, Option, none, some, length, All, arith,
  ◌==◌, ==_iff, le→leb,
}
use dyod_so_se.Scalar.{Scalar, IsLawful}
use dyod_so_se.ValueSegment
use dyod_so_se.ValueSegment.Invariant.{cells, IsValid}
use dyod_so_se.ValueSegment.{ValueSegment}

module _ {T : Type 0} (o : Scalar T) (laws : IsLawful o) (build : Build) where
  Fits-of_entries :
      (dictionary : List T) (distinct : ℕ) (w : Width) (cs : List (Option T))
      → distinct ≤ modulus w
      → All (HasEntry o dictionary distinct) cs
      → All (Fits o dictionary (invert o 0 dictionary []) w) cs
  Fits-of_entries dictionary distinct w [] h a = tt
  Fits-of_entries dictionary distinct w (none ∷ cs) h a =
      (omega arith, Fits-of_entries dictionary distinct w cs h a.1)
  Fits-of_entries dictionary distinct w (some v ∷ cs) h a =
      (find-inverted o laws dictionary v a.0, Fits-of_entries dictionary distinct w cs h a.1)

  pub initialize-width :
      (distinct count : ℕ)
      → distinct ≤ count
      → count < 2 ^ 32
      → (w : Width) × (initialize_attributes_vector build distinct count
          ≡ ok (AttributeVector.new w count))
        × (distinct ≤ modulus w)
  unfolding initialize_attributes_vector
  initialize-width distinct count le small =
      let (w, chosen, (fits, narrow)) = chosen_width-IsNarrowest distinct (omega arith) in
      (
        w,
        rw (debug_assert-true build _ distinct_exceeds_count (le→leb _ _ le), ◌>>=◌, chosen),
        fits,
      )

  module _ (s : ValueSegment T) (valid : IsValid o s) (small : length s.values < 2 ^ 32) where
    abbrev filled_vector : Width → List ℕ → AttributeVector
    filled_vector w ids = record { width_of = w; ids = ids }

    fill_attributes_vector-rows :
        (dictionary : List T) (distinct : ℕ) (w : Width)
        → FilledDictionary o s dictionary distinct
        → distinct ≤ modulus w
        → (ids : List ℕ) × (fill_attributes_vector o build dictionary s
              (AttributeVector.new w (length s.values))
            ≡ ok (filled_vector w ids))
          × (decoded (record { dictionary = dictionary; attribute_vector = filled_vector w ids })
              ≡ cells s)
          × All (λ id. id ≤ length dictionary) ids
          × (length ids ≡ length s.values)
    unfolding fill_attributes_vector AttributeVector.new
    fill_attributes_vector-rows dictionary distinct w filled fits =
        let inverted = invert o 0 dictionary [] in
        let (ids, run, rows, range, len) =
          fill_rows-Filled o build (flag_at s) dictionary inverted w 0 s.values (cells s) []
            (omega (arith, filled.size)) refl
            (flag_at-Aligned o.default_value s.null_values s.values valid)
            (Fits-of_entries dictionary distinct w (cells s) fits filled.entries) in
        let fresh : (length inverted == length dictionary) ≡ true =
          (==_iff _ _).1 (length-invert o laws dictionary filled.ascending) in
        let null_id : length dictionary % 2 ^ 32 ≡ length dictionary =
          omega (arith, filled.size, filled.bounded) in
        (
          ids,
          rw (debug_assert-true build _ duplicate_in_dictionary fresh, ◌>>=◌, null_id) run,
          rows,
          range,
          len,
        )

    pub size_small : ValueSegment.size s ≡ length s.values
    unfolding ValueSegment.size
    size_small = omega arith

    -- For a type with a lawful order, the constructor of a dictionary segment succeeds on a valid
    -- and null-safe value segment of fewer than 2 ^ 32 values; the segment that it makes decodes to
    -- the rows of the value segment, is well formed, and has one id for each value.
    pub new-rows :
        IsNullSafe o s
        → (ds : DictionarySegment T) × (new o build (some s) ≡ ok ds)
          × (decoded ds ≡ cells s)
          × IsDictionary o ds
          × (length ds.attribute_vector.ids ≡ length s.values)
    unfolding new
    new-rows safe =
        let (dictionary, distinct, filled, f) = fill_dictionary-Fills o laws s valid safe in
        let (w, made, fits) = initialize-width distinct (length s.values) f.bounded small in
        let (ids, run, rows, range, len) =
          fill_attributes_vector-rows dictionary distinct w f fits in
        (
          record { dictionary = dictionary; attribute_vector = filled_vector w ids },
          rw (
            debug_assert-true build true not_a_value_segment refl,
            ◌>>=◌,
            filled,
            size_small,
            made,
            run,
          ),
          rows,
          record {
            ascending = f.ascending;
            small = omega (arith, f.size, f.bounded);
            in_range = range;
            rows = omega arith;
          },
          len,
        )
