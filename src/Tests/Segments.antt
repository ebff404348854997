-- ===== src/Tests/Segments.antt =====
-- The theorems on segments, at concrete segments.
use dyod_so_se.DictionarySegment.ValueIds.{value_of_value_id-lower_bound_id}
use dyod_so_se.DictionarySegment.Bounds.{IsFirst, bound_ids-AreFirst}
use dyod_so_se.DictionarySegment.Widths.{IsNarrowest, chosen_width-IsNarrowest}
use dyod_so_se.DictionarySegment.Invariant.{decoded, IsDictionary, IsNullSafe}
use dyod_so_se.DictionarySegment.NullBug.{new-loses_least}
use dyod_so_se.DictionarySegment.Reads.{reads-decoded}
use dyod_so_se.DictionarySegment.RoundTrip.{new-rows}
use dyod_so_se.DictionarySegment
use dyod_so_se.DictionarySegment.{DictionarySegment}
use dyod_so_se.AttributeVector.{Width}
use dyod_so_se.Algorithm.Order.{In}
use dyod_so_se.Outcome.{ok, throw, undefined, debug, release, value_is_null, null_at_offset}
use dyod_so_se.Prelude.Int.{ℤ, pos, negsuc}
use dyod_so_se.Prelude.{◌≡◌, ◌≢◌, refl, false, not, inl, inr, none, some, length, arith, ap}
use dyod_so_se.Scalar.{int_scalar, int_scalar-IsLawful}
use dyod_so_se.Tests.{platform, some_values, negative_values, some_dictionary}
use dyod_so_se.Types.{int, of_int, null, type_cast?}
use dyod_so_se.ValueSegment.Invariant.{cells, IsValid, Appends, append-Appends}
use dyod_so_se.ValueSegment.Reads.{reads-row}
use dyod_so_se.ValueSegment

pub some_values-IsValid : IsValid int_scalar some_values
some_values-IsValid = (λ e. cc, (λ e. refl, (λ e. cc, tt)))

pub some_values-IsNullSafe : IsNullSafe int_scalar some_values
some_values-IsNullSafe = λ _. (refl, (tt, (refl, tt)))

pub some_dictionary-IsDictionary : IsDictionary int_scalar some_dictionary
some_dictionary-IsDictionary = record {
  ascending = ((refl, tt), (tt, tt));
  small = ground arith;
  in_range = (omega arith, (omega arith, (omega arith, tt)));
  rows = ground arith;
}

new-rows_example :
    (ds : DictionarySegment ℤ) × (DictionarySegment.new int_scalar debug (some some_values) ≡ ok ds)
    × (decoded ds ≡ cells some_values)
    × IsDictionary int_scalar ds
    × (length ds.attribute_vector.ids ≡ 3)
new-rows_example =
    new-rows int_scalar int_scalar-IsLawful debug some_values some_values-IsValid (omega arith)
      some_values-IsNullSafe

negative_values-IsValid : IsValid int_scalar negative_values
negative_values-IsValid = (λ e. refl, (λ e. cc, (λ e. cc, tt)))

least_stored : (y : ℤ) → In y negative_values.values → int_scalar.less y (negsuc 4) ≡ false
least_stored y (inl e) = ap (λ z. int_scalar.less z (negsuc 4)) e
least_stored y (inr (inl e)) = ap (λ z. int_scalar.less z (negsuc 4)) e
least_stored y (inr (inr (inl e))) = ap (λ z. int_scalar.less z (negsuc 4)) e
least_stored y (inr (inr (inr x))) = absurd x

new-loses_least_example :
    (ds : DictionarySegment ℤ) × (DictionarySegment.new int_scalar debug (some negative_values)
      ≡ ok ds)
    × (DictionarySegment.get_typed_value debug ds 1 ≢ ok (some (negsuc 4)))
new-loses_least_example =
    new-loses_least int_scalar int_scalar-IsLawful debug negative_values negative_values-IsValid
      (omega arith) refl 1 (negsuc 4) refl least_stored

append-Appends_example :
    Appends platform int some_values
      (some (some (pos 9)))
      (ValueSegment.append platform int (of_int (pos 9)) some_values)
unfolding ValueSegment.is_nullable type_cast?
append-Appends_example =
    append-Appends platform int (of_int (pos 9)) some_values some_values-IsValid

chosen_width-IsNarrowest_example :
    (w : Width) × (DictionarySegment.chosen_width 300 ≡ some w) × IsNarrowest 300 w
chosen_width-IsNarrowest_example = chosen_width-IsNarrowest 300 (omega arith)

bound_ids-AreFirst_example :
    IsFirst int_scalar some_dictionary
      (pos 5)
      (λ x. int_scalar.less x (pos 5))
      (DictionarySegment.lower_bound_id int_scalar some_dictionary (pos 5))
    × IsFirst int_scalar some_dictionary
        (pos 5)
        (λ x. not (int_scalar.less (pos 5) x))
        (DictionarySegment.upper_bound_id int_scalar some_dictionary (pos 5))
bound_ids-AreFirst_example =
    bound_ids-AreFirst int_scalar some_dictionary (pos 5) int_scalar-IsLawful
      some_dictionary-IsDictionary

reads-decoded_example :
    (DictionarySegment.get_typed_value release some_dictionary 1 ≡ ok none)
    × (DictionarySegment.get release some_dictionary 1 ≡ throw value_is_null)
    × (DictionarySegment.element platform int release some_dictionary 1 ≡ undefined)
reads-decoded_example =
    reads-decoded platform int some_dictionary some_dictionary-IsDictionary release 1 none refl

reads-row_example :
    (ValueSegment.get_typed_value debug some_values 1 ≡ ok none)
    × (ValueSegment.get debug some_values 1 ≡ throw null_at_offset)
    × (ValueSegment.element platform int debug some_values 1 ≡ ok null)
reads-row_example =
    reads-row platform int debug some_values some_values-IsValid (omega arith) 1 none refl

value_of_value_id-lower_bound_id_example :
    (v : ℤ) × (DictionarySegment.value_of_value_id debug some_dictionary 1 ≡ ok v)
    × (DictionarySegment.lower_bound_id int_scalar some_dictionary v ≡ 1)
    × (DictionarySegment.lower_bound_variant platform int some_dictionary (of_int v) ≡ ok 1)
value_of_value_id-lower_bound_id_example =
    value_of_value_id-lower_bound_id platform int debug some_dictionary int_scalar-IsLawful
      some_dictionary-IsDictionary 1 (omega arith)
