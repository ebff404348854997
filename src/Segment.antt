-- ===== src/Segment.antt =====
-- `storage/abstract_segment.hpp` and the data of `storage/reference_segment.hpp`: the segments that
-- a chunk holds, behind a shared pointer that may be null, and the casts between them.
use dyod_so_se.DictionarySegment.{DictionarySegment}
use dyod_so_se.DictionarySegment
use dyod_so_se.Outcome.{Outcome, ok, undefined}
use dyod_so_se.Prelude.{ℕ, ◌^◌, ◌%◌, Option, none, some, length}
use dyod_so_se.Types.{Platform, DataType, Value, PosList, int, long, float, double, string}
use dyod_so_se.ValueSegment.{ValueSegment}
use dyod_so_se.ValueSegment

-- `_referenced_table` is the address of a table
pub record ReferenceSegment : Type 0 where
  pub referenced_table : ℕ
  pub referenced_column_id : ℕ
  pub pos_list : PosList

pub data Segment (P : Platform) : Type 0 where
  value_segment : (d : DataType) → ValueSegment (Value P d) → Segment P
  dictionary_segment : (d : DataType) → DictionarySegment (Value P d) → Segment P
  reference_segment : ReferenceSegment → Segment P
  null_pointer : Segment P

module _ {P : Platform} where
  -- `dynamic_pointer_cast<ValueSegment<T>>`
  abbrev pub as_value : (d : DataType) → Segment P → Option (ValueSegment (Value P d))
  as_value int (value_segment int s) = some s
  as_value long (value_segment long s) = some s
  as_value float (value_segment float s) = some s
  as_value double (value_segment double s) = some s
  as_value string (value_segment string s) = some s
  as_value _ _ = none

  -- `dynamic_pointer_cast<DictionarySegment<T>>`
  abbrev pub as_dictionary : (d : DataType) → Segment P → Option (DictionarySegment (Value P d))
  as_dictionary int (dictionary_segment int s) = some s
  as_dictionary long (dictionary_segment long s) = some s
  as_dictionary float (dictionary_segment float s) = some s
  as_dictionary double (dictionary_segment double s) = some s
  as_dictionary string (dictionary_segment string s) = some s
  as_dictionary _ _ = none

  -- `dynamic_pointer_cast<ReferenceSegment>`
  abbrev pub as_reference : Segment P → Option ReferenceSegment
  as_reference (reference_segment r) = some r
  as_reference _ = none

  -- the virtual `size`
  unfoldable pub size : Segment P → Outcome ℕ
  unfolding ValueSegment.size DictionarySegment.size
  size (value_segment d s) = ok (ValueSegment.size s)
  size (dictionary_segment d s) = ok (DictionarySegment.size s)
  size (reference_segment r) = ok (length r.pos_list % 2 ^ 32)
  size null_pointer = undefined
