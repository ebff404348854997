-- ===== src/Tests.antt =====
-- Concrete inputs: a platform, segments, a table and its scan.
pub mod Segments
pub mod Contents
pub mod Queries
pub mod Conditions
pub mod Prints
pub mod Threads
pub mod Histories
pub mod Appends
pub mod Files
pub mod Scans
pub mod Tables
use dyod_so_se.AttributeVector.{uint8}
use dyod_so_se.AttributeVector
use dyod_so_se.Chunk.{Chunk}
use dyod_so_se.DictionarySegment.{DictionarySegment}
use dyod_so_se.Prelude.Int.{ℤ, pos, negsuc}
use dyod_so_se.Prelude.Text.{Text, text}
use dyod_so_se.Prelude.{◌-◌, Bool, true, false, List, [], ◌∷◌, Option, none, some}
use dyod_so_se.Scalar.{int_scalar}
use dyod_so_se.Segment.{Segment, value_segment, dictionary_segment}
use dyod_so_se.Stream.{show_ℤ}
use dyod_so_se.Table.{Table}
use dyod_so_se.Types.{
  Platform, DataType, int, long, float, double, string, AllTypeVariant, ValueOf, null, of_int,
  of_long, of_float, of_double, of_string,
}
use dyod_so_se.ValueSegment.{ValueSegment}

abbrev pub as_number : (d : DataType) → ℤ → Option (ValueOf ℤ ℤ d)
as_number int z = some z
as_number long z = some z
as_number float z = some z
as_number double z = some z
as_number string z = none

abbrev pub cast_number : (d : DataType) → AllTypeVariant ℤ ℤ → Option (ValueOf ℤ ℤ d)
cast_number d null = none
cast_number d (of_int z) = as_number d z
cast_number d (of_long z) = as_number d z
cast_number d (of_float z) = as_number d z
cast_number d (of_double z) = as_number d z
cast_number d (of_string s) = none

-- one digit, or a text as it is
abbrev pub parse : (d : DataType) → Text → Option (ValueOf ℤ ℤ d)
parse string s = some s
parse int (c ∷ []) = some (pos (c - 48))
parse _ _ = none

abbrev pub show_number : AllTypeVariant ℤ ℤ → Text
show_number null = text "NULL"
show_number (of_int z) = show_ℤ z
show_number (of_long z) = show_ℤ z
show_number (of_float z) = show_ℤ z
show_number (of_double z) = show_ℤ z
show_number (of_string s) = s

-- A platform whose floating-point values are the whole numbers.
abbrev pub platform : Platform
platform = record {
  Float = ℤ;
  Double = ℤ;
  float_scalar = int_scalar;
  double_scalar = int_scalar;
  lexical_cast = cast_number;
  numeric_cast = as_number;
  lexical_cast_text = parse;
  lexical_cast_string = show_number;
  show_float = show_ℤ;
  show_double = show_ℤ;
}

-- 7, null, 3
abbrev pub some_values : ValueSegment ℤ
some_values = record {
  values = pos 7 ∷ pos 0 ∷ pos 3 ∷ [];
  null_values = some (false ∷ true ∷ false ∷ []);
}

-- null, -5, 4
abbrev pub negative_values : ValueSegment ℤ
negative_values = record {
  values = pos 0 ∷ negsuc 4 ∷ pos 4 ∷ [];
  null_values = some (true ∷ false ∷ false ∷ []);
}

-- 3, null, 7
abbrev pub some_dictionary : DictionarySegment ℤ
some_dictionary = record {
  dictionary = pos 3 ∷ pos 7 ∷ [];
  attribute_vector = record { width_of = uint8; ids = 0 ∷ 2 ∷ 1 ∷ [] };
}

abbrev pub first_chunk : Chunk platform
first_chunk = record { columns = value_segment int some_values ∷ [] }

abbrev pub second_chunk : Chunk platform
second_chunk = record { columns = dictionary_segment int some_dictionary ∷ [] }

abbrev pub some_table : Table platform
some_table = record {
  chunks = first_chunk ∷ second_chunk ∷ [];
  column_names = text "a" ∷ [];
  column_types = text "int" ∷ [];
  column_nullable = true ∷ [];
  target_chunk_size = 3;
}
