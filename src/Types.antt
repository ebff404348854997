-- ===== src/Types.antt =====
-- `types.hpp`, `all_type_variant.hpp`, `resolve_type.hpp` and `type_cast.hpp`: identifiers, the
-- data types of columns, `AllTypeVariant`, and the casts.
pub mod RowIds
use dyod_so_se.Outcome.{Outcome, ok, throw, not_castable}
use dyod_so_se.Prelude.Int.{ℤ}
use dyod_so_se.Prelude.Text.{Text, text, eqb_Text}
use dyod_so_se.Prelude.{
  ℕ, Bool, true, false, not, ◌&&◌, ◌||◌, ltb, ◌-◌, ◌^◌, Option, none, some, if◌then◌else◌, ◌==◌,
  List,
}
use dyod_so_se.Scalar.{Scalar, int_scalar, string_scalar}

-- `std::numeric_limits<uint32_t>::max()`, the invalid `ChunkOffset`, `ChunkID` and `ValueID`
abbrev pub invalid_chunk_offset : ℕ
invalid_chunk_offset = 2 ^ 32 - 1

abbrev pub invalid_chunk_id : ℕ
invalid_chunk_id = 2 ^ 32 - 1

abbrev pub invalid_value_id : ℕ
invalid_value_id = 2 ^ 32 - 1

pub record RowId : Type 0 where
  pub chunk_id : ℕ
  pub chunk_offset : ℕ

-- `RowID::is_null`, which reads the offset alone
abbrev pub row_is_null : RowId → Bool
row_is_null r = r.chunk_offset == invalid_chunk_offset

abbrev pub null_row_id : RowId
null_row_id = record { chunk_id = invalid_chunk_id; chunk_offset = invalid_chunk_offset }

-- `RowID::operator<` and `operator==`, those of the tuples of its members
unfoldable pub row_id_less : RowId → RowId → Bool
row_id_less a b =
    ltb a.chunk_id b.chunk_id
    || (not (ltb b.chunk_id a.chunk_id) && ltb a.chunk_offset b.chunk_offset)

unfoldable pub row_id_equal : RowId → RowId → Bool
row_id_equal a b = (a.chunk_id == b.chunk_id) && (a.chunk_offset == b.chunk_offset)

abbrev pub PosList : Type 0
PosList = List RowId

pub data ScanType : Type 0 where
  op_equals op_not_equals op_less_than op_less_than_equals : ScanType
  op_greater_than op_greater_than_equals : ScanType

-- `data_types_macro` and `type_strings`
pub data DataType : Type 0 where
  int long float double string : DataType

-- `boost::variant` over the data types, with `NullValue` in front
pub data AllTypeVariant (Float Double : Type 0) : Type 0 where
  null : AllTypeVariant Float Double
  of_int : ℤ → AllTypeVariant Float Double
  of_long : ℤ → AllTypeVariant Float Double
  of_float : Float → AllTypeVariant Float Double
  of_double : Double → AllTypeVariant Float Double
  of_string : Text → AllTypeVariant Float Double

-- The C++ type that a data type stands for
abbrev pub ValueOf : Type 0 → Type 0 → DataType → Type 0
ValueOf Float Double int = ℤ
ValueOf Float Double long = ℤ
ValueOf Float Double float = Float
ValueOf Float Double double = Double
ValueOf Float Double string = Text

-- What the source does not implement: the floating-point types and the way a stream prints them, and
-- boost's `lexical_cast` from a variant, from a text and to a text, and its `numeric_cast` from a
-- double.
pub record Platform : Type 1 where
  pub Float : Type 0
  pub Double : Type 0
  pub float_scalar : Scalar Float
  pub double_scalar : Scalar Double
  pub lexical_cast : (d : DataType) → AllTypeVariant Float Double → Option (ValueOf Float Double d)
  pub numeric_cast : (d : DataType) → Double → Option (ValueOf Float Double d)
  pub lexical_cast_text : (d : DataType) → Text → Option (ValueOf Float Double d)
  pub lexical_cast_string : AllTypeVariant Float Double → Text
  pub show_float : Float → Text
  pub show_double : Double → Text

module _ (P : Platform) where
  abbrev pub Variant : Type 0
  Variant = AllTypeVariant P.Float P.Double

  abbrev pub Value : DataType → Type 0
  Value d = ValueOf P.Float P.Double d

  abbrev pub scalar : (d : DataType) → Scalar (Value d)
  scalar int = int_scalar
  scalar long = int_scalar
  scalar float = P.float_scalar
  scalar double = P.double_scalar
  scalar string = string_scalar

  -- the implicit conversion of a `T` to a variant
  abbrev pub to_variant : (d : DataType) → Value d → Variant
  to_variant int v = of_int v
  to_variant long v = of_long v
  to_variant float v = of_float v
  to_variant double v = of_double v
  to_variant string v = of_string v

  -- `variant_is_null`
  abbrev pub variant_is_null : Variant → Bool
  variant_is_null null = true
  variant_is_null _ = false

  -- `get<T>` where `which()` is the index of `T`
  abbrev pub held : (d : DataType) → Variant → Option (Value d)
  held int (of_int v) = some v
  held long (of_long v) = some v
  held float (of_float v) = some v
  held double (of_double v) = some v
  held string (of_string v) = some v
  held _ _ = none

  abbrev pub is_integral : DataType → Bool
  is_integral int = true
  is_integral long = true
  is_integral _ = false

  -- `boost::numeric_cast<T>(boost::lexical_cast<double>(value))`
  abbrev pub cast_through_double : (d : DataType) → Variant → Option (Value d)
  cast_through_double d v = elim (P.lexical_cast double v) [
    | none ↦ none
    | some x ↦ P.numeric_cast d x
  ]

  -- both overloads of `type_cast<T>`; `none` is an exception of boost's
  unfoldable pub type_cast? : (d : DataType) → Variant → Option (Value d)
  type_cast? d v = elim (held d v) [
    | some x ↦ some x
    | none ↦ elim (P.lexical_cast d v) [
      | some x ↦ some x
      | none ↦ if is_integral d then cast_through_double d v else none
    ]
  ]

  unfoldable pub type_cast : (d : DataType) → Variant → Outcome (Value d)
  unfolding type_cast?
  type_cast d v = elim (type_cast? d v) [ none ↦ throw not_castable | some x ↦ ok x ]

-- `resolve_data_type`: the data type whose type string this is; the functor is called for no other
abbrev pub resolve_data_type : Text → Option DataType
resolve_data_type s =
    if eqb_Text s (text "int")
    then some int
    else if eqb_Text s (text "long")
    then some long
    else if eqb_Text s (text "float")
    then some float
    else if eqb_Text s (text "double")
    then some double
    else if eqb_Text s (text "string")
    then some string
    else none
