-- ===== src/AttributeVector.antt =====
-- `storage/abstract_attribute_vector.hpp` and `storage/fixed_width_integer_vector.cpp`: value ids
-- in a vector of 8-, 16- or 32-bit unsigned integers.
pub mod Laws
use dyod_so_se.Outcome.{
  Outcome, ok, throw, ◌>>=◌, ◌>>◌, Build, debug_assert, subscript, assign, index_out_of_bounds,
}
use dyod_so_se.Prelude.{ℕ, ◌^◌, ◌%◌, ◌*◌, List, length, ltb, replicate}

-- the three instantiations of `FixedWidthIntegerVector<T>`
pub data Width : Type 0 where
  uint8 uint16 uint32 : Width

-- `sizeof(T)`
abbrev pub size_of : Width → ℕ
size_of uint8 = 1
size_of uint16 = 2
size_of uint32 = 4

-- the values that a `T` has
abbrev pub modulus : Width → ℕ
modulus uint8 = 2 ^ 8
modulus uint16 = 2 ^ 16
modulus uint32 = 2 ^ 32

pub record AttributeVector : Type 0 where
  pub width_of : Width
  pub ids : List ℕ

unfoldable pub new : Width → ℕ → AttributeVector
new w size = record { width_of = w; ids = replicate size 0 }

unfoldable pub size : AttributeVector → ℕ
size v = length v.ids

-- `width`, in bytes
unfoldable pub width : AttributeVector → ℕ
width v = size_of v.width_of

module _ (build : Build) where
  unfoldable pub get : AttributeVector → ℕ → Outcome ℕ
  get v i = do debug_assert build (ltb i (length v.ids)) index_out_of_bounds; subscript v.ids i

  -- the conversion to `T` keeps the low bits of the value id
  unfoldable pub set_id : AttributeVector → ℕ → ℕ → Outcome AttributeVector
  set_id v i id = do
    debug_assert build (ltb i (length v.ids)) index_out_of_bounds
    ids ← assign v.ids i (id % modulus v.width_of)
    ok (record v { ids = ids })
