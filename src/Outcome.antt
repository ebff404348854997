-- ===== src/Outcome.antt =====
-- What a call does beside returning: it throws, or its behaviour is undefined. `utils/assert.hpp`
-- (`Fail`, `Assert`, `DebugAssert`) and `std::vector`'s two ways to read an element.
pub mod Laws
use dyod_so_se.Prelude.{
  ℕ, zero, suc, Bool, true, false, List, [], ◌∷◌, Option, none, some, if◌then◌else◌, get_elem?, set,
  ltb, length,
}

-- The exceptions, one for each message. `not_castable` stands for what boost's casts throw.
pub data Error : Type 0 where
  duplicate_column no_such_column no_such_column_id no_such_chunk columns_not_well_defined : Error
  table_not_empty tuple_width out_of_bounds null_at_offset null_in_non_nullable : Error
  could_not_cast not_nullable not_castable index_out_of_bounds not_a_value_segment : Error
  distinct_exceeds_count too_many_values duplicate_in_dictionary value_is_null value_id_is_null :
      Error
  vector_out_of_range row_id_out_of_bounds table_exists no_such_table no_output not_executed : Error
  unsupported_segment unsupported_target no_input file_not_found mismatched_types
        mismatched_values :
      Error

-- `undefined` is a read through a null pointer or past the end of a vector, or a loop that has no
-- effect and no end.
pub data Outcome {ℓ} (A : Type ℓ) : Type ℓ where
  ok : A → Outcome A
  throw : Error → Outcome A
  undefined : Outcome A

infixl 5 ◌>>=◌
abbrev pub ◌>>=◌ {ℓ κ} : {A : Type ℓ} {B : Type κ} → Outcome A → (A → Outcome B) → Outcome B
throw e >>= next = throw e
undefined >>= next = undefined
ok a >>= next = next a

-- The two builds: `OPOSSUM_DEBUG` is set or not.
pub data Build : Type 0 where
  debug release : Build

-- `Assert(expr, msg)`, and `if (!expr) throw …`
abbrev pub assert : Bool → Error → Outcome (Unit {0})
assert true e = ok tt
assert false e = throw e

-- an assertion and what comes after it
infixl 5 ◌>>◌
abbrev pub ◌>>◌ {ℓ} : {B : Type ℓ} → Outcome (Unit {0}) → Outcome B → Outcome B
first >> next = first >>= λ _. next

-- `DebugAssert(expr, msg)`, which is empty in a release build
abbrev pub debug_assert : Build → Bool → Error → Outcome (Unit {0})
debug_assert debug c e = assert c e
debug_assert release c e = ok tt

abbrev pub or_undefined {ℓ} : {A : Type ℓ} → Option A → Outcome A
or_undefined none = undefined
or_undefined (some a) = ok a

abbrev pub or_throw {ℓ} : {A : Type ℓ} → Error → Option A → Outcome A
or_throw e none = throw e
or_throw e (some a) = ok a

-- `v[i]`
abbrev pub subscript {ℓ} : {A : Type ℓ} → List A → ℕ → Outcome A
subscript v i = or_undefined (get_elem? v i)

-- `v.at(i)`
abbrev pub at {ℓ} : {A : Type ℓ} → List A → ℕ → Outcome A
at v i = or_throw vector_out_of_range (get_elem? v i)

-- `v[i] = x`
abbrev pub assign {ℓ} : {A : Type ℓ} → List A → ℕ → A → Outcome (List A)
assign v i x = if ltb i (length v) then ok (set v i x) else undefined

-- `(*p).f()` where `p` may be null
abbrev pub deref {ℓ} : {A : Type ℓ} → Option A → Outcome A
deref = or_undefined
