-- ===== src/NullValue.antt =====
-- `null_value.hpp`: the type of the NULL of SQL, and its operators, each of which answers false.
use dyod_so_se.Prelude.{Bool, true, false, ◌≡◌, refl}
use dyod_so_se.Scalar.{Scalar, IsLawful}

pub data NullValue : Type 0 where
  null_value : NullValue

unfoldable pub equal : NullValue → NullValue → Bool
equal a b = false

unfoldable pub not_equal : NullValue → NullValue → Bool
not_equal a b = false

unfoldable pub less : NullValue → NullValue → Bool
less a b = false

unfoldable pub less_equal : NullValue → NullValue → Bool
less_equal a b = false

unfoldable pub greater : NullValue → NullValue → Bool
greater a b = false

unfoldable pub greater_equal : NullValue → NullValue → Bool
greater_equal a b = false

-- the unary `-`
unfoldable pub negated : NullValue → NullValue
negated a = null_value

-- The operators are not those of an order: a null value does not equal itself.
abbrev operators : Scalar NullValue
operators = record {
  default_value = null_value;
  less = less;
  less_equal = less_equal;
  equal = equal;
}

operators-not_lawful : ¬ IsLawful operators
unfolding equal
operators-not_lawful laws =
    let same : equal null_value null_value ≡ true = (laws.equal_iff null_value null_value).1 refl in
    cc
