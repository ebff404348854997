-- ===== src/Scalar.antt =====
-- What the templates over a column's type `T` use of it: `T{}`, `<`, `<=` and `==`. The laws are those of
-- a strict total order; they hold of the integers and of strings, and of floats where there is neither a
-- NaN, which equals nothing, nor a second zero, which equals the first.
use dyod_so_se.Prelude.Int.{ℤ, pos, ltb_ℤ, eqb_ℤ, ltb_ℤ_irrefl, ltb_ℤ_trans, ltb_ℤ_total, eqb_ℤ_iff}
use dyod_so_se.Prelude.Text.{
  Text, ltb_Text, eqb_Text, ltb_Text_irrefl, ltb_Text_trans, ltb_Text_total, eqb_Text_iff,
}
use dyod_so_se.Prelude.{ℕ, Bool, true, false, not, ◌≡◌, refl, ◌↔◌, [], ltb, leb, ◌==◌}

pub record Scalar (T : Type 0) : Type 0 where
  pub default_value : T
  pub less : T → T → Bool
  pub less_equal : T → T → Bool
  pub equal : T → T → Bool

pub record IsLawful {T : Type 0} (o : Scalar T) : Type 0 where
  pub less_irrefl : (a : T) → o.less a a ≡ false
  pub less_trans : (a b c : T) → o.less a b ≡ true → o.less b c ≡ true → o.less a c ≡ true
  pub less_total : (a b : T) → o.less a b ≡ false → o.less b a ≡ false → a ≡ b
  pub less_equal-less : (a b : T) → o.less_equal a b ≡ not (o.less b a)
  pub equal_iff : (a b : T) → (o.equal a b ≡ true) ↔ (a ≡ b)

abbrev pub int_scalar : Scalar ℤ
int_scalar = record {
  default_value = pos 0;
  less = ltb_ℤ;
  less_equal = λ a b. not (ltb_ℤ b a);
  equal = eqb_ℤ;
}

abbrev pub string_scalar : Scalar Text
string_scalar = record {
  default_value = [];
  less = ltb_Text;
  less_equal = λ a b. not (ltb_Text b a);
  equal = eqb_Text;
}

-- `ValueID`, as the scan compares it
abbrev pub value_id_scalar : Scalar ℕ
value_id_scalar = record { default_value = 0; less = ltb; less_equal = leb; equal = ◌==◌ }

pub int_scalar-IsLawful : IsLawful int_scalar
int_scalar-IsLawful = record {
  less_irrefl = ltb_ℤ_irrefl;
  less_trans = ltb_ℤ_trans;
  less_total = ltb_ℤ_total;
  less_equal-less = λ a b. refl;
  equal_iff = eqb_ℤ_iff;
}

pub string_scalar-IsLawful : IsLawful string_scalar
string_scalar-IsLawful = record {
  less_irrefl = ltb_Text_irrefl;
  less_trans = ltb_Text_trans;
  less_total = ltb_Text_total;
  less_equal-less = λ a b. refl;
  equal_iff = eqb_Text_iff;
}
