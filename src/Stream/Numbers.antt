-- ===== src/Stream/Numbers.antt =====
-- The decimal digits of a number spell it.
use dyod_so_se.Prelude.Text.{Text}
use dyod_so_se.Prelude.{
  ℕ, zero, suc, ◌+◌, ◌-◌, ◌*◌, ◌/◌, ◌%◌, ◌^◌, ◌<◌, ◌≡◌, refl, ap, ◌∙◌, inl, inr, [], ◌∷◌, ◌++◌, ltb,
  Bool-cases, arith,
}
use dyod_so_se.Stream.{digits}
use native.Mathlib.Nat.{pow-suc}

-- the number that digits spell, after those that spell `acc`
abbrev pub value_of : ℕ → Text → ℕ
value_of acc [] = acc
value_of acc (c ∷ cs) = value_of (acc * 10 + (c - 48)) cs

value_of-append : (acc : ℕ) (xs ys : Text) → value_of acc (xs ++ ys) ≡ value_of (value_of acc xs) ys
value_of-append acc [] ys = refl
value_of-append acc (x ∷ xs) ys = value_of-append (acc * 10 + (x - 48)) xs ys

-- The digits of a number below 10 ^ fuel spell the number.
pub digits-value_of : (fuel n : ℕ) → n < 10 ^ fuel → value_of 0 (digits fuel n) ≡ n
unfolding digits
digits-value_of zero n h = omega (arith, h)
digits-value_of (suc fuel) n h = elim (Bool-cases (ltb n 10)) [
  | inl small ↦ rw small (omega arith)
  | inr large ↦ rw large (
      value_of-append 0 (digits fuel (n / 10)) ((48 + n % 10) ∷ [])
      ∙ ap (λ k. k * 10 + (48 + n % 10 - 48))
          (digits-value_of fuel (n / 10) (omega (arith, h, pow-suc 10 fuel)))
      ∙ omega arith)
]
