-- ===== src/Stream.antt =====
-- What is written to a `std::ostream`, as text: the standard's `setw` and its formatting of integers,
-- and `operator<<` of `null_value.hpp`, `strong_typedef.hpp` and of a variant.
pub mod Numbers
use dyod_so_se.Outcome.{Outcome, ok, throw, undefined}
use dyod_so_se.Prelude.Int.{ℤ, pos, negsuc}
use dyod_so_se.Prelude.Text.{Text, text}
use dyod_so_se.Prelude.{
  ℕ, zero, suc, ◌+◌, ◌-◌, ◌/◌, ◌%◌, List, [], ◌∷◌, ◌++◌, if◌then◌else◌, length, replicate, ltb,
}
use dyod_so_se.Types.{Platform, Variant, null, of_int, of_long, of_float, of_double, of_string}

-- What a function returns that writes to a stream, and the text that it has written by then.
abbrev pub Written {ℓ} : Type ℓ → Type ℓ
Written A = Outcome A × Text

infixl 5 ◌>>=◌
abbrev pub ◌>>=◌ {ℓ κ} : {A : Type ℓ} {B : Type κ} → Written A → (A → Written B) → Written B
(ok a, out) >>= next = let r = next a in (r.0, out ++ r.1)
(throw e, out) >>= next = (throw e, out)
(undefined, out) >>= next = (undefined, out)

infixl 5 ◌>>◌
abbrev pub ◌>>◌ {ℓ κ} : {A : Type ℓ} {B : Type κ} → Written A → Written B → Written B
r >> next = r >>= λ _. next

abbrev pub write : Text → Written (Unit {0})
write s = (ok tt, s)

-- a call that writes nothing
abbrev pub call {ℓ} : {A : Type ℓ} → Outcome A → Written A
call o = (o, [])

-- `std::endl`
abbrev pub endl : Text
endl = 10 ∷ []

-- `std::setw(width) << s`: blanks in front, up to the width
abbrev pub padded : ℕ → Text → Text
padded width s = replicate (width - length s) 32 ++ s

-- the decimal digits of a number below 10 ^ fuel
unfoldable pub digits : ℕ → ℕ → Text
digits zero n = []
digits (suc fuel) n =
    let rest = digits fuel (n / 10) in
    if ltb n 10 then (48 + n) ∷ [] else rest ++ (48 + n % 10) ∷ []

-- an integer of at most 64 bits, which has at most 20 digits
abbrev pub show_ℕ : ℕ → Text
show_ℕ n = digits 20 n

abbrev pub show_ℤ : ℤ → Text
show_ℤ (pos n) = show_ℕ n
show_ℤ (negsuc n) = 45 ∷ show_ℕ (suc n)

-- `operator<<` of a variant: that of the value it holds
abbrev pub show : (P : Platform) → Variant P → Text
show P null = text "NULL"
show P (of_int z) = show_ℤ z
show P (of_long z) = show_ℤ z
show P (of_float v) = P.show_float v
show P (of_double v) = P.show_double v
show P (of_string s) = s
