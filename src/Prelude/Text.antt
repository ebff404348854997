-- ===== src/Prelude/Text.antt =====
-- `std::string` as the list of its bytes, with the comparisons that the standard gives it.
use Prim.Native.Char.{code}
use Prim.Native.String.{String}
use dyod_so_se.Prelude.{ℕ, ◌≡◌, Bool, true, false, List, [], ◌∷◌, arith, ltb, ◌==◌, ◌&&◌, ◌||◌, ◌↔◌}

abbrev pub Text : Type 0
Text = List ℕ

-- The bytes of an ASCII literal.
abbrev pub text : String → Text
text String.[] = []
text (String.◌∷◌ c s) = code c ∷ text s

abbrev pub eqb_Text : Text → Text → Bool
eqb_Text [] [] = true
eqb_Text [] (b ∷ bs) = false
eqb_Text (a ∷ as_) [] = false
eqb_Text (a ∷ as_) (b ∷ bs) = (a == b) && eqb_Text as_ bs

-- Lexicographic, by unsigned bytes.
abbrev pub ltb_Text : Text → Text → Bool
ltb_Text [] [] = false
ltb_Text [] (b ∷ bs) = true
ltb_Text (a ∷ as_) [] = false
ltb_Text (a ∷ as_) (b ∷ bs) = ltb a b || ((a == b) && ltb_Text as_ bs)

pub ltb_Text_irrefl : (a : Text) → ltb_Text a a ≡ false
ltb_Text_irrefl [] = ground arith
ltb_Text_irrefl (x ∷ xs) = ground (arith, ltb_Text_irrefl xs)

pub ltb_Text_trans :
    (a b c : Text) → ltb_Text a b ≡ true → ltb_Text b c ≡ true → ltb_Text a c ≡ true
ltb_Text_trans [] [] c h k = ground arith
ltb_Text_trans [] (y ∷ ys) [] h k = ground arith
ltb_Text_trans [] (y ∷ ys) (z ∷ zs) h k = ground arith
ltb_Text_trans (x ∷ xs) [] c h k = ground arith
ltb_Text_trans (x ∷ xs) (y ∷ ys) [] h k = ground arith
ltb_Text_trans (x ∷ xs) (y ∷ ys) (z ∷ zs) h k = ground (arith, ltb_Text_trans xs ys zs)

pub ltb_Text_total : (a b : Text) → ltb_Text a b ≡ false → ltb_Text b a ≡ false → a ≡ b
ltb_Text_total [] [] h k = ground arith
ltb_Text_total [] (y ∷ ys) h k = ground arith
ltb_Text_total (x ∷ xs) [] h k = ground arith
ltb_Text_total (x ∷ xs) (y ∷ ys) h k = ground (arith, ltb_Text_total xs ys)

eqb_Text→eq : (a b : Text) → eqb_Text a b ≡ true → a ≡ b
eqb_Text→eq [] [] h = ground arith
eqb_Text→eq [] (y ∷ ys) h = ground arith
eqb_Text→eq (x ∷ xs) [] h = ground arith
eqb_Text→eq (x ∷ xs) (y ∷ ys) h = ground (arith, eqb_Text→eq xs ys)

eqb_Text_refl : (a : Text) → eqb_Text a a ≡ true
eqb_Text_refl [] = ground arith
eqb_Text_refl (x ∷ xs) = ground (arith, eqb_Text_refl xs)

pub eqb_Text_iff : (a b : Text) → (eqb_Text a b ≡ true) ↔ (a ≡ b)
eqb_Text_iff a b = (eqb_Text→eq a b, λ e. ground (arith, eqb_Text_refl a))
