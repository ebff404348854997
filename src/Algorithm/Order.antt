-- ===== src/Algorithm/Order.antt =====
-- Membership and order of lists of values.
use dyod_so_se.Prelude.{
  ℕ, zero, suc, ◌≡◌, refl, true, false, List, [], ◌∷◌, ◌⊎◌, inl, inr, All, some, get_elem?, arith,
}
use dyod_so_se.Scalar.{Scalar, IsLawful}

module _ {T : Type 0} where
  abbrev pub In : T → List T → Type 0
  In x [] = ⊥
  In x (y ∷ ys) = (x ≡ y) ⊎ In x ys

  pub All-In : (P : T → Type 0) (x : T) (xs : List T) → All P xs → In x xs → P x
  All-In P x [] a i = absurd i
  All-In P x (y ∷ ys) a (inl e) = rw e a.0
  All-In P x (y ∷ ys) a (inr i) = All-In P x ys a.1 i

  pub In-All : (P : T → Type 0) (xs : List T) → ((x : T) → In x xs → P x) → All P xs
  In-All P [] h = tt
  In-All P (y ∷ ys) h = (h y (inl refl), In-All P ys (λ x i. h x (inr i)))

  pub All-mono : (P Q : T → Type 0) (xs : List T) → ((x : T) → P x → Q x) → All P xs → All Q xs
  All-mono P Q [] h a = tt
  All-mono P Q (y ∷ ys) h a = (h y a.0, All-mono P Q ys h a.1)

  pub In-get_elem? : (xs : List T) (i : ℕ) (x : T) → get_elem? xs i ≡ some x → In x xs
  In-get_elem? [] i x h = cc
  In-get_elem? (y ∷ ys) zero x h = inl (cc)
  In-get_elem? (y ∷ ys) (suc i) x h = inr (In-get_elem? ys i x h)

module _ {T : Type 0} (o : Scalar T) where
  -- Ascending, with no two elements equal
  abbrev pub IsStrict : List T → Type 0
  IsStrict [] = Unit
  IsStrict (x ∷ xs) = All (λ y. o.less x y ≡ true) xs × IsStrict xs

  -- Ascending
  abbrev pub IsSorted : List T → Type 0
  IsSorted [] = Unit
  IsSorted (x ∷ xs) = All (λ y. o.less y x ≡ false) xs × IsSorted xs

  module _ (laws : IsLawful o) where
    pub less_asymm : (a b : T) → o.less a b ≡ true → o.less b a ≡ false
    less_asymm a b h = ground (arith, laws.less_trans a b a, laws.less_irrefl a)

    -- a ≤ b and b ≤ c, as negated tests
    pub not_less_trans : (a b c : T) → o.less b a ≡ false → o.less c b ≡ false → o.less c a ≡ false
    not_less_trans a b c h k =
        ground (arith, laws.less_trans c a b, laws.less_total a b, laws.less_trans b c a)
