-- ===== src/StrongTypedef.antt =====
-- The types that `STRONG_TYPEDEF` of `strong_typedef.hpp` makes: a value of another type, with the
-- operators that the macro writes out. Those that boost derives from them are boost's.
use dyod_so_se.Prelude.{ℕ, Bool, true, false, ◌≡◌, ◌↔◌, refl, ap}
use dyod_so_se.Prelude.Text.{Text}
use dyod_so_se.Scalar.{Scalar, IsLawful}

pub record StrongTypedef (T : Type 0) : Type 0 where
  pub t : T

module _ {T : Type 0} where
  -- the explicit constructor
  unfoldable pub of_base : T → StrongTypedef T
  of_base t_ = record { t = t_ }

  -- `operator=` with a value of the enclosed type
  unfoldable pub assigned : StrongTypedef T → T → StrongTypedef T
  assigned d other = record d { t = other }

  -- the conversion operators, as they are read
  unfoldable pub to_base : StrongTypedef T → T
  to_base d = d.t

  -- `operator<<`, with the text of the enclosed type
  unfoldable pub shown : (T → Text) → StrongTypedef T → Text
  shown text_of d = text_of d.t

  -- `std::hash`, with the hash of the enclosed type
  unfoldable pub std_hash : (T → ℕ) → StrongTypedef T → ℕ
  unfolding to_base
  std_hash hash x = hash (to_base x)

  unfoldable pub hash_value : (T → ℕ) → StrongTypedef T → ℕ
  unfolding std_hash
  hash_value hash d = std_hash hash d

  -- `std::numeric_limits`, with those of the enclosed type
  unfoldable pub min_limit : T → StrongTypedef T
  unfolding of_base
  min_limit least = of_base least

  unfoldable pub max_limit : T → StrongTypedef T
  unfolding of_base
  max_limit greatest = of_base greatest

  module _ (o : Scalar T) where
    -- the default constructor
    unfoldable pub default_of : StrongTypedef T
    default_of = record { t = o.default_value }

    unfoldable pub equal : StrongTypedef T → StrongTypedef T → Bool
    equal a b = o.equal a.t b.t

    unfoldable pub less : StrongTypedef T → StrongTypedef T → Bool
    less a b = o.less a.t b.t

    -- The wrapped type has the order and the equality of the enclosed one, and a value goes through
    -- it unchanged.
    pub record IsFaithful : Type 0 where
      pub irreflexive : (a : StrongTypedef T) → less a a ≡ false
      pub transitive :
          (a b c : StrongTypedef T) → less a b ≡ true → less b c ≡ true → less a c ≡ true
      pub total : (a b : StrongTypedef T) → less a b ≡ false → less b a ≡ false → a ≡ b
      pub equal_iff : (a b : StrongTypedef T) → (equal a b ≡ true) ↔ (a ≡ b)
      pub round_trip : (d : StrongTypedef T) (x : T) → to_base (assigned d x) ≡ to_base (of_base x)

    order-IsFaithful : IsLawful o → IsFaithful
    unfolding equal less to_base assigned of_base
    order-IsFaithful laws = record {
      irreflexive = λ a. laws.less_irrefl a.t;
      transitive = λ a b c h k. laws.less_trans a.t b.t c.t h k;
      total = λ a b h k. ap of_base (laws.less_total a.t b.t h k);
      equal_iff = λ a b. (
        λ h. ap of_base ((laws.equal_iff a.t b.t).0 h),
        λ e. (laws.equal_iff a.t b.t).1 (ap (λ d. d.t) e),
      );
      round_trip = λ d x. refl;
    }
