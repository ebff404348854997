-- ===== src/Outcome/Laws.antt =====
-- Chains of outcomes.
use dyod_so_se.Prelude.{◌≡◌, refl, Bool, true}
use dyod_so_se.Outcome.{
  Outcome, ok, throw, undefined, ◌>>=◌, Build, debug, release, debug_assert, Error,
}

-- a chain that returns has a first part that returns
pub >>=-returns {ℓ κ} :
    {A : Type ℓ} {B : Type κ} (first : Outcome A) (next : A → Outcome B) (result : B)
    → (first >>= next) ≡ ok result
    → (value : A) × (first ≡ ok value) × (next value ≡ ok result)
>>=-returns undefined next result e = cc
>>=-returns (throw error) next result e = cc
>>=-returns (ok value) next result e = (value, refl, e)

-- chains with equal continuations are equal
pub >>=-continue {ℓ κ} :
    {A : Type ℓ} {B : Type κ} (first : Outcome A) (next other : A → Outcome B)
    → ((value : A) → next value ≡ other value)
    → (first >>= next) ≡ (first >>= other)
>>=-continue undefined next other e = refl
>>=-continue (throw error) next other e = refl
>>=-continue (ok value) next other e = e value

-- A debug assertion whose condition holds does nothing in either build.
pub debug_assert-true :
    (build : Build) (c : Bool) (e : Error) → c ≡ true → debug_assert build c e ≡ ok tt
debug_assert-true debug c e h = rw h
debug_assert-true release c e h = refl
