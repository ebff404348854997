-- ===== src/StringUtils/Trim.antt =====
-- Where `trim_source_file_path` cuts.
use dyod_so_se.Prelude.Text.{Text, text}
use dyod_so_se.Prelude.{
  ℕ, ◌≤◌, ◌≡◌, refl, sym, ap, ◌∙◌, true, false, inl, inr, [], ◌∷◌, ◌++◌, Option, none, some, length,
  arith, Bool-cases,
}
use dyod_so_se.StringUtils.{is_prefix, from_src, trim_source_file_path}

abbrev pub src : Text
src = text "/src/"

is_prefix-append : (p r : Text) → is_prefix p (p ++ r) ≡ true
is_prefix-append [] r = refl
is_prefix-append (c ∷ p) r = ground (arith, is_prefix-append p r)

is_prefix-rest : (p s : Text) → is_prefix p s ≡ true → (r : Text) × (s ≡ p ++ r)
is_prefix-rest [] s h = (s, refl)
is_prefix-rest (c ∷ p) [] h = cc
is_prefix-rest (c ∷ p) (d ∷ s) h =
    let (r, e) = is_prefix-rest p s (ground (arith, h)) in
    let same : c ≡ d = ground (arith, h) in (r, rw (sym same) (ap (◌∷◌ c) e))

-- The text behind the `/` of the first `/src/` of a path, or no `/src/` in it
abbrev pub CutsAt : Text → Option Text → Type 0
CutsAt path none = (before after : Text) → path ≡ before ++ (src ++ after) → ⊥
CutsAt path (some cut) =
    (before : Text) × (after : Text) × (path ≡ before ++ (src ++ after))
    × (cut ≡ text "src/" ++ after)
    × ((before' after' : Text) → path ≡ before' ++ (src ++ after') → length before ≤ length before')

-- one character more in front, at which no `/src/` starts
CutsAt-later :
    (c : ℕ) (cs : Text) (o : Option Text)
    → is_prefix src (c ∷ cs) ≡ false
    → CutsAt cs o
    → CutsAt (c ∷ cs) o
CutsAt-later c cs none other h = nowhere
  where
    nowhere : (before after : Text) → c ∷ cs ≡ before ++ (src ++ after) → ⊥
    nowhere [] after e =
        let starts = is_prefix-append src after in
        let same : is_prefix src (c ∷ cs) ≡ true = ap (is_prefix src) e ∙ starts in cc
    nowhere (b ∷ before) after e = h before after (cc)
CutsAt-later c cs (some cut) other (before, after, e, same, least) =
    (c ∷ before, after, ap (◌∷◌ c) e, same, earliest)
  where
    earliest :
        (before' after' : Text)
        → c ∷ cs ≡ before' ++ (src ++ after')
        → length (c ∷ before) ≤ length before'
    earliest [] after' e' =
        let starts = is_prefix-append src after' in
        let same : is_prefix src (c ∷ cs) ≡ true = ap (is_prefix src) e' ∙ starts in cc
    earliest (b ∷ before') after' e' = omega (arith, least before' after' (cc))

from_src-CutsAt : (path : Text) → CutsAt path (from_src path)
unfolding from_src
from_src-CutsAt [] = nowhere
  where
    nowhere : (before after : Text) → [] ≡ before ++ (src ++ after) → ⊥
    nowhere [] after e = cc
    nowhere (b ∷ before) after e = cc
from_src-CutsAt (c ∷ cs) = elim (Bool-cases (is_prefix src (c ∷ cs))) [
  | inl here ↦
      let (r, e) = is_prefix-rest src (c ∷ cs) here in
      rw here ([], r, e, cc, λ before' after' e'. omega arith)
  | inr other ↦ rw other (CutsAt-later c cs (from_src cs) other (from_src-CutsAt cs))
]

abbrev pub Trimmed : Text → Option Text → Text → Type 0
Trimmed path none result = result ≡ path
Trimmed path (some cut) result = result ≡ cut

-- `trim_source_file_path` returns a path without `/src/` as it is; of any other it returns the part
-- from the first `/src/` on, without its `/`.
pub trim_source_file_path-CutsAt :
    (path : Text) → (o : Option Text) × CutsAt path o × Trimmed path o (trim_source_file_path path)
unfolding trim_source_file_path
trim_source_file_path-CutsAt path = (from_src path, from_src-CutsAt path, go (from_src path) refl)
  where
    go :
        (o : Option Text)
        → from_src path ≡ o
        → Trimmed path o (elim o [ none ↦ path | some cut ↦ cut ])
    go none e = refl
    go (some cut) e = refl
