-- ===== src/StringUtils/Split.antt =====
-- Splitting the text that joins tokens at a delimiter.
use dyod_so_se.Prelude.Text.{Text}
use dyod_so_se.Prelude.{
  ℕ, ◌≡◌, ◌≢◌, refl, ap, ◌∙◌, sym, true, false, List, [], ◌∷◌, ◌++◌, All, arith, ◌==◌,
}
use dyod_so_se.StringUtils.{last_token, tokens_from, split_string_by_delimiter}
use mathlib.Core.List.{append-nil, append_assoc}

-- the tokens with the delimiter between them
unfoldable pub join : ℕ → List Text → Text
join d [] = []
join d (t ∷ []) = t
join d (t ∷ u ∷ us) = t ++ (d ∷ join d (u ∷ us))

-- the tokens with the delimiter after each of them
pub terminated : ℕ → List Text → Text
terminated d [] = []
terminated d (t ∷ ts) = t ++ (d ∷ terminated d ts)

-- no token contains the delimiter
abbrev pub AreFree : ℕ → List Text → Type 0
AreFree d ts = All (λ t. All (λ c. c ≢ d) t) ts

abbrev pub EndsInText : List Text → Type 0
EndsInText [] = Unit
EndsInText (t ∷ []) = t ≢ []
EndsInText (t ∷ u ∷ us) = EndsInText (u ∷ us)

tokens_from-free :
    (d : ℕ) (token t rest : Text)
    → All (λ c. c ≢ d) t
    → tokens_from d token (t ++ rest) ≡ tokens_from d (token ++ t) rest
unfolding tokens_from
tokens_from-free d token [] rest f = rw (append-nil token)
tokens_from-free d token (c ∷ cs) rest f =
    let other : (c == d) ≡ false = ground (arith, f.0) in
    rw (other, tokens_from)
      (tokens_from-free d (token ++ c ∷ []) cs rest f.1
        ∙ ap (λ t. tokens_from d t rest) (append_assoc token (c ∷ []) cs))

tokens_from-delimiter :
    (d : ℕ) (token rest : Text) → tokens_from d token (d ∷ rest) ≡ token ∷ tokens_from d [] rest
unfolding tokens_from
tokens_from-delimiter d token rest =
    let same : (d == d) ≡ true = ground arith in rw (same, tokens_from)

last_token-text : (t : Text) → t ≢ [] → last_token t ≡ t ∷ []
last_token-text [] h = absurd (h refl)
last_token-text (c ∷ cs) h = refl

pub tokens_from-join :
    (d : ℕ) (ts : List Text) → AreFree d ts → EndsInText ts → tokens_from d [] (join d ts) ≡ ts
unfolding tokens_from join
tokens_from-join d [] f e = refl
tokens_from-join d (t ∷ []) f e =
    let whole : t ++ [] ≡ t = append-nil t in
    let read = tokens_from-free d [] t [] f.0 in
    sym (ap (tokens_from d []) whole) ∙ read ∙ last_token-text t e
tokens_from-join d (t ∷ u ∷ us) f e =
    tokens_from-free d [] t (d ∷ join d (u ∷ us)) f.0
    ∙ tokens_from-delimiter d t (join d (u ∷ us))
    ∙ ap (◌∷◌ t) (tokens_from-join d (u ∷ us) f.1 e)

-- Splitting gives back the tokens that a text was joined from, where no token has the delimiter in
-- it and the last token, if there is one, is not empty.
pub split_string_by_delimiter-join :
    (d : ℕ) (ts : List Text)
    → AreFree d ts
    → EndsInText ts
    → split_string_by_delimiter (join d ts) d ≡ ts
unfolding split_string_by_delimiter
split_string_by_delimiter-join d ts f e = tokens_from-join d ts f e

-- the tokens of a text that is joined from tokens and ends in a delimiter
pub tokens_from-terminated :
    (d : ℕ) (ts : List Text) → AreFree d ts → tokens_from d [] (terminated d ts) ≡ ts
unfolding tokens_from terminated
tokens_from-terminated d [] f = refl
tokens_from-terminated d (t ∷ ts) f =
    tokens_from-free d [] t (d ∷ terminated d ts) f.0
    ∙ tokens_from-delimiter d t (terminated d ts)
    ∙ ap (◌∷◌ t) (tokens_from-terminated d ts f.1)

-- Where each token, none of which has the delimiter in it, is followed by the delimiter, splitting
-- gives the tokens and no empty one after the last delimiter.
pub split_string_by_delimiter-terminated :
    (d : ℕ) (ts : List Text) → AreFree d ts → split_string_by_delimiter (terminated d ts) d ≡ ts
unfolding split_string_by_delimiter
split_string_by_delimiter-terminated d ts f = tokens_from-terminated d ts f
