-- ===== src/StringUtils.antt =====
-- `utils/string_utils.cpp`: splitting at a delimiter, and the trimming of source paths.
pub mod Split
pub mod Trim
use dyod_so_se.Prelude.Text.{Text, text}
use dyod_so_se.Prelude.{
  ℕ, suc, Bool, true, false, ◌&&◌, List, [], ◌∷◌, ◌++◌, Option, none, some, if◌then◌else◌, ◌==◌,
}

-- `trim_all` and `split`, at spaces, are boost's
unfoldable pub trim_and_split : (Text → Text) → (Text → List Text) → Text → List Text
trim_and_split trim_all split input = split (trim_all input)

-- What `std::getline` reads last: nothing, if no character is left.
abbrev last_token : Text → List Text
last_token [] = []
last_token (c ∷ cs) = (c ∷ cs) ∷ []

-- the loop of `getline`, with the part of a token that is read
unfoldable pub tokens_from : ℕ → Text → Text → List Text
tokens_from delimiter token [] = last_token token
tokens_from delimiter token (c ∷ cs) = elim (c == delimiter) [
  | true ↦ token ∷ tokens_from delimiter [] cs
  | false ↦ tokens_from delimiter (token ++ c ∷ []) cs
]

unfoldable pub split_string_by_delimiter : Text → ℕ → List Text
unfolding tokens_from
split_string_by_delimiter str delimiter = tokens_from delimiter [] str

abbrev pub is_prefix : Text → Text → Bool
is_prefix [] s = true
is_prefix (p ∷ ps) [] = false
is_prefix (p ∷ ps) (c ∷ cs) = (p == c) && is_prefix ps cs

-- the text from the first `/src/` on, without its `/`; `none` where `find` returns `npos`
unfoldable pub from_src : Text → Option Text
from_src [] = none
from_src (c ∷ cs) =
    let rest = from_src cs in if is_prefix (text "/src/") (c ∷ cs) then some cs else rest

unfoldable pub trim_source_file_path : Text → Text
unfolding from_src
trim_source_file_path path = elim (from_src path) [ none ↦ path | some rest ↦ rest ]
