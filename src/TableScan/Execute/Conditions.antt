-- ===== src/TableScan/Execute/Conditions.antt =====
-- Sequences of scans, each on the table that the scan before it made.
use dyod_so_se.Outcome.{ok, Build, subscript}
use dyod_so_se.Prelude.{
  ℕ, ◌^◌, ◌<◌, ◌≡◌, refl, sym, ap, ◌∙◌, Bool, true, false, ◌&&◌, List, [], ◌∷◌, length, inl, inr,
  Bool-cases,
}
use dyod_so_se.Reference.{Store}
use dyod_so_se.Table.Contents.{Row, Schema, Stores}
use dyod_so_se.Table.{Table}
use dyod_so_se.TableScan.Execute.Output.{ReadsRows}
use dyod_so_se.TableScan.Execute.Passing.{filter}
use dyod_so_se.TableScan.Execute.Queries.{
  Query, takes, takes_all, Selection, on_execute-stored, on_execute-Selection, Selection-ReadsRows,
}
use dyod_so_se.TableScan.Execute.{on_execute}
use dyod_so_se.Types.{Platform}
use mathlib.Core.Bool.{Bool-set}
use mathlib.Core.Logic.{∥∥₁_elim}
use mathlib.Core.List.Permᴰ.{nil, cons, swap, trans}
use mathlib.Core.List.{Perm, Permᴰ}

module _ {ℓ} {A : Type ℓ} where
  filter-filter :
      (p q : A → Bool) (xs : List A) → filter p (filter q xs) ≡ filter (λ x. p x && q x) xs
  filter-filter p q [] = refl
  filter-filter p q (x ∷ xs) = elim (Bool-cases (q x)) [
    | inl taken ↦ elim (Bool-cases (p x)) [
      | inl good ↦ rw (taken, filter, good) (ap (◌∷◌ x) (filter-filter p q xs))
      | inr bad ↦ rw (taken, filter, bad) (filter-filter p q xs)
    ]
    | inr left ↦ elim (Bool-cases (p x)) [
      | inl good ↦ rw (left, good) (filter-filter p q xs)
      | inr bad ↦ rw (left, bad) (filter-filter p q xs)
    ]
  ]

  filter-true : (xs : List A) → filter (λ _. true) xs ≡ xs
  filter-true [] = refl
  filter-true (x ∷ xs) = ap (◌∷◌ x) (filter-true xs)

  filter-agree :
      (p q : A → Bool) → ((x : A) → p x ≡ q x) → (xs : List A) → filter p xs ≡ filter q xs
  filter-agree p q same xs = ap (λ f. filter f xs) (λ i x. same x i)

and_left_comm : (a b c : Bool) → (a && (b && c)) ≡ (b && (a && c))
and_left_comm true true c = refl
and_left_comm true false c = refl
and_left_comm false true c = refl
and_left_comm false false c = refl

module _ {P : Platform} (build : Build) (store : Store P) (schema : Schema) where
  takes_all-Permᴰ :
      {qs qs' : List (Query P schema)} (row : Row P)
      → Permᴰ qs qs'
      → takes_all build store schema qs row ≡ takes_all build store schema qs' row
  takes_all-Permᴰ row nil = refl
  takes_all-Permᴰ row (cons e h) =
      λ i. takes build store schema (e i) row && takes_all-Permᴰ row h i
  takes_all-Permᴰ row (swap {a = q} {b = q'} {l = qs} e e') =
      and_left_comm (takes build store schema q row) (takes build store schema q' row)
        (takes_all build store schema qs row)
      ∙ (λ i.
          takes build store schema (e' i) row
          && (takes build store schema (e i) row && takes_all build store schema qs row))
  takes_all-Permᴰ row (trans h h') = takes_all-Permᴰ row h ∙ takes_all-Permᴰ row h'

  takes_all-Perm :
      (qs qs' : List (Query P schema))
      → Perm qs qs'
      → (row : Row P) → takes_all build store schema qs row ≡ takes_all build store schema qs' row
  takes_all-Perm qs qs' same row = ∥∥₁_elim same (Bool-set _ _) (λ h. takes_all-Permᴰ row h)

module _ {P : Platform} (build : Build) (store : Store P) (schema : Schema) (t : Table P)
    (input : ℕ) (rows : List (Row P)) (stored : Stores schema t rows)
    (there : subscript store input ≡ ok t) (few : length t.chunks < 2 ^ 32) where
  -- The table that the scans make, the last scan first: one scan of the stored table, and each
  -- further scan on the table that is made so far, wherever it is kept
  pub data Scanned : List (Query P schema) → Table P → Type 0 where
    first :
        (q : Query P schema) (t' : Table P)
        → on_execute build store q.scan input ≡ ok t'
        → Scanned (q ∷ []) t'
    again :
        (q : Query P schema) (qs : List (Query P schema)) (t' t'' : Table P) (a : ℕ)
        → Scanned qs t'
        → subscript store a ≡ ok t'
        → on_execute build store q.scan a ≡ ok t''
        → Scanned (q ∷ qs) t''

  selected_by_all :
      (qs : List (Query P schema)) (t' : Table P)
      → Scanned qs t'
      → Selection build store schema t input rows stored there few t'
          (filter (takes_all build store schema qs) rows)
  selected_by_all [] _ scans = elim scans [ ]
  selected_by_all (_ ∷ []) _ (first q t' run) =
      let (made, run', selection) =
        on_execute-stored build store schema t input rows stored there few q in
      let same : t' ≡ made = cc in
      let all : filter (takes_all build store schema (q ∷ [])) rows
          ≡ filter (takes build store schema q) rows =
        sym (filter-filter (takes build store schema q) (λ _. true) rows)
        ∙ ap (filter (takes build store schema q)) (filter-true rows) in
      rw (same, all) selection
  selected_by_all (_ ∷ _) _ (again q qs t' t'' a before at run) =
      let selected : List (Row P) = filter (takes_all build store schema qs) rows in
      let (made, run', selection) =
        on_execute-Selection build store schema t input rows stored there few q t' selected a
          (selected_by_all qs t' before) at in
      let same : t'' ≡ made = cc in
      let all : filter (takes_all build store schema (q ∷ qs)) rows
          ≡ filter (takes build store schema q) selected =
        sym (filter-filter (takes build store schema q) (takes_all build store schema qs) rows) in
      rw (same, all) selection

  -- A query with several conditions finds the rows that meet all of them. A table that is made from
  -- a stored table of fewer than 2 ^ 32 chunks by one scan after another, each of the output of the
  -- one before and with a search value that is not null and casts to the type of its column, which
  -- has a lawful order, is a table of reference segments into the stored table, whose positions
  -- name, in order, exactly the rows that every scan takes; it reads as these rows where a value is
  -- not null.
  pub Scanned-Selection :
      (qs : List (Query P schema)) (t' : Table P)
      → Scanned qs t'
      → (s : Selection build store schema t input rows stored there few t'
          (filter (takes_all build store schema qs) rows))
        × ReadsRows build store t input schema rows stored there few t' s.found
  Scanned-Selection qs t' scans =
      let s = selected_by_all qs t' scans in
      (s, Selection-ReadsRows build store schema t input rows stored there few t' _ s)

module _ {P : Platform} (build : Build) (store : Store P) (schema : Schema) (rows : List (Row P))
    (t u : Table P) (input other : ℕ) (stored : Stores schema t rows) (kept : Stores schema u rows)
    (there : subscript store input ≡ ok t) (there' : subscript store other ≡ ok u)
    (few : length t.chunks < 2 ^ 32) (few' : length u.chunks < 2 ^ 32) where
  -- Neither the order of the conditions nor the way in which a table stores its rows matters to a
  -- query. Two tables of fewer than 2 ^ 32 chunks that store the same rows, however they are split
  -- into chunks and whichever of these are compressed, and one scan after another from each, with
  -- the same scans in any order, each with a search value that is not null and casts to the type of
  -- its column, which has a lawful order, give two tables that select the same rows in the same
  -- order, each from its own table.
  pub Scanned-SameRows :
      (qs qs' : List (Query P schema)) (t' u' : Table P)
      → Scanned build store schema t input rows stored there few qs t'
      → Scanned build store schema u other rows kept there' few' qs' u'
      → Perm qs qs'
      → (selected : List (Row P)) × Selection build store schema t input rows stored there few t'
          selected
        × Selection build store schema u other rows kept there' few' u' selected
  Scanned-SameRows qs qs' t' u' scans scans' same =
      let agree = filter-agree _ _ (takes_all-Perm build store schema qs qs' same) rows in
      (
        filter (takes_all build store schema qs) rows,
        (Scanned-Selection build store schema t input rows stored there few qs t' scans).0,
        rw agree
            ((Scanned-Selection build store schema u other rows kept there' few' qs' u' scans').0),
      )
