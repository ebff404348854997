-- ===== src/Table/Append.antt =====
-- `Table::append`: the row goes into the last chunk, or into a new one.
use dyod_so_se.Chunk
use dyod_so_se.Chunk.Append.{TakesRow, RowAdded}
use dyod_so_se.Chunk.Append
use dyod_so_se.Chunk.{Chunk}
use dyod_so_se.Outcome.{ok, ◌>>=◌, Build, subscript}
use dyod_so_se.Prelude.Text.{Text}
use dyod_so_se.Prelude.{
  ℕ, suc, ◌^◌, ◌<◌, ◌≡◌, refl, Bool, true, false, ◌||◌, List, [], ◌∷◌, ◌++◌, none, some, length,
  arith, ◌==◌, if◌then◌else◌,
}
use dyod_so_se.Segment.{Segment, value_segment, as_dictionary}
use dyod_so_se.Table.{
  Table, back, set_back, new_segments, is_dictionary_encoded, with_room, append_to_last, append,
}
use dyod_so_se.Types.{Platform, DataType, Variant, resolve_data_type}
use dyod_so_se.ValueSegment

-- The data types and nullabilities that the definitions of the columns from `i` on spell
abbrev pub Spells : List Text → List Bool → ℕ → List (DataType × Bool) → Type 0
Spells types nullable i [] = Unit
Spells types nullable i ((d, b) ∷ schema) =
    (type : Text) × (subscript types i ≡ ok type)
    × (resolve_data_type type ≡ some d)
    × (subscript nullable i ≡ ok b)
    × Spells types nullable (suc i) schema

back-append {ℓ} : {A : Type ℓ} (xs : List A) (x : A) → back (xs ++ x ∷ []) ≡ ok x
back-append [] x = refl
back-append (y ∷ []) x = refl
back-append (y ∷ z ∷ xs) x = back-append (z ∷ xs) x

set_back-append {ℓ} :
    {A : Type ℓ} (xs : List A) (x y : A) → set_back (xs ++ x ∷ []) y ≡ xs ++ y ∷ []
set_back-append [] x y = refl
set_back-append (w ∷ []) x y = refl
set_back-append (w ∷ z ∷ xs) x y = rw (set_back-append (z ∷ xs) x y)

module _ {P : Platform} where
  -- an empty value segment for each column
  abbrev pub fresh : List (DataType × Bool) → List (Segment P)
  fresh [] = []
  fresh ((d, b) ∷ schema) = value_segment d (ValueSegment.new b) ∷ fresh schema

pub length-fresh :
    (P : Platform) (schema : List (DataType × Bool)) → length (fresh {P = P} schema) ≡ length schema
length-fresh P [] = refl
length-fresh P ((d, b) ∷ schema) = omega (arith, length-fresh P schema)

module _ {P : Platform} where
  pub new_segments-fresh :
      (types : List Text) (nullable : List Bool) (i : ℕ) (schema : List (DataType × Bool))
      → Spells types nullable i schema
      → new_segments {P = P} types (subscript nullable) (length schema) i ≡ ok (fresh schema)
  unfolding new_segments
  new_segments-fresh types nullable i [] h = refl
  new_segments-fresh types nullable i ((d, b) ∷ schema) (type, there, known, null, more) = rw (
    there,
    ◌>>=◌,
    known,
    new_segments,
    null,
    new_segments-fresh types nullable (suc i) schema more,
  )

  append_to_last-RowAdded :
      (build : Build) (values : List (Variant P)) (t : Table P) (before : List (Chunk P))
      (c : Chunk P)
      → t.chunks ≡ before ++ c ∷ []
      → TakesRow values c.columns
      → length c.columns < 2 ^ 16
      → (columns : List (Segment P)) × (append_to_last build values t
          ≡ (ok tt, record t { chunks = before ++ record { columns = columns } ∷ [] }))
        × RowAdded values c.columns columns
  unfolding append_to_last
  append_to_last-RowAdded build values t before c e fits small =
      let (columns, run, grown) = Chunk.Append.append-RowAdded build values c fits small in
      (
        columns,
        rw (
          e,
          back-append before c,
          append_to_last,
          run,
          e,
          set_back-append before c (record { columns = columns }),
        ),
        grown,
      )

  module _ (build : Build) (values : List (Variant P)) (t : Table P) (before : List (Chunk P))
      (c : Chunk P) (last : t.chunks ≡ before ++ c ∷ []) (d : DataType) (b : Bool)
      (schema : List (DataType × Bool))
      (spells : Spells t.column_types t.column_nullable 0 ((d, b) ∷ schema))
      (complete : length t.column_types ≡ suc (length schema)) (s : Segment P)
      (first : Chunk.get_segment c 0 ≡ ok s) (n : ℕ) (size : Chunk.size c ≡ ok n) where
    -- whether the last chunk takes no row
    abbrev pub is_closed : Bool
    is_closed =
        (n == t.target_chunk_size) || elim (as_dictionary d s) [ none ↦ false | some _ ↦ true ]

    abbrev pub extended : Table P
    extended = record t { chunks = t.chunks ++ record { columns = fresh ((d, b) ∷ schema) } ∷ [] }

    with_room-lem : with_room t ≡ (if is_closed then ok extended else ok t)
    unfolding with_room is_dictionary_encoded
    with_room-lem = rw (
      spells.1,
      ◌>>=◌,
      spells.2,
      last,
      back-append before c,
      first,
      size,
      complete,
      new_segments-fresh t.column_types t.column_nullable 0 ((d, b) ∷ schema) spells,
    )

    -- On a table whose column definitions are complete and have known types, whose last chunk has
    -- fewer than 2 ^ 16 columns, the first of them with neither the target size nor a dictionary,
    -- and whose columns are valid value segments that accept the row, `append` succeeds; it adds
    -- the row to the last chunk, one value to each column, and changes no other chunk.
    pub append-last_chunk :
        is_closed ≡ false
        → TakesRow values c.columns
        → length c.columns < 2 ^ 16
        → (columns : List (Segment P)) × (append build values t
            ≡ (ok tt, record t { chunks = before ++ record { columns = columns } ∷ [] }))
          × RowAdded values c.columns columns
    unfolding append
    append-last_chunk still_open fits small =
        let (columns, run, grown) =
          append_to_last-RowAdded build values t before c last fits small in
        (columns, rw (with_room-lem, append, still_open, run), grown)

    -- On a table of fewer than 2 ^ 16 columns whose definitions are complete and have known types
    -- and accept the row, and whose last chunk has the target size or a dictionary as its first
    -- segment, `append` succeeds; it keeps every chunk and adds one of value segments that hold the
    -- row alone.
    pub append-new_chunk :
        is_closed ≡ true
        → TakesRow {P = P} values (fresh ((d, b) ∷ schema))
        → suc (length schema) < 2 ^ 16
        → (columns : List (Segment P)) × (append build values t
            ≡ (ok tt, record t { chunks = t.chunks ++ record { columns = columns } ∷ [] }))
          × RowAdded {P = P} values (fresh ((d, b) ∷ schema)) columns
    unfolding append
    append-new_chunk closed fits small =
        let (columns, run, grown) =
          append_to_last-RowAdded build values extended t.chunks
            (record { columns = fresh ((d, b) ∷ schema) }) refl fits
            (omega (arith, length-fresh P schema, small)) in
        (columns, rw (with_room-lem, append, closed, run), grown)
