-- ===== src/Table/Contents/Created.antt =====
-- A new table and the columns added to it: it stores no row.
use dyod_so_se.Chunk
use dyod_so_se.Outcome.{ok, Build, subscript}
use dyod_so_se.Prelude.Text.{Text}
use dyod_so_se.Prelude.{
  ℕ, zero, suc, ◌+◌, ◌^◌, ◌<◌, ◌≡◌, refl, ap, Bool, false, List, [], ◌∷◌, ◌++◌, some, length,
  length-append, get_elem?, arith,
}
use dyod_so_se.Segment.{Segment, value_segment}
use dyod_so_se.Segment
use dyod_so_se.Table
use dyod_so_se.Table.Append.{Spells, fresh}
use dyod_so_se.Table.Columns.{defined, add_column_lem}
use dyod_so_se.Table.Contents.Cells.{fresh-Holds}
use dyod_so_se.Table.Contents.{Schema, Stores, ChunksHold, no_chunk, chunk}
use dyod_so_se.Table.{Table, contains, add_column}
use dyod_so_se.Types.{Platform, DataType, resolve_data_type}
use dyod_so_se.ValueSegment

get_elem?-append_some {ℓ} :
    {A : Type ℓ} (xs ys : List A) (i : ℕ) (a : A)
    → get_elem? xs i ≡ some a
    → get_elem? (xs ++ ys) i ≡ some a
get_elem?-append_some [] ys i a e = cc
get_elem?-append_some (x ∷ xs) ys zero a e = e
get_elem?-append_some (x ∷ xs) ys (suc i) a e = get_elem?-append_some xs ys i a e

get_elem?-append_last {ℓ} :
    {A : Type ℓ} (xs : List A) (x : A) (i : ℕ) → length xs ≡ i → get_elem? (xs ++ x ∷ []) i ≡ some x
get_elem?-append_last [] x zero e = refl
get_elem?-append_last [] x (suc i) e = absurd (omega (arith, e))
get_elem?-append_last (y ∷ xs) x zero e = absurd (omega (arith, e))
get_elem?-append_last (y ∷ xs) x (suc i) e = get_elem?-append_last xs x i (omega (arith, e))

subscript-some {ℓ} :
    {A : Type ℓ} (xs : List A) (i : ℕ) (a : A) → subscript xs i ≡ ok a → get_elem? xs i ≡ some a
subscript-some [] i a e = cc
subscript-some (x ∷ xs) zero a e = cc
subscript-some (x ∷ xs) (suc i) a e = subscript-some xs i a e

subscript-append {ℓ} :
    {A : Type ℓ} (xs ys : List A) (i : ℕ) (a : A)
    → subscript xs i ≡ ok a
    → subscript (xs ++ ys) i ≡ ok a
subscript-append xs ys i a e = rw (get_elem?-append_some xs ys i a (subscript-some xs i a e))

-- one more definition at the end
Spells-append :
    (types : List Text) (nullable : List Bool) (i : ℕ) (schema : Schema) (type : Text)
    (d : DataType) (b : Bool)
    → Spells types nullable i schema
    → length types ≡ i + length schema
    → length nullable ≡ i + length schema
    → resolve_data_type type ≡ some d
    → Spells (types ++ type ∷ []) (nullable ++ b ∷ []) i (schema ++ (d, b) ∷ [])
Spells-append types nullable i [] type d b h size size' known = (
  type,
  rw (get_elem?-append_last types type i (omega (arith, size))),
  known,
  rw (get_elem?-append_last nullable b i (omega (arith, size'))),
  tt,
)
Spells-append types nullable i ((k, n) ∷ schema) type d b (text, typed, resolved, null, more) size
      size' known =
    (
      text,
      subscript-append types (type ∷ []) i text typed,
      resolved,
      subscript-append nullable (b ∷ []) i n null,
      Spells-append types nullable (suc i) schema type d b more (omega (arith, size))
          (omega (arith, size')) known,
    )

fresh-size :
    (P : Platform) (schema : Schema) → Chunk.size {P = P} (record { columns = fresh schema }) ≡ ok 0
unfolding Chunk.size Segment.size ValueSegment.size ValueSegment.new
fresh-size P [] = refl
fresh-size P ((k, n) ∷ schema) = refl

module _ {P : Platform} where
  fresh-append :
      (schema : Schema) (d : DataType) (b : Bool)
      → fresh {P = P} (schema ++ (d, b) ∷ [])
        ≡ fresh schema ++ value_segment d (ValueSegment.new b) ∷ []
  fresh-append [] d b = refl
  fresh-append ((k, n) ∷ schema) d b =
      ap (◌∷◌ (value_segment k (ValueSegment.new n))) (fresh-append schema d b)

  -- a table of one chunk, whose segments have no value
  abbrev pub StoresNothing : Schema → Table P → Type 0
  StoresNothing schema t = (t.chunks ≡ record { columns = fresh schema } ∷ []) × Stores schema t []

  pub fresh_chunk-ChunksHold :
      (schema : Schema) (target : ℕ)
      → ChunksHold {P = P} schema target (record { columns = fresh schema } ∷ []) ([] ∷ [])
  fresh_chunk-ChunksHold schema target = chunk false (fresh-Holds schema) (omega arith) no_chunk

  -- The table that the constructor makes for a chunk size that is positive and fits 32 bits stores
  -- no row.
  pub new-StoresNothing :
      (target : ℕ) → 0 < target → target < 2 ^ 32 → StoresNothing [] (Table.new target)
  unfolding Table.new
  new-StoresNothing target positive small = (
    refl,
    record {
      named = record { distinct = tt; types = refl; nullable = refl };
      spells = tt;
      complete = refl;
      narrow = omega arith;
      positive = positive;
      bounded = small;
      parts = [] ∷ [];
      chunks = fresh_chunk-ChunksHold [] target;
      contents = refl;
      before = [];
      last_chunk = Chunk.empty;
      last = refl;
    },
  )

  -- On a table that has columns and stores no row, in one chunk, `add_column` of a new name and a
  -- known type succeeds, as long as the columns stay below 2 ^ 16, and the table has the column
  -- behind the others and stores no row.
  pub add_column-StoresNothing :
      (build : Build) (name type : Text) (b : Bool) (d : DataType) (schema : Schema) (t : Table P)
      → StoresNothing schema t
      → contains name t.column_names ≡ false
      → resolve_data_type type ≡ some d
      → suc (length schema) < 2 ^ 16
      → (t' : Table P) × (add_column build name type b t ≡ ok t')
        × (t'.column_names ≡ t.column_names ++ name ∷ [])
        × (t'.column_types ≡ t.column_types ++ type ∷ [])
        × StoresNothing (schema ++ (d, b) ∷ []) t'
  unfolding Chunk.add_segment
  add_column-StoresNothing build name type b d schema t (one, stored) free known few =
      let added = rw free at (
        add_column_lem build t name type b (record { columns = fresh schema }) [] d stored.named one
          (fresh-size P schema) known) in
      let after : Table P = record (defined build t name type b) {
        chunks = record { columns = fresh (schema ++ (d, b) ∷ []) } ∷ [];
      } in
      (
        after,
        rw (fresh-append schema d b) added.0,
        refl,
        refl,
        (
          refl,
          record {
            named = record {
              distinct = added.1.distinct;
              types = added.1.types;
              nullable = added.1.nullable;
            };
            spells =
                Spells-append t.column_types t.column_nullable 0 schema type d b stored.spells
                  (omega (arith, stored.complete))
                  (omega (arith, stored.complete, stored.named.types, stored.named.nullable)) known;
            complete = omega (
              arith,
              stored.complete,
              length-append t.column_types (type ∷ []),
              length-append schema ((d, b) ∷ []),
            );
            narrow = omega (arith, few, length-append schema ((d, b) ∷ []));
            positive = stored.positive;
            bounded = stored.bounded;
            parts = [] ∷ [];
            chunks = fresh_chunk-ChunksHold (schema ++ (d, b) ∷ []) t.target_chunk_size;
            contents = refl;
            before = [];
            last_chunk = record { columns = fresh (schema ++ (d, b) ∷ []) };
            last = refl;
          },
        ),
      )
