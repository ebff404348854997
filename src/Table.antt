-- ===== src/Table.antt =====
-- `storage/table.cpp`. A table holds its chunks; `Table/Compress.antt` has `compress_chunk`.
pub mod Compress
pub mod Append
pub mod RowCount
pub mod Columns
pub mod Contents
use dyod_so_se.Chunk
use dyod_so_se.Chunk.{Chunk}
use dyod_so_se.Outcome.{
  Outcome, ok, throw, undefined, ◌>>=◌, ◌>>◌, Build, debug, release, debug_assert, assert,
  subscript, duplicate_column, no_such_column, no_such_column_id, no_such_chunk,
  columns_not_well_defined, table_not_empty,
}
use dyod_so_se.Prelude.Text.{Text, eqb_Text}
use dyod_so_se.Prelude.{
  ℕ, zero, suc, ◌+◌, ◌^◌, ◌%◌, Bool, true, false, not, ◌&&◌, ◌||◌, List, [], ◌∷◌, ◌++◌, Option,
  none, some, map, if◌then◌else◌, length, set, ltb, leb, ◌==◌,
}
use dyod_so_se.Segment.{Segment, ReferenceSegment, value_segment, reference_segment, as_dictionary}
use dyod_so_se.Types.{Platform, DataType, Variant, Value, resolve_data_type}
use dyod_so_se.ValueSegment

pub record Table (P : Platform) : Type 0 where
  pub chunks : List (Chunk P)
  pub column_names : List Text
  pub column_types : List Text
  pub column_nullable : List Bool
  pub target_chunk_size : ℕ

-- `std::find(…) != end`
unfoldable pub contains : Text → List Text → Bool
contains name [] = false
contains name (n ∷ ns) = eqb_Text n name || contains name ns

-- `v.back()`
abbrev pub back {ℓ} : {A : Type ℓ} → List A → Outcome A
back [] = undefined
back (x ∷ []) = ok x
back (x ∷ y ∷ ys) = back (y ∷ ys)

abbrev pub set_back {ℓ} : {A : Type ℓ} → List A → A → List A
set_back [] a = []
set_back (x ∷ []) a = a ∷ []
set_back (x ∷ y ∷ ys) a = x ∷ set_back (y ∷ ys) a

module _ {P : Platform} where
  -- the constructor from a chunk size
  unfoldable pub new : ℕ → Table P
  new target_chunk_size = record {
    chunks = Chunk.empty ∷ [];
    column_names = [];
    column_types = [];
    column_nullable = [];
    target_chunk_size = target_chunk_size;
  }

  -- the segments for the columns from `i` on: none for a type that is not resolved
  unfoldable pub new_segments : List Text → (ℕ → Outcome Bool) → ℕ → ℕ → Outcome (List (Segment P))
  unfolding ValueSegment.new
  new_segments types nullable zero i = ok []
  new_segments types nullable (suc n) i = do
    type ← subscript types i
    elim (resolve_data_type type) [
      | none ↦ new_segments types nullable n (suc i)
      | some d ↦ do
        b ← nullable i
        rest ← new_segments types nullable n (suc i)
        ok (value_segment d (ValueSegment.new b) ∷ rest)
    ]

  unfoldable pub column_count : Table P → ℕ
  column_count t = length t.column_names % 2 ^ 16

  -- the columns of one output chunk
  unfoldable pub reference_columns : ReferenceSegment → ℕ → ℕ → List (Segment P)
  reference_columns r zero i = []
  reference_columns r (suc n) i =
      reference_segment (record r { referenced_column_id = i }) ∷ reference_columns r n (suc i)

  -- the constructor from reference segments
  unfoldable pub from_references : Table P → List ReferenceSegment → Outcome (Table P)
  unfolding new_segments column_count reference_columns
  from_references other [] = do
    segments ← new_segments other.column_types (λ _. ok false) (column_count other) 0
    ok (record other { chunks = record { columns = segments } ∷ [] })
  from_references other (r ∷ rs) = ok (record other {
    chunks = map (λ q. record { columns = reference_columns q (column_count other) 0 }) (r ∷ rs);
  })

  unfoldable pub add_column_definition : Build → Text → Text → Bool → Table P → Outcome (Table P)
  unfolding contains
  add_column_definition build name type nullable t = do
    debug_assert build
        (length t.column_names == length t.column_types
          && length t.column_types == length t.column_nullable)
        columns_not_well_defined
    if contains name t.column_names
        then throw duplicate_column
        else ok (record t {
          column_names = t.column_names ++ name ∷ [];
          column_types = t.column_types ++ type ∷ [];
          column_nullable = t.column_nullable ++ nullable ∷ [];
        })

  -- `DebugAssert(_chunks[0]->size() == 0, …)`, whose condition a release build does not evaluate
  unfoldable pub check_empty : Build → Table P → Outcome (Unit {0})
  unfolding Chunk.size
  check_empty debug t = do
    c ← subscript t.chunks 0
    n ← Chunk.size c
    assert (n == 0) table_not_empty
  check_empty release t = ok tt

  -- `_chunks[0]->add_segment(…)`
  unfoldable pub add_to_first : Segment P → List (Chunk P) → Outcome (List (Chunk P))
  unfolding Chunk.add_segment
  add_to_first s [] = undefined
  add_to_first s (c ∷ cs) = ok (Chunk.add_segment s c ∷ cs)

  unfoldable pub add_column : Build → Text → Text → Bool → Table P → Outcome (Table P)
  unfolding check_empty add_column_definition add_to_first ValueSegment.new
  add_column build name type nullable t = do
    check_empty build t
    t' ← add_column_definition build name type nullable t
    elim (resolve_data_type type) [
      | none ↦ ok t'
      | some d ↦ do
        chunks ← add_to_first (value_segment d (ValueSegment.new nullable)) t'.chunks
        ok (record t' { chunks = chunks })
    ]

  unfoldable pub create_new_chunk : Table P → Outcome (Table P)
  unfolding new_segments
  create_new_chunk t = do
    segments ← new_segments t.column_types (subscript t.column_nullable) (length t.column_types) 0
    ok (record t { chunks = t.chunks ++ record { columns = segments } ∷ [] })

  -- the first statement of `append`
  unfoldable pub is_dictionary_encoded : Table P → Outcome Bool
  unfolding Chunk.get_segment
  is_dictionary_encoded t = do
    type ← subscript t.column_types 0
    elim (resolve_data_type type) [
      | none ↦ ok false
      | some d ↦ do
        c ← back t.chunks
        s ← Chunk.get_segment c 0
        ok (elim (as_dictionary d s) [ none ↦ false | some _ ↦ true ])
    ]

  -- the table that the row goes into, with a new chunk if the last one is full or compressed
  unfoldable pub with_room : Table P → Outcome (Table P)
  unfolding is_dictionary_encoded create_new_chunk Chunk.size
  with_room t = do
    encoded ← is_dictionary_encoded t
    c ← back t.chunks
    n ← Chunk.size c
    if n == t.target_chunk_size || encoded then create_new_chunk t else ok t

  -- `_chunks.back()->append(values)`
  unfoldable pub append_to_last : Build → List (Variant P) → Table P → Outcome (Unit {0}) × Table P
  unfolding Chunk.append
  append_to_last build values t = elim (back t.chunks) [
    | ok c ↦
        let r = Chunk.append build values c in (r.0, record t { chunks = set_back t.chunks r.1 })
    | throw e ↦ (throw e, t)
    | undefined ↦ (undefined, t)
  ]

  -- the outcome, and the table afterwards, also where it throws
  unfoldable pub append : Build → List (Variant P) → Table P → Outcome (Unit {0}) × Table P
  unfolding with_room append_to_last
  append build values t = elim (with_room t) [
    | ok t' ↦ append_to_last build values t'
    | throw e ↦ (throw e, t)
    | undefined ↦ (undefined, t)
  ]

  -- the loop of `row_count`; its sum has 64 bits
  unfoldable pub row_count_from : ℕ → List (Chunk P) → Outcome ℕ
  unfolding Chunk.size
  row_count_from acc [] = ok acc
  row_count_from acc (c ∷ cs) = do n ← Chunk.size c; row_count_from ((acc + n) % 2 ^ 64) cs

  unfoldable pub row_count : Table P → Outcome ℕ
  unfolding row_count_from
  row_count t = row_count_from 0 t.chunks

  unfoldable pub chunk_count : Table P → ℕ
  chunk_count t = length t.chunks % 2 ^ 32

  unfoldable pub column_name : Table P → ℕ → Outcome Text
  column_name t id =
      if ltb (length t.column_names) id
      then throw no_such_column_id
      else subscript t.column_names id

  unfoldable pub column_type : Table P → ℕ → Outcome Text
  column_type t id =
      if ltb (length t.column_types) id
      then throw no_such_column_id
      else subscript t.column_types id

  unfoldable pub is_column_nullable : Table P → ℕ → Outcome Bool
  is_column_nullable t id =
      if ltb (length t.column_nullable) id
      then throw no_such_column_id
      else subscript t.column_nullable id

  unfoldable pub get_chunk : Table P → ℕ → Outcome (Chunk P)
  unfolding chunk_count
  get_chunk t id = if leb (chunk_count t) id then throw no_such_chunk else subscript t.chunks id

-- The loop of `column_id_by_name`, whose counter has 16 bits: with 2 ^ 16 names or more it starts
-- over and does not end.
unfoldable pub find_column : ℕ → List Text → Text → Outcome ℕ
find_column id [] name = if id == 2 ^ 16 then undefined else throw no_such_column
find_column id (n ∷ ns) name =
    let rest = find_column (suc id) ns name in
    if id == 2 ^ 16 then undefined else if eqb_Text n name then ok id else rest

unfoldable pub column_id_by_name : {P : Platform} → Table P → Text → Outcome ℕ
unfolding find_column
column_id_by_name t name = find_column 0 t.column_names name
