-- ===== src/Table/Columns.antt =====
-- The columns of a table: their definitions, and the accessors by id and by name.
use dyod_so_se.Chunk
use dyod_so_se.Chunk.{Chunk}
use dyod_so_se.Outcome.Laws.{debug_assert-true}
use dyod_so_se.Outcome.{
  ok, throw, undefined, ◌>>=◌, Build, debug, release, duplicate_column, columns_not_well_defined,
  no_such_column, no_such_column_id,
}
use dyod_so_se.Prelude.Text.{Text, eqb_Text, eqb_Text_iff}
use dyod_so_se.Prelude.{
  none, ltb, ltb→lt, Bool-cases, inl, inr, ℕ, zero, suc, ◌+◌, ◌^◌, ◌<◌, ◌≡◌, refl, ap, ◌∙◌, Bool,
  true, false, ◌&&◌, ◌||◌, List, [], ◌∷◌, ◌++◌, some, if◌then◌else◌, length, length-append,
  get_elem?, get_elem?-ge, get_elem?-lt, arith, ◌==◌,
}
use dyod_so_se.Segment.{value_segment}
use dyod_so_se.Table.{
  Table, contains, add_column_definition, check_empty, add_to_first, add_column, column_name,
  find_column, column_id_by_name,
}
use dyod_so_se.Types.{Platform, DataType, resolve_data_type}
use dyod_so_se.ValueSegment.Reads.{get_elem?-below}
use dyod_so_se.ValueSegment

-- no name twice
abbrev pub IsDistinct : List Text → Type 0
IsDistinct [] = Unit
IsDistinct (n ∷ ns) = (contains n ns ≡ false) × IsDistinct ns

pub record HasSchema {P : Platform} (t : Table P) : Type 0 where
  pub distinct : IsDistinct t.column_names
  pub types : length t.column_types ≡ length t.column_names
  pub nullable : length t.column_nullable ≡ length t.column_names

pub contains-append :
    (name n : Text) (ns : List Text)
    → contains name (ns ++ n ∷ []) ≡ (contains name ns || eqb_Text n name)
unfolding contains
contains-append name n [] = ground arith
contains-append name n (k ∷ ks) = ground (arith, contains-append name n ks)

IsDistinct-append :
    (ns : List Text) (n : Text) → IsDistinct ns → contains n ns ≡ false → IsDistinct (ns ++ n ∷ [])
unfolding contains
IsDistinct-append [] n d h = (refl, tt)
IsDistinct-append (k ∷ ks) n d h = (
  ground (arith, contains-append k n ks, d.0, eqb_Text_iff k n, eqb_Text_iff n k),
  IsDistinct-append ks n d.1 (ground arith),
)

contains-get_elem? :
    (ns : List Text) (i : ℕ) (n : Text) → get_elem? ns i ≡ some n → contains n ns ≡ true
unfolding contains
contains-get_elem? [] i n e = cc
contains-get_elem? (k ∷ ks) zero n e = ground (arith, eqb_Text_iff k n)
contains-get_elem? (k ∷ ks) (suc i) n e = ground (arith, contains-get_elem? ks i n)

find_column-position :
    (id : ℕ) (ns : List Text) (i : ℕ) (name : Text)
    → IsDistinct ns
    → get_elem? ns i ≡ some name
    → id + i < 2 ^ 16
    → find_column id ns name ≡ ok (id + i)
unfolding find_column
find_column-position id [] i name d e h = cc
find_column-position id (n ∷ ns) zero name d e h =
    let same : id ≡ id + 0 = omega arith in ground (arith, eqb_Text_iff n name)
find_column-position id (n ∷ ns) (suc i) name d e h =
    let rest = find_column-position (suc id) ns i name d.1 e (omega arith) in
    let other : eqb_Text n name ≡ false =
      ground (arith, contains-get_elem? ns i name e, d.0, eqb_Text_iff n name) in
    let start : (id == 2 ^ 16) ≡ false = ground arith in
    let same : suc id + i ≡ id + suc i = omega arith in rw (start, other) (rest ∙ ap ok same)

find_column-missing :
    (id : ℕ) (ns : List Text) (name : Text)
    → contains name ns ≡ false
    → id + length ns < 2 ^ 16
    → find_column id ns name ≡ throw no_such_column
unfolding find_column contains
find_column-missing id [] name c h = ground arith
find_column-missing id (n ∷ ns) name c h =
    let rest = find_column-missing (suc id) ns name (ground arith) (omega arith) in
    ground (arith, rest)

module _ {P : Platform} (t : Table P) where
  -- In a table with a schema and fewer than 2 ^ 16 columns, `column_id_by_name` takes the name that
  -- `column_name` returns for an id back to the id.
  pub column_id_by_name-column_name :
      (id : ℕ) (name : Text)
      → HasSchema t
      → length t.column_names < 2 ^ 16
      → column_name t id ≡ ok name
      → column_id_by_name t name ≡ ok id
  unfolding column_id_by_name column_name
  column_id_by_name-column_name id name schema small e =
      let there : get_elem? t.column_names id ≡ some name = ground arith in
      let below : id < length t.column_names = get_elem?-below t.column_names id name there in
      let zero_add : 0 + id ≡ id = omega arith in
      find_column-position 0 t.column_names id name schema.distinct there (omega arith)
      ∙ ap ok zero_add

  -- In a table of fewer than 2 ^ 16 columns a name that no column has is refused.
  pub column_id_by_name-missing :
      (name : Text)
      → length t.column_names < 2 ^ 16
      → contains name t.column_names ≡ false
      → column_id_by_name t name ≡ throw no_such_column
  unfolding column_id_by_name
  column_id_by_name-missing name small missing =
      find_column-missing 0 t.column_names name missing (omega arith)

  -- `column_name` returns a name for an id below the number of columns and throws for an id above
  -- it; for the id that equals it, it reads past the end of the vector.
  pub column_name_lem :
      (id : ℕ)
      → column_name t id ≡ elim (get_elem? t.column_names id) [
        | some name ↦ ok name
        | none ↦ if id == length t.column_names then undefined else throw no_such_column_id
      ]
  unfolding column_name
  column_name_lem id = elim (Bool-cases (ltb id (length t.column_names))) [
    | inl below ↦
        let (name, there) = get_elem?-lt t.column_names id (ltb→lt _ _ below) in
        ground (arith, there)
    | inr beyond ↦
        let miss = get_elem?-ge t.column_names id (ground (arith, beyond)) in ground (arith, miss)
  ]

module _ {P : Platform} (build : Build) (t : Table P) (name type : Text) (nullable : Bool) where
  -- the table with the definition of one more column
  abbrev pub defined : Table P
  defined = record t {
    column_names = t.column_names ++ name ∷ [];
    column_types = t.column_types ++ type ∷ [];
    column_nullable = t.column_nullable ++ nullable ∷ [];
  }

  schema_holds :
      HasSchema t
      → (length t.column_names == length t.column_types
          && length t.column_types == length t.column_nullable)
        ≡ true
  schema_holds schema = ground (arith, schema.types, schema.nullable)

  defined-HasSchema : HasSchema t → contains name t.column_names ≡ false → HasSchema defined
  defined-HasSchema schema new = record {
    distinct = IsDistinct-append t.column_names name schema.distinct new;
    types = omega (
      arith,
      length-append t.column_types (type ∷ []),
      length-append t.column_names (name ∷ []),
      schema.types,
    );
    nullable = omega (
      arith,
      length-append t.column_nullable (nullable ∷ []),
      length-append t.column_names (name ∷ []),
      schema.nullable,
    );
  }

  add_column_definition-defined :
      HasSchema t
      → add_column_definition build name type nullable t
        ≡ (if contains name t.column_names then throw duplicate_column else ok defined)
  unfolding add_column_definition
  add_column_definition-defined schema =
      rw (debug_assert-true build _ columns_not_well_defined (schema_holds schema), ◌>>=◌)

  check_empty-ok :
      (c : Chunk P) (cs : List (Chunk P))
      → t.chunks ≡ c ∷ cs
      → Chunk.size c ≡ ok 0
      → check_empty build t ≡ ok tt
  unfolding check_empty
  check_empty-ok c cs e size = go build
    where
      go : (b : Build) → check_empty b t ≡ ok tt
      go debug = rw (e, ◌>>=◌, size)
      go release = refl

  -- what `add_column` does, by whether the name is there
  abbrev pub ColumnAdded : Chunk P → List (Chunk P) → DataType → Bool → Type 0
  ColumnAdded c cs d true = add_column build name type nullable t ≡ throw duplicate_column
  ColumnAdded c cs d false =
      (add_column build name type nullable t
        ≡ ok (record defined {
          chunks = Chunk.add_segment (value_segment d (ValueSegment.new nullable)) c ∷ cs;
        }))
      × HasSchema defined

  column_added :
      (c : Chunk P) (cs : List (Chunk P)) (d : DataType)
      → HasSchema t
      → t.chunks ≡ c ∷ cs
      → Chunk.size c ≡ ok 0
      → resolve_data_type type ≡ some d
      → (there : Bool) → contains name t.column_names ≡ there
      → ColumnAdded c cs d there
  unfolding add_column
  column_added c cs d schema e size resolved true taken =
      rw (check_empty-ok c cs e size, ◌>>=◌, add_column_definition-defined schema, taken)
  column_added c cs d schema e size resolved false free = (
    rw (
      check_empty-ok c cs e size,
      ◌>>=◌,
      add_column_definition-defined schema,
      free,
      resolved,
      e,
      add_to_first,
    ),
    defined-HasSchema schema free,
  )

  -- On a table with a schema whose first chunk is empty, and for a known type, `add_column` refuses
  -- a name that is there; for a new name it appends the definition, adds an empty value segment of
  -- the column's type and nullability to the first chunk, and keeps the schema.
  pub add_column_lem :
      (c : Chunk P) (cs : List (Chunk P)) (d : DataType)
      → HasSchema t
      → t.chunks ≡ c ∷ cs
      → Chunk.size c ≡ ok 0
      → resolve_data_type type ≡ some d
      → ColumnAdded c cs d (contains name t.column_names)
  add_column_lem c cs d schema e size resolved =
      column_added c cs d schema e size resolved (contains name t.column_names) refl
