-- ===== src/Table/Contents/Cells.antt =====
-- The rows of one chunk, and a row more in it.
use dyod_so_se.Chunk
use dyod_so_se.Chunk.Append.{TakesRow, RowAdded}
use dyod_so_se.Chunk.Append
use dyod_so_se.DictionarySegment
use dyod_so_se.AttributeVector
use dyod_so_se.Outcome.{ok}
use dyod_so_se.Prelude.{
  ℕ, ◌^◌, ◌%◌, ◌≡◌, refl, sym, ap, ◌∙◌, Bool, true, false, List, [], ◌∷◌, ◌++◌, Option, none, some,
  map, length, length-map, get_elem?, All, arith,
}
use dyod_so_se.Segment.{Segment, as_dictionary}
use dyod_so_se.Segment
use dyod_so_se.Table.Append.{fresh}
use dyod_so_se.Table.Compress.Rows.{as_dictionary_self}
use dyod_so_se.Table.Contents.{
  Row, Schema, first, rest, column_of, Holds, no_column, values, ids, Converts, no_value, converts,
}
use dyod_so_se.Types.{Platform, DataType, Variant, Value, scalar}
use dyod_so_se.ValueSegment
use dyod_so_se.ValueSegment.Invariant.{cells, accepted, length-cells}
use dyod_so_se.ValueSegment.Reads.{as_variant}
use dyod_so_se.ValueSegment.{ValueSegment, is_nullable}

pub map-append {ℓ κ} :
    {A : Type ℓ} {B : Type κ} (f : A → B) (xs ys : List A) → map f (xs ++ ys) ≡ map f xs ++ map f ys
map-append f [] ys = refl
map-append f (x ∷ xs) ys = ap (◌∷◌ (f x)) (map-append f xs ys)

All-snoc {ℓ κ} :
    {A : Type ℓ} (Q : A → Type κ) (xs : List A) (x : A) → All Q xs → Q x → All Q (xs ++ x ∷ [])
All-snoc Q [] x h q = (q, tt)
All-snoc Q (y ∷ xs) x h q = (h.0, All-snoc Q xs x h.1 q)

module _ (P : Platform) where
  -- as many rows as cells
  pub length-column_of :
      (d : DataType) (rows : List (Row P)) (cs : List (Option (Value P d)))
      → map first rows ≡ column_of P d cs
      → length rows ≡ length cs
  length-column_of d rows cs e =
      sym (length-map rows first) ∙ ap length e ∙ length-map cs (λ c. some (as_variant P d c))

  no_value_segment-as_dictionary :
      (d : DataType) (s : ValueSegment (Value P d))
      → as_dictionary {P = P} d (Segment.value_segment d s) ≡ none
  no_value_segment-as_dictionary DataType.int s = refl
  no_value_segment-as_dictionary DataType.long s = refl
  no_value_segment-as_dictionary DataType.float s = refl
  no_value_segment-as_dictionary DataType.double s = refl
  no_value_segment-as_dictionary DataType.string s = refl

module _ {P : Platform} where
  -- what the first segment tells of the chunk
  abbrev pub Head : Bool → DataType → List (Row P) → List (Segment P) → Type 0
  Head compressed d rows ss =
      (s : Segment P) × (Chunk.get_segment (record { columns = ss }) 0 ≡ ok s)
      × (Chunk.size (record { columns = ss }) ≡ ok (length rows % 2 ^ 32))
      × (elim (as_dictionary d s) [ none ↦ false | some _ ↦ true ] ≡ compressed)

  pub Holds-Head :
      {compressed b : Bool} {d : DataType} {schema : Schema} {rows : List (Row P)}
      {ss : List (Segment P)}
      → Holds compressed ((d, b) ∷ schema) rows ss
      → Head compressed d rows ss
  unfolding Chunk.get_segment Chunk.size Segment.size ValueSegment.size DictionarySegment.size
      AttributeVector.size
  Holds-Head {rows = rows} (values d b s valid nullable column more) = (
    Segment.value_segment d s,
    refl,
    ap ok (
        ap (λ n. n % 2 ^ 32)
          (sym (length-column_of P d rows (cells s) column ∙ length-cells (scalar P d) s valid))),
    rw (no_value_segment-as_dictionary P d s),
  )
  Holds-Head {rows = rows} (ids d b ds w column more) = (
    Segment.dictionary_segment d ds,
    refl,
    ap ok (
        ap (λ n. n % 2 ^ 32)
          (sym (length-column_of P d rows _ column ∙ length-map ds.attribute_vector.ids _))),
    rw (as_dictionary_self P d ds),
  )

  pub get_segment-there :
      (c : Chunk.Chunk P) (k : ℕ) (s : Segment P)
      → get_elem? c.columns k ≡ some s
      → Chunk.get_segment c k ≡ ok s
  unfolding Chunk.get_segment
  get_segment-there c k s e = rw e refl

  -- the size that the chunk reports
  pub size-Holds :
      {compressed : Bool} {schema : Schema} {rows : List (Row P)} {ss : List (Segment P)} (k : ℕ)
      (column : DataType × Bool)
      → Holds compressed schema rows ss
      → get_elem? schema k ≡ some column
      → Chunk.size (record { columns = ss }) ≡ ok (length rows % 2 ^ 32)
  size-Holds {schema = []} k column holds e = cc
  size-Holds {schema = (d, b) ∷ schema} k column holds e =
      let (s, there, size, kind) = Holds-Head holds in size

  pub length-Holds :
      {compressed : Bool} {schema : Schema} {rows : List (Row P)} {ss : List (Segment P)}
      → Holds compressed schema rows ss
      → length ss ≡ length schema
  length-Holds (no_column h) = refl
  length-Holds (values d b s valid nullable column more) = omega (arith, length-Holds more)
  length-Holds (ids d b ds w column more) = omega (arith, length-Holds more)

  pub Holds-TakesRow :
      {schema : Schema} {rows : List (Row P)} {ss : List (Segment P)} {vs : List (Variant P)}
      {row : Row P}
      → Holds false schema rows ss
      → Converts P schema vs row
      → TakesRow vs ss
  Holds-TakesRow (no_column h) no_value = Chunk.Append.no_column
  Holds-TakesRow (values d b s valid nullable column more) (converts _ _ c e row) =
      Chunk.Append.takes d s c valid (rw nullable e) (Holds-TakesRow more row)

  -- the row stands after the others
  pub RowAdded-Holds :
      {schema : Schema} {rows : List (Row P)} {ss ss' : List (Segment P)} {vs : List (Variant P)}
      {row : Row P}
      → Holds false schema rows ss
      → Converts P schema vs row
      → RowAdded vs ss ss'
      → Holds false schema (rows ++ row ∷ []) ss'
  RowAdded-Holds {rows = rows} (no_column h) no_value Chunk.Append.no_column =
      no_column (All-snoc (λ r. r ≡ []) rows [] h refl)
  RowAdded-Holds {rows = rows} (values d b s valid nullable column more)
        (converts {v = v} {row = row} _ _ c e tail) (Chunk.Append.added _ _ s' c' e' grown others) =
      let same : accepted P d (is_nullable s) v ≡ some c = rw nullable e in
      let one : c' ≡ c = cc in
      values d b s' grown.valid (grown.nullable ∙ nullable)
        (map-append first rows _
          ∙ ap (λ xs. xs ++ some (as_variant P d c) ∷ []) column
          ∙ sym (map-append (λ k. some (as_variant P d k)) (cells s) (c ∷ []))
          ∙ ap (column_of P d) (ap (λ k. cells s ++ k ∷ []) (sym one) ∙ sym grown.rows))
        (rw (map-append rest rows ((as_variant P d c ∷ row) ∷ []))
          (RowAdded-Holds more tail others))

  pub fresh-Holds : (schema : Schema) → Holds {P = P} false schema [] (fresh schema)
  unfolding ValueSegment.new is_nullable
  fresh-Holds [] = no_column tt
  fresh-Holds ((d, false) ∷ schema) =
      values d false (ValueSegment.new false) tt refl refl (fresh-Holds schema)
  fresh-Holds ((d, true) ∷ schema) =
      values d true (ValueSegment.new true) tt refl refl (fresh-Holds schema)
