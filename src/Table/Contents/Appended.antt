-- ===== src/Table/Contents/Appended.antt =====
-- `Table::append` on the rows that a table stores.
use dyod_so_se.Chunk
use dyod_so_se.Chunk.{Chunk}
use dyod_so_se.Outcome.{ok, Build}
use dyod_so_se.Prelude.{
  ℕ, ◌^◌, ◌%◌, ◌<◌, ◌≤◌, ◌≡◌, refl, sym, ap, ◌∙◌, Bool, true, false, ◌==◌, inl, inr, List, [], ◌∷◌,
  ◌++◌, none, some, length, length-append, arith, Bool-cases,
}
use dyod_so_se.Segment.{Segment, as_dictionary}
use dyod_so_se.Table.Append.{is_closed, append-last_chunk, append-new_chunk}
use dyod_so_se.Table.Contents.Cells.{
  Holds-Head, length-Holds, Holds-TakesRow, RowAdded-Holds, fresh-Holds,
}
use dyod_so_se.Table.Contents.{
  Row, Schema, concat, Holds, ChunksHold, no_chunk, chunk, Stores, Converts,
}
use dyod_so_se.Table.{Table, append}
use dyod_so_se.Types.{Platform, DataType, Variant}

module _ {ℓ} {A : Type ℓ} where
  pub append_assoc : (xs ys zs : List A) → (xs ++ ys) ++ zs ≡ xs ++ (ys ++ zs)
  append_assoc [] ys zs = refl
  append_assoc (x ∷ xs) ys zs = ap (◌∷◌ x) (append_assoc xs ys zs)

  pub append_nil : (xs : List A) → xs ++ [] ≡ xs
  append_nil [] = refl
  append_nil (x ∷ xs) = ap (◌∷◌ x) (append_nil xs)

  -- a part that is the last one
  pub concat-last :
      (xss : List (List A)) (xs ys : List A)
      → concat (xss ++ (xs ++ ys) ∷ []) ≡ concat (xss ++ xs ∷ []) ++ ys
  concat-last [] xs ys = append_nil (xs ++ ys) ∙ ap (λ zs. zs ++ ys) (sym (append_nil xs))
  concat-last (zs ∷ xss) xs ys =
      ap (λ k. zs ++ k) (concat-last xss xs ys) ∙ sym (append_assoc zs (concat (xss ++ xs ∷ [])) ys)

  pub concat-new : (xss : List (List A)) (ys : List A) → concat (xss ++ ys ∷ []) ≡ concat xss ++ ys
  concat-new [] ys = append_nil ys
  concat-new (zs ∷ xss) ys =
      ap (λ k. zs ++ k) (concat-new xss ys) ∙ sym (append_assoc zs (concat xss) ys)

module _ {P : Platform} (schema : Schema) (target : ℕ) where
  -- the chunks before the last one, and the last one
  abbrev Split : List (Chunk P) → Chunk P → List (List (Row P)) → Type 0
  Split before c parts =
      (firsts : List (List (Row P))) × (part : List (Row P)) × (compressed : Bool) × (parts
        ≡ firsts ++ part ∷ [])
      × ChunksHold schema target before firsts
      × Holds compressed schema part c.columns
      × (length part ≤ target)

  ChunksHold-Split :
      (before : List (Chunk P)) (c : Chunk P) (parts : List (List (Row P)))
      → ChunksHold schema target (before ++ c ∷ []) parts
      → Split before c parts
  ChunksHold-Split [] c (part ∷ []) (chunk k holds small no_chunk) =
      ([], part, k, refl, no_chunk, holds, small)
  ChunksHold-Split [] c [] h = elim h [ ]
  ChunksHold-Split [] c (part ∷ _ ∷ parts) (chunk k holds small more) = elim more [ ]
  ChunksHold-Split (b ∷ before) c [] h = elim h [ ]
  ChunksHold-Split (b ∷ before) c (part ∷ parts) (chunk k holds small more) =
      let (firsts, last, k', e, others, holds', small') = ChunksHold-Split before c parts more in
      (part ∷ firsts, last, k', ap (◌∷◌ part) e, chunk k holds small others, holds', small')

  pub join_last :
      (before : List (Chunk P)) (c : Chunk P) (firsts : List (List (Row P))) (part : List (Row P))
      (compressed : Bool)
      → ChunksHold schema target before firsts
      → Holds compressed schema part c.columns
      → length part ≤ target
      → ChunksHold schema target (before ++ c ∷ []) (firsts ++ part ∷ [])
  join_last [] c [] part k no_chunk holds small = chunk k holds small no_chunk
  join_last [] c (p ∷ firsts) part k h holds small = elim h [ ]
  join_last (b ∷ before) c [] part k h holds small = elim h [ ]
  join_last (b ∷ before) c (p ∷ firsts) part k (chunk k' holds' small' more) holds small =
      chunk k' holds' small' (join_last before c firsts part k more holds small)

-- the same table with other chunks
pub with_chunks :
    {P : Platform} (schema : Schema) (t : Table P) (rows rows' : List (Row P))
    → Stores schema t rows
    → (before : List (Chunk P)) (c : Chunk P) (cs : List (Chunk P)) (parts : List (List (Row P)))
    → cs ≡ before ++ c ∷ []
    → ChunksHold schema t.target_chunk_size cs parts
    → concat parts ≡ rows'
    → Stores schema (record t { chunks = cs }) rows'
with_chunks schema t rows rows' stored before c cs parts last holds same = record {
  named = record {
    distinct = stored.named.distinct;
    types = stored.named.types;
    nullable = stored.named.nullable;
  };
  spells = stored.spells;
  complete = stored.complete;
  narrow = stored.narrow;
  positive = stored.positive;
  bounded = stored.bounded;
  parts = parts;
  chunks = holds;
  contents = same;
  before = before;
  last_chunk = c;
  last = last;
}

module _ {P : Platform} (build : Build) (d : DataType) (b : Bool) (schema : Schema) (t : Table P)
    (rows : List (Row P)) (stored : Stores ((d, b) ∷ schema) t rows) (vs : List (Variant P))
    (row : Row P) (fits : Converts P ((d, b) ∷ schema) vs row) where
  -- the table afterwards stores the row behind the others
  abbrev pub StoresMore : Type 0
  StoresMore =
      (t' : Table P) × (append build vs t ≡ (ok tt, t'))
      × Stores ((d, b) ∷ schema) t' (rows ++ row ∷ [])

  open_chunk :
      (firsts : List (List (Row P))) (part : List (Row P)) (s : Segment P)
      (there : Chunk.get_segment stored.last_chunk 0 ≡ ok s)
      (size : Chunk.size stored.last_chunk ≡ ok (length part % 2 ^ 32))
      → stored.parts ≡ firsts ++ part ∷ []
      → ChunksHold ((d, b) ∷ schema) t.target_chunk_size stored.before firsts
      → Holds false ((d, b) ∷ schema) part stored.last_chunk.columns
      → length part < t.target_chunk_size
      → is_closed build vs t stored.before stored.last_chunk stored.last d b schema stored.spells
          stored.complete s there
          (length part % 2 ^ 32)
          size
        ≡ false
      → StoresMore
  open_chunk firsts part s there size split others holds room still_open =
      let (columns, run, grown) =
        append-last_chunk build vs t stored.before stored.last_chunk stored.last d b schema
          stored.spells stored.complete s there (length part % 2 ^ 32) size still_open
          (Holds-TakesRow holds fits) (omega (arith, length-Holds holds, stored.narrow)) in
      (
        record t { chunks = stored.before ++ record { columns = columns } ∷ [] },
        run,
        with_chunks ((d, b) ∷ schema) t rows (rows ++ row ∷ []) stored stored.before
            (record { columns = columns }) (stored.before ++ record { columns = columns } ∷ [])
            (firsts ++ (part ++ row ∷ []) ∷ []) refl
            (join_last ((d, b) ∷ schema) t.target_chunk_size stored.before
              (record { columns = columns }) firsts (part ++ row ∷ []) false others
              (RowAdded-Holds holds fits grown)
              (omega (arith, length-append part (row ∷ []), room)))
            (concat-last firsts part (row ∷ [])
              ∙ ap (λ ps. concat ps ++ row ∷ []) (sym split)
              ∙ ap (λ rs. rs ++ row ∷ []) stored.contents),
      )

  new_chunk :
      (n : ℕ) (s : Segment P) (there : Chunk.get_segment stored.last_chunk 0 ≡ ok s)
      (size : Chunk.size stored.last_chunk ≡ ok n)
      → is_closed build vs t stored.before stored.last_chunk stored.last d b schema stored.spells
          stored.complete s there n size
        ≡ true
      → StoresMore
  new_chunk n s there size closed =
      let (columns, run, grown) =
        append-new_chunk build vs t stored.before stored.last_chunk stored.last d b schema
          stored.spells stored.complete s there n size closed
          (Holds-TakesRow (fresh-Holds ((d, b) ∷ schema)) fits) stored.narrow in
      (
        record t { chunks = t.chunks ++ record { columns = columns } ∷ [] },
        run,
        with_chunks ((d, b) ∷ schema) t rows (rows ++ row ∷ []) stored t.chunks
            (record { columns = columns }) (t.chunks ++ record { columns = columns } ∷ [])
            (stored.parts ++ (row ∷ []) ∷ []) refl
            (join_last ((d, b) ∷ schema) t.target_chunk_size t.chunks (record { columns = columns })
              stored.parts (row ∷ []) false stored.chunks
              (RowAdded-Holds (fresh-Holds ((d, b) ∷ schema)) fits grown)
              (omega (arith, stored.positive)))
            (concat-new stored.parts (row ∷ []) ∙ ap (λ rs. rs ++ row ∷ []) stored.contents),
      )

  -- On a table that stores rows, for a row that its columns convert, `append` succeeds, and the
  -- table afterwards stores the converted row behind the others.
  pub append-StoresMore : StoresMore
  append-StoresMore =
      let (firsts, part, k, split, others, holds, small) =
        ChunksHold-Split ((d, b) ∷ schema) t.target_chunk_size stored.before stored.last_chunk
          stored.parts (rw stored.last at stored.chunks) in
      let (s, there, size, kind) = Holds-Head holds in
      go firsts part k split others holds small s there size kind
    where
      go :
          (firsts : List (List (Row P))) (part : List (Row P)) (k : Bool)
          → stored.parts ≡ firsts ++ part ∷ []
          → ChunksHold ((d, b) ∷ schema) t.target_chunk_size stored.before firsts
          → Holds k ((d, b) ∷ schema) part stored.last_chunk.columns
          → length part ≤ t.target_chunk_size
          → (s : Segment P) → Chunk.get_segment stored.last_chunk 0 ≡ ok s
          → Chunk.size stored.last_chunk ≡ ok (length part % 2 ^ 32)
          → (elim (as_dictionary d s) [ none ↦ false | some _ ↦ true ] ≡ k)
          → StoresMore
      go firsts part true split others holds small s there size kind =
          new_chunk (length part % 2 ^ 32) s there size (ground (arith, kind))
      go firsts part false split others holds small s there size kind =
          elim (Bool-cases (length part % 2 ^ 32 == t.target_chunk_size)) [
            | inl full ↦ new_chunk (length part % 2 ^ 32) s there size (ground (arith, full))
            | inr room ↦
                open_chunk firsts part s there size split others holds
                  (ground (arith, room, small, stored.bounded)) (ground (arith, kind, room))
          ]
