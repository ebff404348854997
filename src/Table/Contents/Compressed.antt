-- ===== src/Table/Contents/Compressed.antt =====
-- `Table::compress_chunk` on the rows that a table stores.
use dyod_so_se.Chunk
use dyod_so_se.Chunk.{Chunk}
use dyod_so_se.DictionarySegment.Invariant.{IsNullSafe}
use dyod_so_se.Outcome.{ok, Build}
use dyod_so_se.Prelude.{
  ℕ, zero, suc, ◌+◌, ◌^◌, ◌<◌, ◌≤◌, ◌≡◌, refl, sym, ap, ◌∙◌, Bool, true, List, [], ◌∷◌, ◌++◌,
  Option, none, some, All, length, length-map, length-set, get_elem?, set, arith,
}
use dyod_so_se.Scalar.{IsLawful}
use dyod_so_se.Segment.{Segment, value_segment, null_pointer}
use dyod_so_se.Table.Append.{Spells}
use dyod_so_se.Table.Compress.Chunks.{encode}
use dyod_so_se.Table.Compress.Rows.{as_value_self}
use dyod_so_se.Table.Compress.Schedule.{
  IsSchedule, list_ext, segments_at, get_elem?-segments_at, length-segments_at,
  compress_chunk-schedule,
}
use dyod_so_se.Table.Compress.{compressed_segment, compress_chunk}
use dyod_so_se.Table.Contents.Appended.{with_chunks}
use dyod_so_se.Table.Contents.Cells.{length-column_of, length-Holds, get_segment-there}
use dyod_so_se.Table.Contents.{
  Row, Schema, rest, column_of, Holds, no_column, values, ids, ChunksHold, chunk, Stores,
}
use dyod_so_se.Table.{Table, get_chunk, column_count}
use dyod_so_se.Types.{Platform, scalar}
use dyod_so_se.ValueSegment.Invariant.{cells, length-cells}
use dyod_so_se.ValueSegment.Reads.{get_elem?-below}

module _ {P : Platform} where
  -- value segments alone, of which encoding keeps the rows
  abbrev pub AreSafe : List (Segment P) → Type 0
  AreSafe [] = Unit
  AreSafe (value_segment d s ∷ ss) = IsNullSafe (scalar P d) s × AreSafe ss
  AreSafe (_ ∷ ss) = ⊥

-- the types of the columns have lawful orders
abbrev pub AreLawful : Platform → Schema → Type 0
AreLawful P schema = All (λ column. IsLawful (scalar P column.0)) schema

module _ {P : Platform} (build : Build) (t : Table P) (chunk_id : ℕ) (c : Chunk P) (n : ℕ)
    (at : get_chunk t chunk_id ≡ ok c) (small : n < 2 ^ 32) where
  -- the dictionary segments for the columns from `i` on
  abbrev Encodes : ℕ → Schema → List (Row P) → Type 0
  Encodes i schema part =
      (ss' : List (Segment P)) × Holds true schema part ss'
      × ((j : ℕ)
          → j < length schema
          → (s' : Segment P) × (get_elem? ss' j ≡ some s')
            × (compressed_segment build t chunk_id (i + j) ≡ ok s'))

  encodes :
      {compressed : Bool} {schema : Schema} {part : List (Row P)} {ss : List (Segment P)} (i : ℕ)
      → Holds compressed schema part ss
      → Spells t.column_types t.column_nullable i schema
      → AreSafe ss
      → AreLawful P schema
      → length part ≡ n
      → ((j : ℕ) (s : Segment P) → get_elem? ss j ≡ some s → Chunk.get_segment c (i + j) ≡ ok s)
      → Encodes i schema part
  encodes i (no_column h) spells safe lawful size there =
      ([], no_column h, λ j lt. absurd (omega (arith, lt)))
  encodes i (ids d b ds w column more) spells safe lawful size there = absurd safe
  encodes {schema = _ ∷ schema} {part = part} i (values d b s valid nullable column more)
        (type, typed, known, null, spells) safe lawful size there =
      let here : Chunk.get_segment c i ≡ ok (value_segment d s) =
        ap (Chunk.get_segment c) (omega arith) ∙ there 0 (value_segment d s) refl in
      let (s', run, (ds, made, same, w, count)) = encode build t chunk_id c n at small i (record {
        type = type;
        d = d;
        segment = value_segment d s;
        s = s;
        typed = typed;
        known = known;
        laws = lawful.0;
        there = here;
        cast = as_value_self P d s;
        valid = valid;
        safe = safe.0;
        size =
            sym (length-cells (scalar P d) s valid)
            ∙ sym (length-column_of P d part (cells s) column)
            ∙ size;
      }) in
      let (ss', holds, others) =
        encodes (suc i) more spells safe.1 lawful.1 (length-map part rest ∙ size)
          (λ j z e. ap (Chunk.get_segment c) (omega arith) ∙ there (suc j) z e) in
      (
        s' ∷ ss',
        rw made (ids d b ds w (column ∙ ap (column_of P d) (sym same)) holds),
        written s' ss' run others,
      )
    where
      written :
          (s' : Segment P) (ss' : List (Segment P))
          → compressed_segment build t chunk_id i ≡ ok s'
          → ((j : ℕ)
              → j < length schema
              → (z : Segment P) × (get_elem? ss' j ≡ some z)
                × (compressed_segment build t chunk_id (suc i + j) ≡ ok z))
          → (j : ℕ) → j < suc (length schema)
          → (z : Segment P) × (get_elem? (s' ∷ ss') j ≡ some z)
            × (compressed_segment build t chunk_id (i + j) ≡ ok z)
      written s' ss' run others zero lt =
          (s', refl, ap (compressed_segment build t chunk_id) (omega arith) ∙ run)
      written s' ss' run others (suc j) lt =
          let (z, found, made) = others j (omega (arith, lt)) in
          (z, found, ap (compressed_segment build t chunk_id) (omega arith) ∙ made)

  abbrev or_null : Option (Segment P) → Segment P
  or_null none = null_pointer
  or_null (some s) = s

  abbrev segment_at : List (Segment P) → ℕ → Segment P
  segment_at ss j = or_null (get_elem? ss j)

  segment_at-there :
      (ss : List (Segment P)) (j k : ℕ) (s : Segment P)
      → k ≡ j
      → get_elem? ss j ≡ some s
      → segment_at ss k ≡ s
  segment_at-there ss j k s same e = ap (λ i. or_null (get_elem? ss i)) same ∙ ap or_null e

  -- the segments that the threads leave behind
  written_segments :
      (schema : Schema) (ss' : List (Segment P))
      → length ss' ≡ length schema
      → ((j : ℕ)
          → j < length schema
          → (s' : Segment P) × (get_elem? ss' j ≡ some s')
            × (compressed_segment build t chunk_id (0 + j) ≡ ok s'))
      → segments_at build (compressed_segment build t chunk_id) (segment_at ss') (length schema) 0
          ≡ ss'
        × ((j : ℕ)
            → j < length schema
            → compressed_segment build t chunk_id j ≡ ok (segment_at ss' j))
  written_segments schema ss' size made =
      let compress = compressed_segment build t chunk_id in
      let long = length-segments_at build compress (segment_at ss') (length schema) 0 in
      (
        list_ext (segments_at build compress (segment_at ss') (length schema) 0) ss'
            (long ∙ sym size)
            (λ j lt.
              let below : j < length schema = omega (arith, lt, long) in
              let (s', there, run) = made j below in
              get_elem?-segments_at build compress (segment_at ss') (length schema) 0 j below
              ∙ ap some (segment_at-there ss' j (0 + j) s' (omega arith) there)
              ∙ sym there),
        λ j below.
            let (s', there, run) = made j below in
            let zero_add : 0 + j ≡ j = omega arith in
            ap compress (sym zero_add) ∙ run ∙ ap ok (sym (segment_at-there ss' j j s' refl there)),
      )

last_of {ℓ} :
    {A : Type ℓ} (xs : List A)
    → 0 < length xs
    → (before : List A) × (x : A) × (xs ≡ before ++ x ∷ [])
last_of [] h = absurd (omega (arith, h))
last_of (x ∷ []) h = ([], x, refl)
last_of (x ∷ y ∷ xs) h =
    let (before, z, e) = last_of (y ∷ xs) (omega arith) in (x ∷ before, z, ap (◌∷◌ x) e)

module _ {P : Platform} (schema : Schema) (target : ℕ) where
  -- a part that a chunk holds, which another chunk may hold in its place
  abbrev HeldPart : List (Chunk P) → List (List (Row P)) → ℕ → Chunk P → Type 0
  HeldPart cs parts i c =
      (part : List (Row P)) × (compressed : Bool) × Holds compressed schema part c.columns
      × (length part ≤ target)
      × ((k : Bool) (ss' : List (Segment P))
          → Holds k schema part ss'
          → ChunksHold schema target (set cs i (record { columns = ss' })) parts)

  held_part :
      (cs : List (Chunk P)) (parts : List (List (Row P))) (i : ℕ) (c : Chunk P)
      → ChunksHold schema target cs parts
      → get_elem? cs i ≡ some c
      → HeldPart cs parts i c
  held_part [] parts i c h e = cc
  held_part (k ∷ ks) [] i c h e = elim h [ ]
  held_part (k ∷ ks) (part ∷ parts) zero c (chunk b holds small more) e =
      let same : k ≡ c = cc in
      (part, b, rw (sym same) holds, small, λ b' ss' holds'. chunk b' holds' small more)
  held_part (k ∷ ks) (part ∷ parts) (suc i) c (chunk b holds small more) e =
      let (part', b', holds', small', put) = held_part ks parts i c more e in
      (part', b', holds', small', λ k ss' h. chunk b holds small (put k ss' h))

module _ {P : Platform} (build : Build) (t : Table P) (schema : Schema) (rows : List (Row P))
    (stored : Stores schema t rows) (chunk_id : ℕ) (c : Chunk P) (at : get_chunk t chunk_id ≡ ok c)
    (safe : AreSafe c.columns) (lawful : AreLawful P schema) where
  chunk_there : get_elem? t.chunks chunk_id ≡ some c
  unfolding get_chunk
  chunk_there = ground (arith, at)

  columns_counted : column_count t ≡ length schema
  unfolding column_count
  columns_counted = omega (arith, stored.named.types, stored.complete, stored.narrow)

  -- Compression keeps the rows. Where the types of its columns have lawful orders, a table stores
  -- rows, and one of its chunks has null-safe value segments alone, and each column has a thread
  -- and no thread another column, `compress_chunk` succeeds whatever the order in which the threads
  -- write, and the table afterwards stores the same rows.
  pub compress_chunk-Stores :
      (schedule : List ℕ)
      → IsSchedule (column_count t) schedule
      → (t' : Table P) × (compress_chunk build schedule chunk_id t ≡ ok t') × Stores schema t' rows
  compress_chunk-Stores schedule complete =
      let (part, k, holds, fits, put) =
        held_part schema t.target_chunk_size t.chunks stored.parts chunk_id c stored.chunks
          chunk_there in
      let (ss', encoded, made) =
        encodes build t chunk_id c (length part) at (omega (arith, fits, stored.bounded)) 0 holds
          stored.spells safe lawful refl
          (λ j s e. get_segment-there c (0 + j) s (ap (get_elem? c.columns) (omega arith) ∙ e)) in
      let (whole, works) =
        written_segments build t chunk_id c (length part) at (omega (arith, fits, stored.bounded))
          schema ss' (length-Holds encoded) made in
      let below = get_elem?-below t.chunks chunk_id c chunk_there in
      let some_chunk : 0 < length (set t.chunks chunk_id (record { columns = ss' })) =
        omega (arith, length-set t.chunks chunk_id (record { columns = ss' }), below) in
      let (before, last, e) =
        last_of (set t.chunks chunk_id (record { columns = ss' })) some_chunk in
      (
        record t { chunks = set t.chunks chunk_id (record { columns = ss' }) },
        compress_chunk-schedule build t chunk_id
              (segment_at build t chunk_id c (length part) at (omega (arith, fits, stored.bounded))
                ss')
              schedule below complete (λ j lt. works j (omega (arith, lt, columns_counted)))
            ∙ ap (λ ss. ok (record t { chunks = set t.chunks chunk_id (record { columns = ss }) }))
                (rw columns_counted whole),
        with_chunks schema t rows rows stored before last
            (set t.chunks chunk_id (record { columns = ss' })) stored.parts e (put true ss' encoded)
            stored.contents,
      )
