-- ===== src/Print/Bounds.antt =====
-- `_column_string_widths`, end to end, on a table that stores rows.
use dyod_so_se.Chunk
use dyod_so_se.Chunk.{Chunk}
use dyod_so_se.Outcome.{ok, ◌>>=◌, Build}
use dyod_so_se.Prelude.Text.{Text}
use dyod_so_se.Prelude.{
  ℕ, zero, suc, ◌+◌, ◌^◌, ◌%◌, ◌<◌, ◌≤◌, ◌≡◌, refl, ap, ◌∙◌, List, [], ◌∷◌, some, map, length,
  length-map, get_elem?, max, arith,
}
use dyod_so_se.Print.Fits.{AreReadable}
use dyod_so_se.Print.Fitted.{CoversColumns, widen_columns-Grown}
use dyod_so_se.Print.Readings.{ChunksRead, ChunksHold-ChunksRead}
use dyod_so_se.Print.Widened.{
  Grown, AtLeast, Grown-refl, Grown-trans, Grown-AtLeast, length-Grown, Covers, Covers-Grown,
}
use dyod_so_se.Print.Widths.{name_widths, widen_columns, widen_chunks, column_string_widths}
use dyod_so_se.Reference.{Store}
use dyod_so_se.Table
use dyod_so_se.Table.Columns.{column_name_lem}
use dyod_so_se.Table.Contents.Reads.{get_chunk-there, named_part}
use dyod_so_se.Table.Contents.{Row, Schema, row_at, Stores}
use dyod_so_se.Table.{Table, get_chunk}
use dyod_so_se.Types.{Platform, Variant, RowId}
use mathlib.Core.Path.{subst}

-- the width of a column for its name alone
abbrev pub name_width : ℕ → Text → ℕ
name_width least name = max least (length name % 2 ^ 16)

module _ {P : Platform} (build : Build) (store : Store P) (depth : ℕ) (t : Table P) where
  name_widths-map :
      (least i : ℕ) (names : List Text)
      → ((j : ℕ) (name : Text)
          → get_elem? names j ≡ some name
          → Table.column_name t (i + j) ≡ ok name)
      → name_widths least t (length names) i ≡ ok (map (name_width least) names)
  unfolding name_widths
  name_widths-map least i [] named = refl
  name_widths-map least i (n ∷ ns) named =
      let here : Table.column_name t i ≡ ok n =
        ap (Table.column_name t) (omega arith) ∙ named 0 n refl in
      let others =
        name_widths-map least (suc i) ns
          (λ j name e. ap (Table.column_name t) (omega arith) ∙ named (suc j) name e) in
      rw (here, ◌>>=◌, others) refl

  pub column_name-there :
      (j : ℕ) (name : Text)
      → get_elem? t.column_names j ≡ some name
      → Table.column_name t (0 + j) ≡ ok name
  column_name-there j name e =
      ap (Table.column_name t) (omega arith) ∙ column_name_lem t j ∙ rw e refl

  name_widths-AtLeast :
      (least : ℕ) (names : List Text) → AtLeast least (map (name_width least) names)
  name_widths-AtLeast least [] = tt
  name_widths-AtLeast least (n ∷ ns) = (omega arith, name_widths-AtLeast least ns)

  module _ (least most count : ℕ) (narrow : count < 2 ^ 16) where
    widen_chunks-step :
        (n i : ℕ) (c : Chunk P) (ws next ws' : List ℕ)
        → get_chunk t i ≡ ok c
        → length c.columns % 2 ^ 16 ≡ count
        → widen_columns build store depth least most c count 0 ws ≡ ok next
        → widen_chunks build store depth least most t n (suc i) next ≡ ok ws'
        → widen_chunks build store depth least most t (suc n) i ws ≡ ok ws'
    unfolding widen_chunks Chunk.column_count
    widen_chunks-step n i c ws next ws' there counted run run' =
        rw (there, ◌>>=◌, counted, run) run'

    widen_chunks-Grown :
        (cs : List (Chunk P)) (parts : List (List (Row P))) (i : ℕ) (ws : List ℕ)
        → ChunksRead build store depth count cs parts
        → ((j : ℕ) (c : Chunk P) → get_elem? cs j ≡ some c → get_chunk t (i + j) ≡ ok c)
        → count ≤ length ws
        → AtLeast least ws
        → (ws' : List ℕ) × (widen_chunks build store depth least most t (length cs) i ws ≡ ok ws')
          × Grown least most ws ws'
          × ((j : ℕ) (part : List (Row P))
              → get_elem? parts j ≡ some part
              → CoversColumns build store depth least most ws' 0 count part)
    unfolding widen_chunks
    widen_chunks-Grown [] [] i ws all there wide above =
        (ws, refl, Grown-refl least most ws above, λ j part e. cc)
    widen_chunks-Grown [] (part ∷ parts) i ws all there wide above = absurd all
    widen_chunks-Grown (c ∷ cs) [] i ws all there wide above = absurd all
    widen_chunks-Grown (c ∷ cs) (part ∷ parts) i ws (here_reads, more) there wide above =
        let here : get_chunk t i ≡ ok c = ap (get_chunk t) (omega arith) ∙ there 0 c refl in
        let whole : length c.columns % 2 ^ 16 ≡ count = omega (arith, narrow, here_reads.columns) in
        let (next, run, g, covers) =
          widen_columns-Grown build store depth least most count part c count 0 ws here_reads
            (omega arith) wide above in
        let (ws', run', g', covers') =
          widen_chunks-Grown cs parts (suc i) next more
            (λ j k e. ap (get_chunk t) (omega arith) ∙ there (suc j) k e)
            (omega (arith, wide, length-Grown least most ws next g))
            (Grown-AtLeast least most ws next g) in
        (
          ws',
          widen_chunks-step (length cs) i c ws next ws' here whole run run',
          Grown-trans least most ws next ws' g g',
          from_chunk ws' parts
              (λ j le lt m row v le' e e'.
                Covers-Grown least most P next ws' j v g' (covers j le lt m row v le' e e'))
              covers',
        )
      where
        from_chunk :
            (ws' : List ℕ) (parts : List (List (Row P)))
            → CoversColumns build store depth least most ws' 0 count part
            → ((j : ℕ) (p : List (Row P))
                → get_elem? parts j ≡ some p
                → CoversColumns build store depth least most ws' 0 count p)
            → (j : ℕ) (p : List (Row P)) → get_elem? (part ∷ parts) j ≡ some p
            → CoversColumns build store depth least most ws' 0 count p
        from_chunk ws' parts now later zero p e =
            let same : part ≡ p = cc in
            subst (CoversColumns build store depth least most ws' 0 count) same now
        from_chunk ws' parts now later (suc j) p e = later j p e

  column_string_widths-step :
      (least most n m : ℕ) (base ws : List ℕ)
      → length t.column_names % 2 ^ 16 ≡ n
      → length t.chunks % 2 ^ 32 ≡ m
      → name_widths least t n 0 ≡ ok base
      → widen_chunks build store depth least most t m 0 base ≡ ok ws
      → column_string_widths build store depth least most t ≡ ok ws
  unfolding column_string_widths Table.column_count Table.chunk_count
  column_string_widths-step least most n m base ws names chunks named run =
      rw (names, named, ◌>>=◌, chunks) run

  -- the widths of a table whose chunks read as these parts
  pub column_string_widths-ChunksRead :
      (least most count : ℕ) (parts : List (List (Row P)))
      → ChunksRead build store depth count t.chunks parts
      → length t.column_names ≡ count
      → count < 2 ^ 16
      → length t.chunks < 2 ^ 32
      → ((j : ℕ) (c : Chunk P) → get_elem? t.chunks j ≡ some c → get_chunk t (0 + j) ≡ ok c)
      → (ws : List ℕ) × (column_string_widths build store depth least most t ≡ ok ws)
        × Grown least most (map (name_width least) t.column_names) ws
        × ((j : ℕ) (part : List (Row P))
            → get_elem? parts j ≡ some part
            → CoversColumns build store depth least most ws 0 count part)
  column_string_widths-ChunksRead least most count parts reads named narrow few there =
      let base = map (name_width least) t.column_names in
      let (ws, run, g, covers) =
        widen_chunks-Grown least most count narrow t.chunks parts 0 base reads there
          (omega (arith, length-map t.column_names (name_width least), named))
          (name_widths-AtLeast least t.column_names) in
      (
        ws,
        column_string_widths-step least most (length t.column_names) (length t.chunks) base ws
            (omega (arith, named, narrow)) (omega (arith, few))
            (name_widths-map least 0 t.column_names column_name-there) run,
        g,
        covers,
      )

  -- `_column_string_widths` succeeds on a table of fewer than 2 ^ 32 chunks that stores rows and
  -- has no null row in a compressed chunk. There is a width for each column; it is not below the
  -- length of its name and `min` (the length in 16 bits), not above the greatest of these and
  -- `max`, and not below the length of a value of the column, up to `max`.
  pub column_string_widths-Covers :
      (least most : ℕ) (schema : Schema) (rows : List (Row P)) (stored : Stores schema t rows)
      → length t.chunks < 2 ^ 32
      → AreReadable stored.chunks
      → (ws : List ℕ) × (column_string_widths build store depth least most t ≡ ok ws)
        × Grown least most (map (name_width least) t.column_names) ws
        × ((position : RowId) (row : Row P) (k : ℕ) (v : Variant P)
            → row_at P stored.parts position ≡ some row
            → k < length schema
            → get_elem? row k ≡ some v
            → Covers least most P ws k v)
  column_string_widths-Covers least most schema rows stored few readable =
      let (ws, run, g, covers) =
        column_string_widths-ChunksRead least most (length schema) stored.parts
          (ChunksHold-ChunksRead build store depth schema t.target_chunk_size t.chunks stored.parts
            stored.chunks readable stored.bounded)
          (omega (arith, stored.named.types, stored.complete)) stored.narrow few
          (λ j c e.
            ap (get_chunk t) (omega arith)
            ∙ get_chunk-there build store t schema rows stored few j c e) in
      (
        ws,
        run,
        g,
        λ position row k v e inside value.
            let (part, part_there, row_there) =
              named_part build store t schema rows stored few position row e in
            covers position.chunk_id part part_there k (omega arith) inside position.chunk_offset
              row v (omega arith) row_there value,
      )
