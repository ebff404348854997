-- ===== src/Table/RowCount.antt =====
-- `row_count`, and what `append` does to it.
use dyod_so_se.Chunk
use dyod_so_se.Chunk.Append.{TakesRow, takes, RowAdded, added}
use dyod_so_se.Chunk.{Chunk}
use dyod_so_se.Outcome.Laws.{>>=-returns}
use dyod_so_se.Outcome.{ok, throw, undefined, ◌>>=◌, Build}
use dyod_so_se.Prelude.{
  ℕ, suc, ◌+◌, ◌^◌, ◌%◌, ◌<◌, ◌≡◌, refl, ap, sym, ◌∙◌, Bool, inl, inr, List, [], ◌∷◌, ◌++◌, length,
  length-append, if◌then◌else◌, arith, Bool-cases,
}
use dyod_so_se.Segment
use dyod_so_se.Segment.{Segment, value_segment}
use dyod_so_se.Table.Append.{
  Spells, fresh, length-fresh, is_closed, append-last_chunk, append-new_chunk,
}
use dyod_so_se.Table.{Table, append, row_count, row_count_from}
use dyod_so_se.Types.{Platform, DataType, Variant, scalar}
use dyod_so_se.ValueSegment.Invariant.{cells, length-cells}
use dyod_so_se.ValueSegment
use dyod_so_se.ValueSegment.{ValueSegment}

module _ {P : Platform} where
  row_count_from-append :
      (acc : ℕ) (xs ys : List (Chunk P))
      → row_count_from acc (xs ++ ys) ≡ (row_count_from acc xs >>= λ a. row_count_from a ys)
  unfolding row_count_from
  row_count_from-append acc [] ys = refl
  row_count_from-append acc (x ∷ xs) ys =
      elim (Chunk.size x)
        as (λ o.
          (o >>= λ n. row_count_from ((acc + n) % 2 ^ 64) (xs ++ ys))
          ≡ ((o >>= λ n. row_count_from ((acc + n) % 2 ^ 64) xs) >>= λ a. row_count_from a ys)) [
            | ok n ↦ row_count_from-append ((acc + n) % 2 ^ 64) xs ys
            | throw e ↦ refl
            | undefined ↦ refl
          ]

  -- a row more in each segment is a row more in the chunk
  size-RowAdded :
      {v : Variant P} {vs : List (Variant P)} {ss ss' : List (Segment P)} (n : ℕ)
      → TakesRow (v ∷ vs) ss
      → RowAdded (v ∷ vs) ss ss'
      → Chunk.size (record { columns = ss }) ≡ ok n
      → suc n < 2 ^ 32
      → Chunk.size (record { columns = ss' }) ≡ ok (suc n)
  unfolding Chunk.size Segment.size ValueSegment.size
  size-RowAdded n (takes d s c valid fits more) (added _ _ s' c' e grown rest) size small =
      let longer : length s'.values ≡ suc (length s.values) = omega (
        arith,
        length-cells (scalar P d) s valid,
        length-cells (scalar P d) s' grown.valid,
        ap length grown.rows,
        length-append (cells s) (c' ∷ []),
      ) in
      let before : length s.values % 2 ^ 32 ≡ n = cc in
      let after : length s'.values % 2 ^ 32 ≡ suc n = omega (arith, longer, before, small) in
      ap ok after

  -- a chunk of `n` rows more at the end
  row_count-last :
      (chunks : List (Chunk P)) (c : Chunk P) (a n : ℕ)
      → row_count_from 0 chunks ≡ ok a
      → Chunk.size c ≡ ok n
      → row_count_from 0 (chunks ++ c ∷ []) ≡ ok ((a + n) % 2 ^ 64)
  unfolding row_count_from
  row_count-last chunks c a n e size = row_count_from-append 0 chunks (c ∷ []) ∙ rw (e, ◌>>=◌, size)

  count_up :
      (chunks : List (Chunk P)) (c c' : Chunk P) (n m : ℕ)
      → Chunk.size c ≡ ok n
      → Chunk.size c' ≡ ok (suc n)
      → row_count_from 0 (chunks ++ c ∷ []) ≡ ok m
      → suc m < 2 ^ 64
      → row_count_from 0 (chunks ++ c' ∷ []) ≡ ok (suc m)
  count_up chunks c c' n m size size' count small =
      let (a, e, rest) =
        >>=-returns (row_count_from 0 chunks) (λ a. row_count_from a (c ∷ [])) m
          (sym (row_count_from-append 0 chunks (c ∷ [])) ∙ count) in
      let was : ok m ≡ ok ((a + n) % 2 ^ 64) = sym count ∙ row_count-last chunks c a n e size in
      let sum : m ≡ (a + n) % 2 ^ 64 = cc in
      let next : (a + suc n) % 2 ^ 64 ≡ suc m = omega (arith, sum, small) in
      row_count-last chunks c' a (suc n) e size' ∙ ap ok next

module _ {P : Platform} (build : Build) (v : Variant P) (vs : List (Variant P)) (t : Table P)
    (before : List (Chunk P)) (c : Chunk P) (last : t.chunks ≡ before ++ c ∷ []) (d : DataType)
    (b : Bool) (schema : List (DataType × Bool))
    (spells : Spells t.column_types t.column_nullable 0 ((d, b) ∷ schema))
    (complete : length t.column_types ≡ suc (length schema)) (s : Segment P)
    (first : Chunk.get_segment c 0 ≡ ok s) (n : ℕ) (size : Chunk.size c ≡ ok n) where
  -- the segments that the row goes into
  abbrev pub receiving : List (Segment P)
  receiving =
      if is_closed build (v ∷ vs) t before c last d b schema spells complete s first n size
      then fresh ((d, b) ∷ schema)
      else c.columns

  fresh-size : Chunk.size {P = P} (record { columns = fresh ((d, b) ∷ schema) }) ≡ ok 0
  unfolding Chunk.size Segment.size ValueSegment.size ValueSegment.new
  fresh-size = refl

  -- `append` adds one to `row_count`. On a table whose column definitions are complete and have
  -- known types, for a row of at least one value that is accepted by the fewer than 2 ^ 16 valid
  -- value segments that it goes into (those of the last chunk, or new ones if that chunk has the
  -- target size or a dictionary as its first segment), `append` succeeds, and the row count of the
  -- table afterwards is the one before and one, as long as this is below 2 ^ 64 and the size of the
  -- last chunk and one below 2 ^ 32.
  pub append-row_count :
      (m : ℕ)
      → TakesRow (v ∷ vs) receiving
      → length receiving < 2 ^ 16
      → suc n < 2 ^ 32
      → row_count t ≡ ok m
      → suc m < 2 ^ 64
      → (t' : Table P) × (append build (v ∷ vs) t ≡ (ok tt, t')) × (row_count t' ≡ ok (suc m))
  unfolding row_count
  append-row_count m fits narrow room count small =
      elim (Bool-cases
        (is_closed build (v ∷ vs) t before c last d b schema spells complete s first n size)) [
          | inl closed ↦
              let (columns, run, grown) =
                append-new_chunk build (v ∷ vs) t before c last d b schema spells complete s first n
                  size closed (rw closed at fits)
                  (omega (arith, length-fresh P schema, rw closed at narrow)) in
              let one = size-RowAdded 0 (rw closed at fits) grown fresh-size (omega arith) in
              let next : (m + 1) % 2 ^ 64 ≡ suc m = omega (arith, small) in
              (
                record t { chunks = t.chunks ++ record { columns = columns } ∷ [] },
                run,
                row_count-last t.chunks (record { columns = columns }) m 1 count one ∙ ap ok next,
              )
          | inr opened ↦
              let (columns, run, grown) =
                append-last_chunk build (v ∷ vs) t before c last d b schema spells complete s first
                  n size opened (rw opened at fits) (rw opened at narrow) in
              let more = size-RowAdded n (rw opened at fits) grown size room in
              (
                record t { chunks = before ++ record { columns = columns } ∷ [] },
                run,
                count_up before c (record { columns = columns }) n m size more (rw last at count)
                    small,
              )
        ]
