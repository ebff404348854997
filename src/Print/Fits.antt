-- ===== src/Print/Fits.antt =====
-- The values that `Print` reads from a chunk that stores rows.

use dyod_so_se.Chunk.{Chunk}
use dyod_so_se.DictionarySegment.Reads.{All-get_elem?}
use dyod_so_se.Outcome.{ok, ◌>>=◌, Build}
use dyod_so_se.Prelude.{ℕ, ◌^◌, ◌<◌, ◌≡◌, Bool, true, false, List, some, length, get_elem?, All}
use dyod_so_se.Print.Widths.{cell}
use dyod_so_se.Reference.{Store}
use dyod_so_se.Table.Contents.Cells.{get_segment-there}
use dyod_so_se.Table.Contents.Reads.{read_at}
use dyod_so_se.Table.Contents.{Row, Schema, Holds, ChunksHold, no_chunk, chunk}
use dyod_so_se.Types.{Platform, Variant, variant_is_null}

-- Reading a null row of a dictionary segment is undefined, so a compressed chunk must have none.
abbrev pub Readable : (P : Platform) → Bool → List (Row P) → Type 0
Readable P false part = Unit
Readable P true part = All (λ row. All (λ v. variant_is_null P v ≡ false) row) part

no_null :
    (P : Platform) (compressed : Bool) (part : List (Row P))
    → Readable P compressed part
    → compressed ≡ true
    → All (λ row. All (λ v. variant_is_null P v ≡ false) row) part
no_null P true part readable e = readable
no_null P false part readable e = cc

module _ {P : Platform} {schema : Schema} {target : ℕ} where
  abbrev pub AreReadable :
      {cs : List (Chunk P)} {parts : List (List (Row P))}
      → ChunksHold schema target cs parts
      → Type 0
  AreReadable no_chunk = Unit
  AreReadable (chunk {part = part} k holds fits more) = Readable P k part × AreReadable more

module _ {P : Platform} (build : Build) (store : Store P) (depth : ℕ) where
  pub cell-there :
      {compressed : Bool} {schema : Schema} {part : List (Row P)} (c : Chunk P) (k i : ℕ)
      (row : Row P) (v : Variant P)
      → Holds compressed schema part c.columns
      → Readable P compressed part
      → length part < 2 ^ 32
      → get_elem? part i ≡ some row
      → get_elem? row k ≡ some v
      → cell build store depth c k i ≡ ok v
  unfolding cell
  cell-there {compressed = compressed} {part = part} c k i row v holds readable small there value =
      let (segment, found, size, reads) =
        read_at build store i k row v holds there value small (λ e.
          All-get_elem? (λ w. variant_is_null P w ≡ false) row k v
            (All-get_elem? (λ z. All (λ w. variant_is_null P w ≡ false) z) part i row
              (no_null P compressed part readable e) there)
            value) in
      rw (get_segment-there c k segment found, ◌>>=◌) (reads depth)
