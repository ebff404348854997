-- ===== src/TableScan/Execute/References.antt =====
-- The scan of a reference segment: it keeps the positions whose row, in the table that they point
-- into, passes.

use dyod_so_se.Chunk
use dyod_so_se.Chunk.{Chunk}
use dyod_so_se.DictionarySegment.Invariant.{decoded, IsDictionary}
use dyod_so_se.DictionarySegment.Reads.{null_id, row_id}
use dyod_so_se.DictionarySegment.{DictionarySegment}
use dyod_so_se.DictionarySegment
use dyod_so_se.Outcome.Laws.{debug_assert-true}
use dyod_so_se.Outcome.{ok, ◌>>=◌, Build, subscript, value_id_is_null}
use dyod_so_se.Prelude.{
  ℕ, ◌^◌, ◌%◌, ◌<◌, ◌≡◌, refl, Bool, true, false, List, [], ◌∷◌, Option, none, some, if◌then◌else◌,
  length, get_elem?, take_all, ◌==◌, arith,
}
use dyod_so_se.Reference.{Store}
use dyod_so_se.Segment.{Segment, ReferenceSegment}
use dyod_so_se.Table
use dyod_so_se.Table.{Table}
use dyod_so_se.TableScan.Execute.Chunks.{HasRows, by_values, by_dictionary}
use dyod_so_se.TableScan.Execute.{
  Scan, value_row_passes, dictionary_row_passes, row_passes, scan_rows, scan_positions,
  tablescan_reference_segment,
}
use dyod_so_se.TableScan.{create_scan_operation}
use dyod_so_se.Types.{
  Platform, DataType, Value, scalar, to_variant, type_cast, type_cast?, RowId, PosList, int, long,
  float, double, string,
}
use dyod_so_se.ValueSegment.Invariant.{cells, IsValid}
use dyod_so_se.ValueSegment.Reads.{is_null-row, value-row}
use dyod_so_se.ValueSegment.{ValueSegment}

-- a value that is put into a variant comes back by the cast to its own type
pub type_cast-to_variant :
    (P : Platform) (d : DataType) (v : Value P d) → type_cast P d (to_variant P d v) ≡ ok v
unfolding type_cast
type_cast-to_variant P int v = refl
type_cast-to_variant P long v = refl
type_cast-to_variant P float v = refl
type_cast-to_variant P double v = refl
type_cast-to_variant P string v = refl

module _ {P : Platform} (build : Build) (store : Store P) (scan : Scan P) (d : DataType)
    (search : Value P d) where
  -- a null row does not pass
  abbrev pub cell_passes : Option (Value P d) → Bool
  cell_passes none = false
  cell_passes (some x) = create_scan_operation (scalar P d) scan.scan_type x search

  value_row_passes-cell :
      (s : ValueSegment (Value P d)) (i : ℕ) (c : Option (Value P d))
      → IsValid (scalar P d) s
      → length s.values < 2 ^ 32
      → get_elem? (cells s) i ≡ some c
      → value_row_passes build store scan d search s i ≡ ok (cell_passes c)
  unfolding value_row_passes
  value_row_passes-cell s i none valid small row =
      rw (is_null-row (scalar P d) build s valid small i none row)
  value_row_passes-cell s i (some x) valid small row = rw (
    is_null-row (scalar P d) build s valid small i (some x) row,
    ◌>>=◌,
    value-row (scalar P d) s i x valid row,
    type_cast-to_variant P d x,
  )

  dictionary_row_passes-cell :
      (s : DictionarySegment (Value P d)) (i : ℕ) (c : Option (Value P d))
      → IsDictionary (scalar P d) s
      → get_elem? (decoded s) i ≡ some c
      → dictionary_row_passes build store scan d search s i ≡ ok (cell_passes c)
  unfolding dictionary_row_passes
  dictionary_row_passes-cell s i none w row =
      let (id, read, e) = row_id (scalar P d) s w build i none row in
      let same : (id == DictionarySegment.null_value_id s) ≡ true =
        ground (arith, e, null_id (scalar P d) s w) in
      rw (read, ◌>>=◌, same)
  dictionary_row_passes-cell s i (some x) w row =
      let (id, read, e) = row_id (scalar P d) s w build i (some x) row in
      let other : (id == DictionarySegment.null_value_id s) ≡ false =
        ground (arith, e, null_id (scalar P d) s w) in
      rw (
        read,
        ◌>>=◌,
        other,
        debug_assert-true build true value_id_is_null refl,
        e.1,
        type_cast-to_variant P d x,
      )

  -- The row that a position names: the segment, its rows, and the one at the offset
  pub record RowAt (t : Table P) (r : RowId) (c : Option (Value P d)) : Type 0 where
    pub chunk : Chunk P
    pub segment : Segment P
    pub rows : List (Option (Value P d))
    pub chunk_there : Table.get_chunk t r.chunk_id ≡ ok chunk
    pub segment_there : Chunk.get_segment chunk scan.column_id ≡ ok segment
    pub stored : HasRows d segment rows
    pub row_there : get_elem? rows r.chunk_offset ≡ some c

  segment_row_passes :
      (t : Table P) (r : RowId) (c : Option (Value P d)) (chunk : Chunk P) (segment : Segment P)
      (rows : List (Option (Value P d)))
      → Table.get_chunk t r.chunk_id ≡ ok chunk
      → Chunk.get_segment chunk scan.column_id ≡ ok segment
      → HasRows d segment rows
      → get_elem? rows r.chunk_offset ≡ some c
      → row_passes build store scan d search t r ≡ ok (cell_passes c)
  unfolding row_passes
  segment_row_passes t r c chunk segment rows ct st (by_values s cast valid small e) row =
      rw (
        ct,
        ◌>>=◌,
        st,
        cast,
        value_row_passes-cell s r.chunk_offset c valid small (rw (← e) at row),
      )
  segment_row_passes t r c chunk segment rows ct st (by_dictionary s miss cast w e) row =
      rw (
        ct,
        ◌>>=◌,
        st,
        miss,
        cast,
        dictionary_row_passes-cell s r.chunk_offset c w (rw (← e) at row),
      )

  -- each position names a row
  abbrev pub RowsAt : Table P → PosList → List (Option (Value P d)) → Type 0
  RowsAt t [] [] = Unit
  RowsAt t [] (c ∷ cs) = ⊥
  RowsAt t (r ∷ rs) [] = ⊥
  RowsAt t (r ∷ rs) (c ∷ cs) = RowAt t r c × RowsAt t rs cs

  -- the positions whose row passes
  unfoldable pub keep_passing : PosList → List (Option (Value P d)) → PosList
  keep_passing [] cs = []
  keep_passing (r ∷ rs) [] = []
  keep_passing (r ∷ rs) (c ∷ cs) =
      let rest = keep_passing rs cs in if cell_passes c then r ∷ rest else rest

  scan_rows-keep_passing :
      (t : Table P) (rs : PosList) (cs : List (Option (Value P d)))
      → RowsAt t rs cs
      → scan_rows build store scan d search t rs ≡ ok (keep_passing rs cs)
  unfolding scan_rows keep_passing
  scan_rows-keep_passing t [] [] h = refl
  scan_rows-keep_passing t [] (c ∷ cs) h = absurd h
  scan_rows-keep_passing t (r ∷ rs) [] h = absurd h
  scan_rows-keep_passing t (r ∷ rs) (c ∷ cs) (at, more) = rw (
    segment_row_passes t r c at.chunk at.segment at.rows at.chunk_there at.segment_there at.stored
        at.row_there,
    ◌>>=◌,
    scan_rows-keep_passing t rs cs more,
  )

  scan_positions-keep_passing :
      (t : Table P) (address : ℕ) (rs : PosList) (cs : List (Option (Value P d)))
      → subscript store address ≡ ok t
      → RowsAt t rs cs
      → scan_positions build store scan d search address rs ≡ ok (keep_passing rs cs)
  unfolding scan_positions keep_passing
  scan_positions-keep_passing t address [] cs there h = refl
  scan_positions-keep_passing t address (r ∷ rs) cs there h =
      rw (there, ◌>>=◌) (scan_rows-keep_passing t (r ∷ rs) cs h)

  -- For a search value that casts to the column's type, the scan of a reference segment with fewer
  -- than 2 ^ 32 positions, each of which names a row of a valid value segment or a well-formed
  -- dictionary segment in the scanned column of the referenced table, keeps, in order, the
  -- positions whose row is not null and passes.
  pub tablescan_reference_segment-keep_passing :
      (t : Table P) (r : ReferenceSegment) (cs : List (Option (Value P d)))
      → type_cast? P d scan.search_value ≡ some search
      → subscript store r.referenced_table ≡ ok t
      → length r.pos_list < 2 ^ 32
      → RowsAt t r.pos_list cs
      → tablescan_reference_segment build store scan d r ≡ ok (keep_passing r.pos_list cs)
  unfolding tablescan_reference_segment
  tablescan_reference_segment-keep_passing t r cs castable there small rows =
      let whole : length r.pos_list % 2 ^ 32 ≡ length r.pos_list = omega arith in
      rw (castable, ◌>>=◌, whole, take_all (length r.pos_list) r.pos_list (omega arith))
        (scan_positions-keep_passing t r.referenced_table r.pos_list cs there rows)
