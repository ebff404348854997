-- ===== src/Reference.antt =====
-- `storage/reference_segment.cpp`, over the tables that the segments point to, and the virtual
-- `operator[]` of a segment.
pub mod Reads
use dyod_so_se.Chunk
use dyod_so_se.DictionarySegment
use dyod_so_se.Outcome.{
  Outcome, ok, undefined, ◌>>=◌, ◌>>◌, Build, debug_assert, at, subscript, row_id_out_of_bounds,
}
use dyod_so_se.Prelude.{ℕ, zero, suc, List, if◌then◌else◌, ltb}
use dyod_so_se.Segment
use dyod_so_se.Segment.{
  Segment, ReferenceSegment, value_segment, dictionary_segment, reference_segment, null_pointer,
}
use dyod_so_se.Table
use dyod_so_se.Table.{Table}
use dyod_so_se.Types.{Platform, Variant, RowId, null, row_is_null}
use dyod_so_se.ValueSegment

-- The tables, by address.
abbrev pub Store : Platform → Type 0
Store P = List (Table P)

module _ {P : Platform} (build : Build) (store : Store P) where
  -- the segment that a row of a reference segment stands in
  unfoldable pub target : ReferenceSegment → RowId → Outcome (Segment P)
  unfolding Table.get_chunk Chunk.get_segment
  target r row_id = do
    t ← subscript store r.referenced_table
    c ← Table.get_chunk t row_id.chunk_id
    Chunk.get_segment c r.referenced_column_id

  -- `ReferenceSegment::operator[]`; `read` is the virtual `operator[]`
  unfoldable pub reference_element :
      (Segment P → ℕ → Outcome (Variant P)) → ReferenceSegment → ℕ → Outcome (Variant P)
  unfolding target Segment.size
  reference_element read r i = do
    row_id ← at r.pos_list i
    if row_is_null row_id then ok null else do
      s ← target r row_id
      n ← Segment.size s
      debug_assert build (ltb row_id.chunk_offset n) row_id_out_of_bounds
      read s row_id.chunk_offset

  -- The virtual `operator[]`. A reference to a table of references reads on from there; `depth`
  -- bounds how often, and a chain that is longer is a recursion without end.
  unfoldable pub element : ℕ → Segment P → ℕ → Outcome (Variant P)
  unfolding reference_element ValueSegment.element DictionarySegment.element
  element depth (value_segment d s) i = ValueSegment.element P d build s i
  element depth (dictionary_segment d s) i = DictionarySegment.element P d build s i
  element zero (reference_segment r) i = undefined
  element (suc depth) (reference_segment r) i = reference_element (element depth) r i
  element depth null_pointer i = undefined
