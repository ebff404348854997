-- ===== src/Table/Compress.antt =====
-- `Table::compress_chunk`: one thread for each column. A thread writes one element of the vector of
-- compressed segments; `schedule` is the order in which the threads make their writes.
pub mod Schedule
pub mod Rows
pub mod Chunks
pub mod Threads
pub mod Invariant
pub mod Runs
pub mod Failure
use dyod_so_se.Chunk
use dyod_so_se.Chunk.{Chunk}
use dyod_so_se.DictionarySegment
use dyod_so_se.Outcome.{Outcome, ok, undefined, ◌>>=◌, Build, subscript, assign}
use dyod_so_se.Prelude.{ℕ, zero, suc, List, [], ◌∷◌, Option, none, some, length, set, replicate}
use dyod_so_se.Segment.{Segment, dictionary_segment, null_pointer, as_value}
use dyod_so_se.Table.{Table, column_count, get_chunk}
use dyod_so_se.Types.{Platform, DataType, scalar, resolve_data_type}

module _ {P : Platform} (build : Build) where
  -- the compressed segment of a column; for a type that is not resolved the element stays null
  unfoldable pub compressed_segment : Table P → ℕ → ℕ → Outcome (Segment P)
  unfolding get_chunk Chunk.get_segment DictionarySegment.new
  compressed_segment t chunk_id column_id = do
    type ← subscript t.column_types column_id
    elim (resolve_data_type type) [
      | none ↦ ok null_pointer
      | some d ↦ do
        c ← get_chunk t chunk_id
        s ← Chunk.get_segment c column_id
        ds ← DictionarySegment.new (scalar P d) build (as_value d s)
        ok (dictionary_segment d ds)
    ]

  -- `compression_functor`, one thread after another. An exception that leaves a thread ends the
  -- program, which the model does not tell from undefined behaviour.
  unfoldable pub run_threads :
      (ℕ → Outcome (Segment P)) → List ℕ → List (Segment P) → Outcome (List (Segment P))
  run_threads compress [] slots = ok slots
  run_threads compress (column_id ∷ schedule) slots = elim (compress column_id) [
    | ok s ↦ assign slots column_id s >>= run_threads compress schedule
    | _ ↦ undefined
  ]

  unfoldable pub compress_chunk : List ℕ → ℕ → Table P → Outcome (Table P)
  unfolding compressed_segment run_threads column_count
  compress_chunk schedule chunk_id t = do
    segments ←
        run_threads (compressed_segment t chunk_id) schedule
          (replicate (column_count t) null_pointer)
    chunks ← assign t.chunks chunk_id (record { columns = segments })
    ok (record t { chunks = chunks })
