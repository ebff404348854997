-- ===== src/Table/Compress/Threads.antt =====
-- The threads of `Table::compress_chunk` as a step relation: the main thread starts one thread for each
-- column and then joins them in order, and the started threads run at any pace.
use dyod_so_se.Outcome.{Outcome, ok}
use dyod_so_se.Prelude.{
  ℕ, suc, ◌<◌, ◌≡◌, ◌≢◌, Bool, true, false, List, [], ◌∷◌, ◌++◌, some, get_elem?, set, replicate,
}
use dyod_so_se.Segment.{Segment, null_pointer}
use dyod_so_se.Types.{Platform}

-- How many threads are started and joined, which of them have ended, the vector that they write to,
-- the columns of the new chunk, and whether an exception that left a thread has ended the program.
pub record System (P : Platform) : Type 0 where
  pub started : ℕ
  pub joined : ℕ
  pub ended : List Bool
  pub compressed_segments : List (Segment P)
  pub columns : List (Segment P)
  pub terminated : Bool

module _ {P : Platform} where
  abbrev pub init : ℕ → System P
  init n = record {
    started = 0;
    joined = 0;
    ended = replicate n false;
    compressed_segments = replicate n null_pointer;
    columns = [];
    terminated = false;
  }

  -- `compress` is what a thread computes for its column, of which the others see nothing.
  pub data Step (n : ℕ) (compress : ℕ → Outcome (Segment P)) (s : System P)
      : System P → Type 0 where
    -- `threads[col_id] = std::thread(…)`
    start :
        s.terminated ≡ false
        → s.started < n
        → Step n compress s (record s { started = suc s.started })
    -- a thread writes its element and ends
    work :
        (k : ℕ) (z : Segment P)
        → s.terminated ≡ false
        → k < s.started
        → get_elem? s.ended k ≡ some false
        → compress k ≡ ok z
        → Step n compress s (record s {
          ended = set s.ended k true;
          compressed_segments = set s.compressed_segments k z;
        })
    -- an exception leaves a thread, and the program ends
    fail :
        (k : ℕ)
        → s.terminated ≡ false
        → k < s.started
        → get_elem? s.ended k ≡ some false
        → ((z : Segment P) → compress k ≢ ok z)
        → Step n compress s (record s { terminated = true })
    -- `join`, which waits for the end of the thread, and `add_segment`
    join :
        (z : Segment P)
        → s.terminated ≡ false
        → s.started ≡ n
        → s.joined < n
        → get_elem? s.ended s.joined ≡ some true
        → get_elem? s.compressed_segments s.joined ≡ some z
        → Step n compress s (record s { joined = suc s.joined; columns = s.columns ++ z ∷ [] })

  -- the states after a number of steps
  pub data Run (n : ℕ) (compress : ℕ → Outcome (Segment P)) : ℕ → System P → Type 0 where
    none_yet : Run n compress 0 (init n)
    one_more :
        {k : ℕ} {s s' : System P}
        → Run n compress k s
        → Step n compress s s'
        → Run n compress (suc k) s'
