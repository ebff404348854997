-- ===== src/Tests/Threads.antt =====
-- The theorems on the threads of `Table::compress_chunk`, at a table of one column.
use dyod_so_se.Table.Compress.Failure.{Run-fails}
use dyod_so_se.Outcome.{ok, throw, debug, not_a_value_segment}
use dyod_so_se.Prelude.{
  ℕ, ◌≡◌, ◌≢◌, ◌≤◌, ◌<◌, ◌*◌, ◌⊎◌, refl, true, false, inl, [], ◌∷◌, set, arith,
}
use dyod_so_se.Table.Compress.Runs.{Steps, Run-ends, Run-compress_chunk}
use dyod_so_se.Table.Compress.Threads.{init, Run, none_yet, one_more, start, work, fail, join}
use dyod_so_se.Table.Compress.{compressed_segment, compress_chunk}
use dyod_so_se.Table
use dyod_so_se.Tests.Tables.{compressed, compresses}
use dyod_so_se.Tests.{platform, some_table}

abbrev count : ℕ
count = Table.column_count some_table

has_one : count ≡ 1
unfolding Table.column_count
has_one = refl

-- the only thread has been started
begun : Run count (compressed_segment debug some_table 0) 1 (record (init count) { started = 1 })
begun = one_more none_yet (start refl (omega (arith, has_one)))

Run-ends_example :
    ((1 ≡ 3 * count) × (0 ≡ count))
    ⊎ ((1 < 3 * count)
        × Steps debug count
            (compressed_segment debug some_table 0)
            compressed
            compresses
            (record (init count) { started = 1 }))
Run-ends_example =
    Run-ends debug count (compressed_segment debug some_table 0) compressed compresses begun

-- the thread has ended
worked : Run count (compressed_segment debug some_table 0) 2 (record (init count) {
  started = 1;
  ended = set (init {P = platform} count).ended 0 true;
  compressed_segments = set (init count).compressed_segments 0 (compressed 0);
})
unfolding Table.column_count
worked =
    one_more begun
      (work 0 (compressed 0) refl (omega arith) refl (compresses 0 (omega (arith, has_one))))

-- and has been joined
ended : Run count (compressed_segment debug some_table 0) 3 (record {
  started = 1;
  joined = 1;
  ended = set (init {P = platform} count).ended 0 true;
  compressed_segments = set (init count).compressed_segments 0 (compressed 0);
  columns = compressed 0 ∷ [];
  terminated = false;
})
unfolding Table.column_count
ended = one_more worked (join (compressed 0) refl refl (omega arith) refl refl)

Run-compress_chunk_example :
    compress_chunk debug (0 ∷ []) 0 some_table
    ≡ ok (record some_table {
      chunks = set some_table.chunks 0 (record { columns = compressed 0 ∷ [] });
    })
Run-compress_chunk_example =
    Run-compress_chunk debug some_table 0 compressed (0 ∷ []) (omega arith)
      ((omega (arith, has_one), tt), (λ c h. inl (omega (arith, has_one, h)))) compresses ended
      (omega (arith, has_one))

-- the second chunk is compressed already
compressed_twice : compressed_segment debug some_table 1 0 ≡ throw not_a_value_segment
unfolding compressed_segment
compressed_twice = refl

-- the thread of its column is started, and fails
failed :
    Run count
      (compressed_segment debug some_table 1)
      2
      (record (init count) { started = 1; terminated = true })
unfolding Table.column_count
failed =
    one_more (one_more none_yet (start refl (omega (arith, has_one))))
      (fail 0 refl (omega arith) refl (λ z e. let e' = compressed_twice in cc))

Run-fails_example :
    (0 ≤ 0) × ((t' : Table.Table platform) → compress_chunk debug (0 ∷ []) 1 some_table ≢ ok t')
Run-fails_example =
    Run-fails debug some_table 1 0 (0 ∷ []) (λ z e. let e' = compressed_twice in cc) (inl refl)
      failed
