-- ===== src/Table/Compress/Runs.antt =====
-- Every run of the threads of `compress_chunk` ends, and with the same chunk.
use dyod_so_se.Outcome.{Outcome, ok, Build}
use dyod_so_se.Prelude.{
  ℕ, suc, ◌*◌, ◌<◌, ◌≡◌, ◌⊎◌, inl, inr, sym, ap, ◌∙◌, true, false, List, some, length, get_elem?,
  set, arith, Bool-cases, ◌==◌, ==_iff,
}
use dyod_so_se.Segment.{Segment}
use dyod_so_se.Table.Compress.Schedule.{IsSchedule, segments_at, compress_chunk-schedule}
use dyod_so_se.Table.Compress.Threads.{System, Step, start, work, join, Run}
use dyod_so_se.Table.Compress.{compressed_segment, compress_chunk}
use dyod_so_se.Table.{Table, column_count}
use dyod_so_se.Types.{Platform}
use dyod_so_se.Table.Compress.Invariant.{Inv, Run-Inv, unfinished, unfinished-none, ended-cases}

module _ {P : Platform} (build : Build) (n : ℕ) (compress : ℕ → Outcome (Segment P))
    (f : ℕ → Segment P) where
  module _ (works : (c : ℕ) → c < n → compress c ≡ ok (f c)) where
    -- a state that is not finished takes another step
    abbrev pub Steps : System P → Type 0
    Steps s = (s' : System P) × Step n compress s s'

    progress : {k : ℕ} {s : System P} → Inv build n compress f k s → s.joined < n → Steps s
    progress {k} {s} inv below = elim (Bool-cases (s.started == n)) [
      | inl all ↦
          joins ((==_iff _ _).0 all)
            (ended-cases s.ended s.joined (omega (arith, below, inv.flags)))
      | inr more ↦ (
        record s { started = suc s.started },
        start inv.going (ground (arith, more, inv.started)),
      )
    ]
      where
        joins :
            s.started ≡ n
            → (get_elem? s.ended s.joined ≡ some true) ⊎ (get_elem? s.ended s.joined ≡ some false)
            → Steps s
        joins all (inl done) =
            (_, join (f s.joined) inv.going all below done (inv.written s.joined done))
        joins all (inr running) = (
          _,
          work s.joined (f s.joined) inv.going (omega (arith, all, below)) running
              (works s.joined below),
        )

    all_started : {k : ℕ} {s : System P} → Inv build n compress f k s → s.joined ≡ n → s.started ≡ n
    all_started {k} {s} inv whole = elim (Bool-cases (s.joined == 0)) [
      | inl empty ↦ omega (arith, (==_iff _ _).0 empty, inv.started, whole)
      | inr some_ ↦ inv.after (ground (arith, some_))
    ]

    -- Where the compression of each of the `n` columns succeeds, the threads do not block one
    -- another and end: a run has either taken 3 * n steps, or fewer, and then another step is
    -- possible.
    pub Run-ends :
        {k : ℕ} {s : System P}
        → Run n compress k s
        → ((k ≡ 3 * n) × (s.joined ≡ n)) ⊎ ((k < 3 * n) × Steps s)
    Run-ends {k} {s} run = go (Run-Inv build n compress f works run)
      where
        go : Inv build n compress f k s → ((k ≡ 3 * n) × (s.joined ≡ n)) ⊎ ((k < 3 * n) × Steps s)
        go inv = elim (Bool-cases (s.joined == n)) [
          | inl all ↦
              let whole : s.joined ≡ n = (==_iff _ _).0 all in
              let quiet : unfinished s.ended ≡ 0 =
                unfinished-none s.ended
                  (λ j lt. inv.ended j (omega (arith, lt, inv.flags, whole))) in
              inl (omega (arith, inv.steps, quiet, whole, all_started inv whole), whole)
          | inr more ↦
              let below : s.joined < n = ground (arith, more, inv.joined) in
              inr (omega (arith, inv.steps, below), progress inv below)
        ]

-- The interleaving of the threads is not seen. Where the chunk exists and the compression of each
-- column succeeds, a run of the threads that has joined them all has put together the chunk that
-- `compress_chunk` puts in place for every schedule in which each column has a thread and no thread
-- another column.
pub Run-compress_chunk :
    {P : Platform} (build : Build) (t : Table P) (chunk_id : ℕ) (f : ℕ → Segment P)
    (schedule : List ℕ) {k : ℕ} {s : System P}
    → chunk_id < length t.chunks
    → IsSchedule (column_count t) schedule
    → ((c : ℕ) → c < column_count t → compressed_segment build t chunk_id c ≡ ok (f c))
    → Run (column_count t) (compressed_segment build t chunk_id) k s
    → s.joined ≡ column_count t
    → compress_chunk build schedule chunk_id t
      ≡ ok (record t { chunks = set t.chunks chunk_id (record { columns = s.columns }) })
Run-compress_chunk build t chunk_id f schedule {s = s} below complete works run whole =
    let inv = Run-Inv build (column_count t) (compressed_segment build t chunk_id) f works run in
    compress_chunk-schedule build t chunk_id f schedule below complete works
    ∙ ap (λ ss. ok (record t { chunks = set t.chunks chunk_id (record { columns = ss }) }))
        (sym (
          inv.columns
          ∙ ap (λ m. segments_at build (compressed_segment build t chunk_id) f m 0) whole))
