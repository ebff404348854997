-- ===== src/Table/Compress/Failure.antt =====
-- A thread of `compress_chunk` that fails.
use dyod_so_se.Algorithm.Order.{In}
use dyod_so_se.Outcome.{Outcome, ok, throw, undefined, ◌>>=◌, Build, assign}
use dyod_so_se.Prelude.{
  ℕ, ◌<◌, ◌≤◌, ◌≡◌, ◌≢◌, inl, inr, refl, sym, ap, ◌∙◌, true, List, [], ◌∷◌, some, get_elem?,
  get_elem?-set_ne, replicate, Bool-cases, ◌==◌, ==_iff, leb, arith,
}
use dyod_so_se.Segment.{Segment, null_pointer}
use dyod_so_se.Table.Compress.Invariant.{replicate-false, set-true}
use dyod_so_se.Table.Compress.Threads.{
  System, Step, start, work, fail, join, Run, none_yet, one_more,
}
use dyod_so_se.Table.Compress.{compressed_segment, run_threads, compress_chunk}
use dyod_so_se.Table.{Table, column_count}
use dyod_so_se.Types.{Platform}

module _ {P : Platform} (n : ℕ) (compress : ℕ → Outcome (Segment P)) where
  -- a thread that has ended has compressed its column, and those that are joined have ended
  record Ended (s : System P) : Type 0 where
    pub made : (j : ℕ) → get_elem? s.ended j ≡ some true → (z : Segment P) × (compress j ≡ ok z)
    pub ended : (j : ℕ) → j < s.joined → get_elem? s.ended j ≡ some true

  Step-Ended : {s s' : System P} → Step n compress s s' → Ended s → Ended s'
  Step-Ended (start going below) e = record { made = e.made; ended = e.ended }
  Step-Ended {s} (work k z going below running made) e = record {
    made = λ j there. elim (Bool-cases (j == k)) [
      | inl same ↦ (z, ap compress ((==_iff _ _).0 same) ∙ made)
      | inr other ↦
          let apart : k ≢ j = λ e'. ground arith in
          e.made j (sym (get_elem?-set_ne s.ended true apart) ∙ there)
    ];
    ended = λ j lt. set-true s.ended k j (e.ended j lt);
  }
  Step-Ended (fail k going below running failing) e = record { made = e.made; ended = e.ended }
  Step-Ended {s} (join z going all below done there) e = record {
    made = e.made;
    ended = λ j lt. elim (Bool-cases (j == s.joined)) [
      | inl last ↦ ap (get_elem? s.ended) ((==_iff _ _).0 last) ∙ done
      | inr other ↦ e.ended j (ground (arith, other, lt))
    ];
  }

  Run-Ended : {k : ℕ} {s : System P} → Run n compress k s → Ended s
  Run-Ended none_yet = record {
    made = λ j e. absurd (replicate-false n j e);
    ended = λ j lt. absurd (omega (arith, lt));
  }
  Run-Ended (one_more run step) = Step-Ended step (Run-Ended run)

  joined-le :
      (c : ℕ) → ((z : Segment P) → compress c ≢ ok z) → (s : System P) → Ended s → s.joined ≤ c
  joined-le c failing s e = elim (Bool-cases (leb s.joined c)) [
    | inl le ↦ ground (arith, le)
    | inr above ↦
        let (z, made) = e.made c (e.ended c (ground (arith, above))) in absurd (failing z made)
  ]

bind-ok :
    {A B : Type 0} (x : Outcome A) (f : A → Outcome B) (b : B)
    → ((a : A) → x ≡ ok a → f a ≢ ok b)
    → (x >>= f) ≢ ok b
bind-ok (ok a) f b h = h a refl
bind-ok (throw e) f b h = λ e'. cc
bind-ok undefined f b h = λ e'. cc

module _ {P : Platform} (build : Build) (compress : ℕ → Outcome (Segment P)) where
  one_thread :
      (c : ℕ) (schedule : List ℕ) (slots slots' : List (Segment P)) (o : Outcome (Segment P))
      → compress c ≡ o
      → ((z : Segment P)
          → compress c ≡ ok z
          → (ss : List (Segment P)) → run_threads build compress schedule ss ≢ ok slots')
      → run_threads build compress (c ∷ schedule) slots ≢ ok slots'
  unfolding run_threads
  one_thread c schedule slots slots' (ok z) e others =
      rw (e, run_threads)
        (bind-ok (assign slots c z) (run_threads build compress schedule) slots'
          (λ ss run. others z e ss))
  one_thread c schedule slots slots' (throw x) e others = rw (e, run_threads) (λ e'. cc)
  one_thread c schedule slots slots' undefined e others = rw (e, run_threads) (λ e'. cc)

  run_threads-fails :
      (c : ℕ)
      → ((z : Segment P) → compress c ≢ ok z)
      → (schedule : List ℕ) → In c schedule
      → (slots slots' : List (Segment P)) → run_threads build compress schedule slots ≢ ok slots'
  run_threads-fails c failing [] there slots slots' = absurd there
  run_threads-fails c failing (d ∷ schedule) (inl same) slots slots' =
      one_thread d schedule slots slots' (compress d) refl
        (λ z made ss. absurd (failing z (ap compress same ∙ made)))
  run_threads-fails c failing (d ∷ schedule) (inr more) slots slots' =
      one_thread d schedule slots slots' (compress d) refl
        (λ z made ss. run_threads-fails c failing schedule more ss slots')

-- Where the compression of a column fails, no run of the threads joins its thread or one behind it,
-- and `compress_chunk` returns for no schedule in which the column has a thread.
pub Run-fails :
    {P : Platform} (build : Build) (t : Table P) (chunk_id c : ℕ) (schedule : List ℕ) {k : ℕ}
    {s : System P}
    → ((z : Segment P) → compressed_segment build t chunk_id c ≢ ok z)
    → In c schedule
    → Run (column_count t) (compressed_segment build t chunk_id) k s
    → (s.joined ≤ c) × ((t' : Table P) → compress_chunk build schedule chunk_id t ≢ ok t')
unfolding compress_chunk
Run-fails build t chunk_id c schedule {s = s} failing there run = (
  joined-le (column_count t) (compressed_segment build t chunk_id) c failing s
      (Run-Ended (column_count t) (compressed_segment build t chunk_id) run),
  λ t'.
      bind-ok
        (run_threads build (compressed_segment build t chunk_id) schedule
          (replicate (column_count t) null_pointer))
        (λ segments.
          assign t.chunks chunk_id (record { columns = segments })
          >>= (λ chunks. ok (record t { chunks = chunks })))
        t'
        (λ ss ran. absurd (
          run_threads-fails build (compressed_segment build t chunk_id) c failing schedule there
            (replicate (column_count t) null_pointer) ss ran)),
)
