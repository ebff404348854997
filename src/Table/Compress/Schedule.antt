-- ===== src/Table/Compress/Schedule.antt =====
-- The threads of `compress_chunk` write disjoint elements, so the order of their writes is not seen.
use dyod_so_se.Algorithm.Order.{In}
use dyod_so_se.Outcome.{Outcome, ok, ◌>>=◌, Build}
use dyod_so_se.Prelude.{
  ℕ, zero, suc, ◌+◌, ◌<◌, ◌≡◌, ◌⊎◌, inl, inr, refl, sym, ap, ◌∙◌, List, [], ◌∷◌, some, length, All,
  arith, set, replicate, get_elem?, get_elem?-set_self, get_elem?-set_ne, length-set,
  length-replicate, lt→ltb, Bool-cases, ◌==◌, ==_iff, ◌≢◌,
}
use dyod_so_se.Segment.{Segment, null_pointer}
use dyod_so_se.Table.Compress.{run_threads, compressed_segment, compress_chunk}
use dyod_so_se.Table.{Table, column_count}
use dyod_so_se.Types.{Platform}

module _ {ℓ} {A : Type ℓ} where
  -- lists of one length that agree at every index are equal
  pub list_ext :
      (xs ys : List A)
      → length xs ≡ length ys
      → ((i : ℕ) → i < length xs → get_elem? xs i ≡ get_elem? ys i)
      → xs ≡ ys
  list_ext [] [] e h = refl
  list_ext [] (y ∷ ys) e h = absurd (omega arith)
  list_ext (x ∷ xs) [] e h = absurd (omega arith)
  list_ext (x ∷ xs) (y ∷ ys) e h =
      let tails = list_ext xs ys (omega arith) (λ i lt. h (suc i) (omega arith)) in
      let heads = h 0 (omega arith) in cc

-- each column is compressed by some thread, and no thread has another column
abbrev pub IsSchedule : ℕ → List ℕ → Type 0
IsSchedule n schedule = All (λ c. c < n) schedule × ((c : ℕ) → c < n → In c schedule)

module _ {P : Platform} (build : Build) (compress : ℕ → Outcome (Segment P))
    (f : ℕ → Segment P) where
  abbrev Ran : List ℕ → List (Segment P) → Type 0
  Ran schedule slots =
      (result : List (Segment P)) × (run_threads build compress schedule slots ≡ ok result)
      × (length result ≡ length slots)
      × ((c : ℕ)
          → c < length slots
          → In c schedule ⊎ (get_elem? slots c ≡ some (f c))
          → get_elem? result c ≡ some (f c))

  run_threads-Ran :
      (schedule : List ℕ) (slots : List (Segment P))
      → All (λ c. c < length slots) schedule
      → ((c : ℕ) → c < length slots → compress c ≡ ok (f c))
      → Ran schedule slots
  unfolding run_threads
  run_threads-Ran [] slots inside works = (slots, refl, refl, written)
    where
      written :
          (c : ℕ)
          → c < length slots
          → ⊥ ⊎ (get_elem? slots c ≡ some (f c))
          → get_elem? slots c ≡ some (f c)
      written c lt (inl i) = absurd i
      written c lt (inr e) = e
  run_threads-Ran (k ∷ ks) slots inside works =
      let next = set slots k (f k) in
      let len : length next ≡ length slots = length-set slots k (f k) in
      let (result, run, size, holds) =
        run_threads-Ran ks next (rw len inside.1) (λ c lt. works c (rw len at lt)) in
      (
        result,
        rw (works k inside.0, run_threads, lt→ltb k (length slots) inside.0) run,
        size ∙ len,
        λ c lt h. holds c (rw len lt) (after c lt h),
      )
    where
      after :
          (c : ℕ)
          → c < length slots
          → ((c ≡ k) ⊎ In c ks) ⊎ (get_elem? slots c ≡ some (f c))
          → In c ks ⊎ (get_elem? (set slots k (f k)) c ≡ some (f c))
      after c lt h = elim (Bool-cases (c == k)) [
        | inl e ↦
            let same : c ≡ k = (==_iff _ _).0 e in
            inr (rw same (get_elem?-set_self slots k (f k) inside.0))
        | inr ne ↦ other h (λ e. ground arith)
      ]
        where
          other :
              ((c ≡ k) ⊎ In c ks) ⊎ (get_elem? slots c ≡ some (f c))
              → k ≢ c
              → In c ks ⊎ (get_elem? (set slots k (f k)) c ≡ some (f c))
          other (inl (inl e)) ne = absurd (ne (sym e))
          other (inl (inr i)) ne = inl i
          other (inr e) ne = inr (get_elem?-set_ne slots (f k) ne ∙ e)

  unfoldable pub segments_at : ℕ → ℕ → List (Segment P)
  segments_at zero i = []
  segments_at (suc n) i = f i ∷ segments_at n (suc i)

  pub get_elem?-segments_at : (n i c : ℕ) → c < n → get_elem? (segments_at n i) c ≡ some (f (i + c))
  unfolding segments_at
  get_elem?-segments_at zero i c lt = absurd (omega arith)
  get_elem?-segments_at (suc n) i zero lt =
      let same : i ≡ i + 0 = omega arith in ap (λ k. some (f k)) same
  get_elem?-segments_at (suc n) i (suc c) lt =
      let same : suc i + c ≡ i + suc c = omega arith in
      get_elem?-segments_at n (suc i) c (omega arith) ∙ ap (λ k. some (f k)) same

  pub length-segments_at : (n i : ℕ) → length (segments_at n i) ≡ n
  unfolding segments_at
  length-segments_at zero i = refl
  length-segments_at (suc n) i = ap suc (length-segments_at n (suc i))

  pub run_threads-segments_at :
      (n : ℕ) (schedule : List ℕ)
      → IsSchedule n schedule
      → ((c : ℕ) → c < n → compress c ≡ ok (f c))
      → run_threads build compress schedule (replicate n null_pointer) ≡ ok (segments_at n 0)
  run_threads-segments_at n schedule complete works =
      let slots : List (Segment P) = replicate n null_pointer in
      let size : length slots ≡ n = length-replicate n null_pointer in
      let (result, run, len, holds) =
        run_threads-Ran schedule slots (rw size complete.0) (λ c lt. works c (rw size at lt)) in
      let same : result ≡ segments_at n 0 =
        list_ext result (segments_at n 0) (len ∙ size ∙ sym (length-segments_at n 0)) (λ c lt.
          let below : c < n = omega (arith, len, size) in
          let zero_add : 0 + c ≡ c = omega arith in
          holds c (rw size below) (inl (complete.1 c below))
          ∙ sym (get_elem?-segments_at n 0 c below ∙ ap (λ k. some (f k)) zero_add)) in
      rw run (ap ok same)

-- Whatever the order in which the threads write, as long as each column has a thread and no thread
-- another column, the chunk exists and the compression of each column succeeds, `compress_chunk`
-- succeeds and replaces the chunk, and no other, by one with the compressed segments in the order
-- of the columns.
pub compress_chunk-schedule :
    {P : Platform} (build : Build) (t : Table P) (chunk_id : ℕ) (f : ℕ → Segment P)
    (schedule : List ℕ)
    → chunk_id < length t.chunks
    → IsSchedule (column_count t) schedule
    → ((c : ℕ) → c < column_count t → compressed_segment build t chunk_id c ≡ ok (f c))
    → compress_chunk build schedule chunk_id t
      ≡ ok (record t {
        chunks = set t.chunks chunk_id (record {
          columns = segments_at build (compressed_segment build t chunk_id) f (column_count t) 0;
        });
      })
unfolding compress_chunk
compress_chunk-schedule build t chunk_id f schedule below complete works = rw (
  run_threads-segments_at build (compressed_segment build t chunk_id) f (column_count t) schedule
      complete works,
  ◌>>=◌,
  lt→ltb chunk_id (length t.chunks) below,
)
