-- ===== src/Table/Compress/Invariant.antt =====
-- What is true of the threads of `compress_chunk` after a number of steps.
use dyod_so_se.Outcome.{Outcome, ok, Build}
use dyod_so_se.Prelude.{
  ℕ, zero, suc, ◌+◌, ◌-◌, ◌*◌, ◌<◌, ◌≤◌, ◌≡◌, ◌⊎◌, inl, inr, refl, sym, ap, ◌∙◌, Bool, true, false,
  List, [], ◌∷◌, ◌++◌, some, length, length-set, length-replicate, get_elem?, get_elem?-lt,
  get_elem?-set_self, get_elem?-set_ne, set, replicate, arith, Bool-cases, ◌==◌, ==_iff, ◌≢◌,
}
use dyod_so_se.Segment.{Segment, null_pointer}
use dyod_so_se.Table.Compress.Schedule.{segments_at}
use dyod_so_se.Table.Compress.Threads.{
  System, init, Step, start, work, fail, join, Run, none_yet, one_more,
}
use dyod_so_se.Types.{Platform}

abbrev pub unfinished : List Bool → ℕ
unfinished [] = 0
unfinished (true ∷ bs) = unfinished bs
unfinished (false ∷ bs) = suc (unfinished bs)

unfinished-set :
    (bs : List Bool) (k : ℕ)
    → get_elem? bs k ≡ some false
    → suc (unfinished (set bs k true)) ≡ unfinished bs
unfinished-set [] k e = cc
unfinished-set (true ∷ bs) zero e = cc
unfinished-set (false ∷ bs) zero e = refl
unfinished-set (true ∷ bs) (suc k) e = unfinished-set bs k e
unfinished-set (false ∷ bs) (suc k) e = ap suc (unfinished-set bs k e)

pub unfinished-none :
    (bs : List Bool) → ((j : ℕ) → j < length bs → get_elem? bs j ≡ some true) → unfinished bs ≡ 0
unfinished-none [] h = refl
unfinished-none (true ∷ bs) h = unfinished-none bs (λ j lt. h (suc j) (omega (arith, lt)))
unfinished-none (false ∷ bs) h = let first = h 0 (omega arith) in cc

pub set-true :
    (bs : List Bool) (k i : ℕ)
    → get_elem? bs i ≡ some true
    → get_elem? (set bs k true) i ≡ some true
set-true [] k i e = e
set-true (b ∷ bs) zero zero e = refl
set-true (b ∷ bs) zero (suc i) e = e
set-true (b ∷ bs) (suc k) zero e = e
set-true (b ∷ bs) (suc k) (suc i) e = set-true bs k i e

unfinished-replicate : (n : ℕ) → unfinished (replicate n false) ≡ n
unfinished-replicate zero = refl
unfinished-replicate (suc n) = ap suc (unfinished-replicate n)

-- a list without `true` at an index has `false` there
pub ended-cases :
    (bs : List Bool) (k : ℕ)
    → k < length bs
    → (get_elem? bs k ≡ some true) ⊎ (get_elem? bs k ≡ some false)
ended-cases bs k below = let (b, e) = get_elem?-lt bs k below in go b e
  where
    go :
        (b : Bool)
        → get_elem? bs k ≡ some b
        → (get_elem? bs k ≡ some true) ⊎ (get_elem? bs k ≡ some false)
    go true e = inl e
    go false e = inr e

pub replicate-false : (n k : ℕ) → get_elem? (replicate n false) k ≡ some true → ⊥
replicate-false zero k e = cc
replicate-false (suc n) zero e = cc
replicate-false (suc n) (suc k) e = replicate-false n k e

module _ {P : Platform} (build : Build) (n : ℕ) (compress : ℕ → Outcome (Segment P))
    (f : ℕ → Segment P) where
  segments_at-last :
      (m i : ℕ)
      → segments_at build compress f (suc m) i ≡ segments_at build compress f m i ++ f (i + m) ∷ []
  unfolding segments_at
  segments_at-last zero i = ap (λ k. f k ∷ []) (omega arith)
  segments_at-last (suc m) i = ap (◌∷◌ (f i)) (
      segments_at-last m (suc i)
      ∙ ap (λ k. segments_at build compress f m (suc i) ++ f k ∷ []) (omega arith))

  -- what is true after `k` steps
  pub record Inv (k : ℕ) (s : System P) : Type 0 where
    pub started : s.started ≤ n
    pub joined : s.joined ≤ n
    pub after : 0 < s.joined → s.started ≡ n
    pub flags : length s.ended ≡ n
    pub slots : length s.compressed_segments ≡ n
    pub written :
        (j : ℕ) → get_elem? s.ended j ≡ some true → get_elem? s.compressed_segments j ≡ some (f j)
    pub ended : (j : ℕ) → j < s.joined → get_elem? s.ended j ≡ some true
    pub columns : s.columns ≡ segments_at build compress f s.joined 0
    pub going : s.terminated ≡ false
    pub steps : k + ((n - s.started) + unfinished s.ended + (n - s.joined)) ≡ 3 * n

  init-Inv : Inv 0 (init n)
  unfolding segments_at
  init-Inv = record {
    started = omega arith;
    joined = omega arith;
    after = λ h. absurd (omega (arith, h));
    flags = length-replicate n false;
    slots = length-replicate n null_pointer;
    written = λ j e. absurd (replicate-false n j e);
    ended = λ j lt. absurd (omega (arith, lt));
    columns = refl;
    going = refl;
    steps = omega (arith, unfinished-replicate n);
  }

  module _ (works : (c : ℕ) → c < n → compress c ≡ ok (f c)) where
    Step-Inv : {k : ℕ} {s s' : System P} → Step n compress s s' → Inv k s → Inv (suc k) s'
    Step-Inv {k} {s} (start going below) inv = record {
      started = omega (arith, below);
      joined = inv.joined;
      after = λ h. absurd (omega (arith, inv.after h, below));
      flags = inv.flags;
      slots = inv.slots;
      written = inv.written;
      ended = inv.ended;
      columns = inv.columns;
      going = inv.going;
      steps = omega (arith, inv.steps, below);
    }
    Step-Inv {k} {s} (fail j going below running failing) inv =
        absurd (failing (f j) (works j (omega (arith, below, inv.started))))
    Step-Inv {k} {s} (work j z going below running made) inv = record {
      started = inv.started;
      joined = inv.joined;
      after = inv.after;
      flags = length-set s.ended j true ∙ inv.flags;
      slots = length-set s.compressed_segments j z ∙ inv.slots;
      written = written_after;
      ended = λ i lt. set-true s.ended j i (inv.ended i lt);
      columns = inv.columns;
      going = inv.going;
      steps = omega (arith, inv.steps, unfinished-set s.ended j running);
    }
      where
        inside : j < n
        inside = omega (arith, below, inv.started)

        same : z ≡ f j
        same = let made' = works j inside in cc

        written_after :
            (i : ℕ)
            → get_elem? (set s.ended j true) i ≡ some true
            → get_elem? (set s.compressed_segments j z) i ≡ some (f i)
        written_after i e = elim (Bool-cases (i == j)) [
          | inl equal ↦
              let one : i ≡ j = (==_iff _ _).0 equal in
              ap (get_elem? (set s.compressed_segments j z)) one
              ∙ get_elem?-set_self s.compressed_segments j z (omega (arith, inside, inv.slots))
              ∙ ap some (same ∙ ap f (sym one))
          | inr different ↦
              let apart : j ≢ i = λ e'. ground arith in
              get_elem?-set_ne s.compressed_segments z apart
              ∙ inv.written i (sym (get_elem?-set_ne s.ended true apart) ∙ e)
        ]
    Step-Inv {k} {s} (join z going all below done there) inv = record {
      started = inv.started;
      joined = omega (arith, below);
      after = λ h. all;
      flags = inv.flags;
      slots = inv.slots;
      written = inv.written;
      ended = λ i lt. elim (Bool-cases (i == s.joined)) [
        | inl last ↦ ap (get_elem? s.ended) ((==_iff _ _).0 last) ∙ done
        | inr other ↦ inv.ended i (ground (arith, other, lt))
      ];
      columns = grown;
      going = inv.going;
      steps = omega (arith, inv.steps, below);
    }
      where
        grown : s.columns ++ z ∷ [] ≡ segments_at build compress f (suc s.joined) 0
        grown =
            let right = inv.written s.joined done in
            let same : z ≡ f s.joined = cc in
            let zero_add : s.joined ≡ 0 + s.joined = omega arith in
            ap (λ xs. xs ++ z ∷ []) inv.columns
            ∙ ap (λ y. segments_at build compress f s.joined 0 ++ y ∷ []) (same ∙ ap f zero_add)
            ∙ sym (segments_at-last s.joined 0)

    pub Run-Inv : {k : ℕ} {s : System P} → Run n compress k s → Inv k s
    Run-Inv none_yet = init-Inv
    Run-Inv (one_more run step) = Step-Inv step (Run-Inv run)
