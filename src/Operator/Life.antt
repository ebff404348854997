-- ===== src/Operator/Life.antt =====
-- The output of an operator over its executions.
use dyod_so_se.Operator.{Operator, constructed, execute, get_output, get_table_on_execute}
use dyod_so_se.Outcome.{Outcome, ok, throw, undefined, not_executed, no_such_table, no_output}
use dyod_so_se.Prelude.Text.{Text}
use dyod_so_se.Prelude.{
  ℕ, zero, suc, ◌≡◌, ◌≢◌, ◌↔◌, refl, ap, ◌∙◌, arith, true, false, inl, inr, Bool-cases, Option,
  none, some, List, [], ◌∷◌, ◌++◌, All, get_elem?,
}
use dyod_so_se.StorageManager.Map.{View, Models}
use dyod_so_se.StorageManager.{StorageManager}

-- an operator after it was executed this often, with what `_on_execute` did, the newest first
abbrev pub executed : List (Outcome (Option ℕ)) → Operator
executed [] = constructed
executed (result ∷ earlier) = (execute result (executed earlier)).1

-- some `_on_execute` returned a table
abbrev pub HasTable : List (Outcome (Option ℕ)) → Type 0
HasTable results = (n : ℕ) × (table : ℕ) × (get_elem? results n ≡ some (ok (some table)))

abbrev pub DidNotReturn : Outcome (Option ℕ) → Type 0
DidNotReturn result = (table : Option ℕ) → result ≢ ok table

-- the newest `_on_execute` that returned, returned this
abbrev pub ReturnedLast : List (Outcome (Option ℕ)) → Option ℕ → Type 0
ReturnedLast results table =
    (failed : List (Outcome (Option ℕ))) × (earlier : List (Outcome (Option ℕ))) × (results
      ≡ failed ++ ok table ∷ earlier)
    × All DidNotReturn failed

HasTable-cons :
    (r : Outcome (Option ℕ)) (rs : List (Outcome (Option ℕ)))
    → ((table : ℕ) → r ≢ ok (some table))
    → HasTable (r ∷ rs) ↔ HasTable rs
HasTable-cons r rs other =
    (λ (n, table, at). before n table at, λ (n, table, at). (suc n, table, at))
  where
    before : (n table : ℕ) → get_elem? (r ∷ rs) n ≡ some (ok (some table)) → HasTable rs
    before zero table at = absurd (other table (cc))
    before (suc n) table at = (n, table, at)

executed-HasTable :
    (results : List (Outcome (Option ℕ)))
    → ((executed results).was_executed ≡ true) ↔ HasTable results
unfolding execute
executed-HasTable [] = ((λ e. cc), λ (n, table, at). cc)
executed-HasTable (ok (some table) ∷ rs) = ((λ e. (0, table, refl)), λ h. refl)
executed-HasTable (ok none ∷ rs) =
    let (to, from) = executed-HasTable rs in
    let (down, up) = HasTable-cons (ok none) rs (λ t e. cc) in
    ((λ e. up (to e)), λ h. from (down h))
executed-HasTable (throw x ∷ rs) =
    let (to, from) = executed-HasTable rs in
    let (down, up) = HasTable-cons (throw x) rs (λ t e. cc) in
    ((λ e. up (to e)), λ h. from (down h))
executed-HasTable (undefined ∷ rs) =
    let (to, from) = executed-HasTable rs in
    let (down, up) = HasTable-cons undefined rs (λ t e. cc) in
    ((λ e. up (to e)), λ h. from (down h))

executed-output :
    (failed earlier : List (Outcome (Option ℕ))) (table : Option ℕ)
    → All DidNotReturn failed
    → (executed (failed ++ ok table ∷ earlier)).output ≡ table
unfolding execute
executed-output [] earlier none h = refl
executed-output [] earlier (some table) h = refl
executed-output (ok x ∷ failed) earlier table h = absurd (h.0 x refl)
executed-output (throw e ∷ failed) earlier table h = executed-output failed earlier table h.1
executed-output (undefined ∷ failed) earlier table h = executed-output failed earlier table h.1

executed-ReturnedLast :
    (results : List (Outcome (Option ℕ)))
    → HasTable results
    → ReturnedLast results (executed results).output
unfolding execute
executed-ReturnedLast [] (n, table, at) = cc
executed-ReturnedLast (ok none ∷ rs) h = ([], rs, refl, tt)
executed-ReturnedLast (ok (some table) ∷ rs) h = ([], rs, refl, tt)
executed-ReturnedLast (throw e ∷ rs) h =
    let (failed, earlier, same, none_returned) =
      executed-ReturnedLast rs ((HasTable-cons (throw e) rs (λ t q. cc)).0 h) in
    (throw e ∷ failed, earlier, ap (◌∷◌ (throw e)) same, ((λ t q. cc), none_returned))
executed-ReturnedLast (undefined ∷ rs) h =
    let (failed, earlier, same, none_returned) =
      executed-ReturnedLast rs ((HasTable-cons undefined rs (λ t q. cc)).0 h) in
    (undefined ∷ failed, earlier, ap (◌∷◌ undefined) same, ((λ t q. cc), none_returned))

get_output-executed : (op : Operator) → op.was_executed ≡ true → get_output op ≡ ok op.output
unfolding get_output
get_output-executed op e = ground (arith, e)

get_output-fresh : (op : Operator) → op.was_executed ≡ false → get_output op ≡ throw not_executed
unfolding get_output
get_output-fresh op e = ground (arith, e)

-- what `get_output` does after these executions
abbrev pub GetsOutput : List (Outcome (Option ℕ)) → Type 0
GetsOutput results =
    ((table : Option ℕ)
      → (get_output (executed results) ≡ ok table)
        ↔ (HasTable results × ReturnedLast results table))
    × ((get_output (executed results) ≡ throw not_executed) ↔ (¬ HasTable results))

-- The output of an operator over any sequence of executions, with any outcomes of `_on_execute`:
-- `get_output` returns a pointer exactly if some execution returned a table and the newest one that
-- returned at all returned this pointer, which is null where that one returned no table; it throws
-- that the operator was not executed exactly if none returned a table, so before the first
-- execution too.
pub executed-get_output : (results : List (Outcome (Option ℕ))) → GetsOutput results
executed-get_output results =
    let op : Operator = executed results in
    let (to, from) = executed-HasTable results in
    elim (Bool-cases op.was_executed) [
      | inl was ↦
          let read : get_output op ≡ ok op.output = get_output-executed op was in
          (
            λ table. (
              λ e.
                  let same : op.output ≡ table = cc in
                  (to was, rw same at (executed-ReturnedLast results (to was))),
              λ (has, (failed, earlier, split, failures)).
                  read
                  ∙ ap (λ rs. ok (executed rs).output) split
                  ∙ ap ok (executed-output failed earlier table failures),
            ),
            ((λ e. cc), λ no_table. absurd (no_table (to was))),
          )
      | inr not_yet ↦
          let read : get_output op ≡ throw not_executed = get_output-fresh op not_yet in
          (
            λ table. ((λ e. cc), λ (has, last). let was = from has in cc),
            ((λ e has. let was = from has in cc), λ no_table. read),
          )
    ]

-- Where a storage manager stands for a map from names, the execution of a new `GetTable` sets the
-- output to the table that is bound to its name, and throws where there is none and where a null
-- pointer is bound.
pub get_table_on_execute-view :
    (view : View) (sm : StorageManager)
    → Models view sm
    → (name : Text)
    → (execute (get_table_on_execute name sm) constructed ≡ elim (view name) [
      | none ↦ (throw no_such_table, constructed)
      | some none ↦ (throw no_output, constructed)
      | some (some t) ↦ (ok tt, record { output = some t; was_executed = true })
    ])
unfolding get_table_on_execute execute
get_table_on_execute-view view sm models name = ground (arith, models.finds name)
