-- ===== src/Operator.antt =====
-- `operators/abstract_operator.cpp`, `get_table.cpp` and `table_wrapper.cpp`: the life of an operator.
-- A table is its address, and a null pointer is `none`.
pub mod Life
use dyod_so_se.Outcome.{
  Outcome, ok, throw, undefined, ◌>>=◌, ◌>>◌, assert, no_output, not_executed, no_such_table,
}
use dyod_so_se.Prelude.Text.{Text}
use dyod_so_se.Prelude.{ℕ, Bool, true, false, Option, none, some}
use dyod_so_se.StorageManager.{StorageManager, has_table, get_table}

pub record Operator : Type 0 where
  pub output : Option ℕ
  pub was_executed : Bool

abbrev pub constructed : Operator
constructed = record { output = none; was_executed = false }

-- `execute`, for the outcome of `_on_execute`; the operator afterwards, also where it throws
unfoldable pub execute : Outcome (Option ℕ) → Operator → Outcome (Unit {0}) × Operator
execute (ok (some table)) op = (ok tt, record { output = some table; was_executed = true })
execute (ok none) op = (throw no_output, record op { output = none })
execute (throw e) op = (throw e, op)
execute undefined op = (undefined, op)

unfoldable pub get_output : Operator → Outcome (Option ℕ)
get_output op = do assert op.was_executed not_executed; ok op.output

-- `_left_input_table`, through a pointer that may be null
unfoldable pub left_input_table : Option Operator → Outcome (Option ℕ)
unfolding get_output
left_input_table none = undefined
left_input_table (some input) = get_output input

-- `GetTable::_on_execute`
unfoldable pub get_table_on_execute : Text → StorageManager → Outcome (Option ℕ)
unfolding has_table get_table
get_table_on_execute name sm = do assert (has_table name sm) no_such_table; get_table name sm

-- `TableWrapper::_on_execute`
unfoldable pub table_wrapper_on_execute : Option ℕ → Outcome (Option ℕ)
table_wrapper_on_execute table = ok table
