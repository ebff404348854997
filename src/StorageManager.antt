-- ===== src/StorageManager.antt =====
-- `storage/storage_manager.cpp`: the tables by name. The singleton is the state that the operations
-- pass on; a table is its address, and a null pointer, which may stand under a name too, is `none`. The order of the names is that of the map, which is not fixed.
pub mod Map
pub mod Summary
use dyod_so_se.Outcome.{Outcome, ok, throw, ◌>>=◌, table_exists, no_such_table}
use dyod_so_se.Prelude.Text.{Text, eqb_Text}
use dyod_so_se.Prelude.{
  ℕ, Bool, true, false, List, [], ◌∷◌, ◌++◌, Option, none, some, if◌then◌else◌,
}

pub record StorageManager : Type 0 where
  pub tables : List (Text × Option ℕ)

-- `_tables.find(name)`
unfoldable pub find : Text → List (Text × Option ℕ) → Option (Option ℕ)
find name [] = none
find name ((n, t) ∷ m) = if eqb_Text n name then some t else find name m

-- `_tables.erase(…)`
unfoldable pub erase : Text → List (Text × Option ℕ) → List (Text × Option ℕ)
erase name [] = []
erase name ((n, t) ∷ m) = if eqb_Text n name then m else (n, t) ∷ erase name m

unfoldable pub has_table : Text → StorageManager → Bool
unfolding find
has_table name sm = elim (find name sm.tables) [ none ↦ false | some _ ↦ true ]

unfoldable pub add_table : Text → Option ℕ → StorageManager → Outcome StorageManager
unfolding has_table
add_table name table sm =
    if has_table name sm
    then throw table_exists
    else ok (record { tables = sm.tables ++ (name, table) ∷ [] })

unfoldable pub drop_table : Text → StorageManager → Outcome StorageManager
unfolding has_table erase
drop_table name sm =
    if has_table name sm then ok (record { tables = erase name sm.tables }) else throw no_such_table

unfoldable pub get_table : Text → StorageManager → Outcome (Option ℕ)
unfolding find
get_table name sm = elim (find name sm.tables) [ none ↦ throw no_such_table | some t ↦ ok t ]

names_of : List (Text × Option ℕ) → List Text
names_of [] = []
names_of ((n, _) ∷ m) = n ∷ names_of m

unfoldable pub table_names : StorageManager → List Text
unfolding names_of
table_names sm = names_of sm.tables

unfoldable pub reset : StorageManager → StorageManager
reset sm = record { tables = [] }
