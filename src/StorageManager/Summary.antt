-- ===== src/StorageManager/Summary.antt =====
-- `StorageManager::print`: a line for each table.
use dyod_so_se.Outcome.{ok, subscript, deref}
use dyod_so_se.Prelude.Text.{Text, text}
use dyod_so_se.Prelude.{
  ℕ, ◌^◌, ◌%◌, ◌<◌, ◌≡◌, refl, List, [], ◌∷◌, ◌++◌, Bool, Option, some, length, arith,
}
use dyod_so_se.Reference.{Store}
use dyod_so_se.Stream.{Written, ◌>>=◌, ◌>>◌, write, call, endl, show_ℕ}
use dyod_so_se.StorageManager.{StorageManager}
use dyod_so_se.Table
use dyod_so_se.Table.Contents.Counts.{row_count-length}
use dyod_so_se.Table.Contents.{Row, Schema, Stores}
use dyod_so_se.Table.{Table}
use dyod_so_se.Types.{Platform, DataType}

module _ {P : Platform} (store : Store P) where
  unfoldable pub print_tables : List (Text × Option ℕ) → Written (Unit {0})
  unfolding Table.column_count Table.row_count Table.chunk_count
  print_tables [] = write []
  print_tables ((name, table) ∷ tables) = do
    write name
    write (text " #columns: ")
    address ← call (deref table)
    t ← call (subscript store address)
    write (show_ℕ (Table.column_count t))
    write (text " #rows: ")
    rows ← call (Table.row_count t)
    write (show_ℕ rows)
    write (text " #chunks ")
    write (show_ℕ (Table.chunk_count t))
    write endl
    print_tables tables

  unfoldable pub print : StorageManager → Written (Unit {0})
  unfolding print_tables
  print sm = print_tables sm.tables

-- what a line tells of a table
pub record Description : Type 0 where
  pub name : Text
  pub columns : ℕ
  pub rows : ℕ
  pub chunks : ℕ

abbrev pub lines_text : List Description → Text
lines_text [] = []
lines_text (d ∷ ds) =
    d.name
    ++ (text " #columns: "
        ++ (show_ℕ d.columns
            ++ (text " #rows: "
                ++ (show_ℕ d.rows
                    ++ (text " #chunks " ++ (show_ℕ d.chunks ++ (endl ++ lines_text ds)))))))

-- The tables behind the addresses store rows, and these are their numbers.
pub data Describes {P : Platform} (store : Store P)
    : List (Text × Option ℕ) → List Description → Type 0 where
  no_table : Describes store [] []
  table :
      {tables : List (Text × Option ℕ)} {ds : List Description} (name : Text) (address : ℕ)
      (t : Table P) (d : DataType) (b : Bool) (schema : Schema) (rows : List (Row P))
      → subscript store address ≡ ok t
      → Stores ((d, b) ∷ schema) t rows
      → length rows < 2 ^ 64
      → length t.chunks < 2 ^ 32
      → Describes store tables ds
      → Describes store ((name, some address) ∷ tables) (
          record {
            name = name;
            columns = length t.column_names;
            rows = length rows;
            chunks = length t.chunks;
          }
          ∷ ds)

module _ {P : Platform} (store : Store P) where
  print_tables-lines :
      {tables : List (Text × Option ℕ)} {ds : List Description}
      → Describes store tables ds
      → print_tables store tables ≡ (ok tt, lines_text ds)
  unfolding print_tables Table.column_count Table.chunk_count
  print_tables-lines no_table = refl
  print_tables-lines (table name address t d b schema rows there stored small few more) =
      let columns : length t.column_names % 2 ^ 16 ≡ length t.column_names =
        omega (arith, stored.named.types, stored.complete, stored.narrow) in
      let chunks : length t.chunks % 2 ^ 32 ≡ length t.chunks = omega (arith, few) in
      rw
        (
          there,
          columns,
          chunks,
          row_count-length d b schema t rows stored small,
          print_tables-lines more,
        )
        refl

  -- Where the tables of a storage manager store rows, each in at least one column, fewer than 2 ^
  -- 64 rows and fewer than 2 ^ 32 chunks, `print` writes a line for each with its name and the
  -- numbers of its columns, rows and chunks.
  pub print-lines :
      (sm : StorageManager) (ds : List Description)
      → Describes store sm.tables ds
      → print store sm ≡ (ok tt, lines_text ds)
  unfolding print
  print-lines sm ds h = print_tables-lines h
