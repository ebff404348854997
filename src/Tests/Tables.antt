-- ===== src/Tests/Tables.antt =====
-- The theorems on tables, the storage manager, operators and strings, at concrete inputs.
use dyod_so_se.AttributeVector
use dyod_so_se.AttributeVector.{uint8}
use dyod_so_se.Algorithm
use dyod_so_se.Chunk
use dyod_so_se.Chunk.{Chunk}
use dyod_so_se.DictionarySegment
use dyod_so_se.DictionarySegment.{DictionarySegment}
use dyod_so_se.Operator.Life.{GetsOutput, executed, executed-get_output}
use dyod_so_se.Operator.{execute, get_output}
use dyod_so_se.Outcome.{ok, throw, undefined, debug, Outcome, no_such_table}
use dyod_so_se.Prelude.Int.{pos}
use dyod_so_se.Prelude.Text.{Text, text, eqb_Text}
use dyod_so_se.Prelude.{
  ℕ, zero, suc, ◌≡◌, ◌<◌, refl, true, false, List, [], ◌∷◌, Option, none, some, arith,
  if◌then◌else◌,
}
use dyod_so_se.Segment.{Segment, value_segment, dictionary_segment}
use dyod_so_se.StorageManager.Map.{
  View, Models, Added, Dropped, add_table-Added, drop_table-Dropped,
}
use dyod_so_se.StorageManager
use dyod_so_se.StorageManager.{StorageManager, get_table, has_table, table_names}
use dyod_so_se.StringUtils.Split.{
  AreFree, join, terminated, split_string_by_delimiter-join, split_string_by_delimiter-terminated,
}
use dyod_so_se.StringUtils.Trim.{CutsAt, Trimmed, trim_source_file_path-CutsAt}
use dyod_so_se.StringUtils.{split_string_by_delimiter, trim_source_file_path}
use dyod_so_se.Table
use dyod_so_se.Table.Columns.{column_name_lem, add_column_lem, ColumnAdded}
use dyod_so_se.Table.Compress.{compressed_segment}
use dyod_so_se.Tests.{platform, some_table}
use dyod_so_se.ValueSegment
use dyod_so_se.Types.{int}

-- what becomes of `some_values`
abbrev pub compressed : ℕ → Segment platform
compressed c = dictionary_segment int (record {
  dictionary = pos 3 ∷ pos 7 ∷ [];
  attribute_vector = record { width_of = uint8; ids = 1 ∷ 2 ∷ 0 ∷ [] };
})

pub compresses :
    (c : ℕ)
    → c < Table.column_count some_table
    → compressed_segment debug some_table 0 c ≡ ok (compressed c)
unfolding Table.column_count compressed_segment Algorithm.unique Algorithm.sort
    DictionarySegment.initialize_attributes_vector ValueSegment.size
    DictionarySegment.fill_attributes_vector Algorithm.invert AttributeVector.set_id
    AttributeVector.new Algorithm.get_or_insert
compresses zero h = refl
compresses (suc c) h = absurd (omega arith)

column_name_lem_example : Table.column_name some_table 1 ≡ undefined
column_name_lem_example = column_name_lem some_table 1

abbrev empty_chunk : Chunk platform
empty_chunk = record {
  columns = value_segment int (record { values = []; null_values = none }) ∷ [];
}

-- a table with a column and no row
abbrev empty_table : Table.Table platform
empty_table = record {
  chunks = empty_chunk ∷ [];
  column_names = text "a" ∷ [];
  column_types = text "int" ∷ [];
  column_nullable = false ∷ [];
  target_chunk_size = 3;
}

add_column_lem_example :
    ColumnAdded debug empty_table (text "b") (text "int") true empty_chunk [] int false
unfolding Chunk.size Table.contains
add_column_lem_example =
    add_column_lem debug empty_table (text "b") (text "int") true empty_chunk [] int
      (record { distinct = (refl, tt); types = refl; nullable = refl }) refl refl refl

abbrev pub bound : View
bound n = if eqb_Text (text "t") n then some (some 0) else none

abbrev pub manager : StorageManager
manager = record { tables = (text "t", some 0) ∷ [] }

pub manager-Models : Models bound manager
unfolding StorageManager.find
manager-Models = record { no_repeat = (refl, tt); finds = λ n. refl }

add_table-Added_example : Added bound manager manager-Models (text "u") (some 1) none
add_table-Added_example = add_table-Added bound manager manager-Models (text "u") (some 1)

drop_table-Dropped_example : Dropped bound manager manager-Models (text "t") (some (some 0))
drop_table-Dropped_example = drop_table-Dropped bound manager manager-Models (text "t")

-- executed four times: two tables, then a null pointer, then an exception
abbrev runs : List (Outcome (Option ℕ))
runs = throw no_such_table ∷ ok none ∷ ok (some 4) ∷ ok (some 3) ∷ []

executed-get_output_example : GetsOutput runs
executed-get_output_example = executed-get_output runs

-- so that `get_output` returns a null pointer
null_output : get_output (executed runs) ≡ ok none
unfolding get_output execute
null_output = refl

-- the fields `a`, an empty one, and `bc`
abbrev fields : List Text
fields = text "a" ∷ [] ∷ text "bc" ∷ []

fields-AreFree : AreFree 124 fields
fields-AreFree = (
  ((λ e. omega (arith, e)), tt),
  (tt, (((λ e. omega (arith, e)), ((λ e. omega (arith, e)), tt)), tt)),
)

split_string_by_delimiter-join_example : split_string_by_delimiter (join 124 fields) 124 ≡ fields
split_string_by_delimiter-join_example =
    split_string_by_delimiter-join 124 fields fields-AreFree (λ e. cc)

split_string_by_delimiter-terminated_example :
    split_string_by_delimiter (terminated 124 fields) 124 ≡ fields
split_string_by_delimiter-terminated_example =
    split_string_by_delimiter-terminated 124 fields fields-AreFree

trim_source_file_path-CutsAt_example :
    (o : Option Text) × CutsAt (text "/home/a/src/lib/b.cpp") o
    × Trimmed
        (text "/home/a/src/lib/b.cpp")
        o
        (trim_source_file_path (text "/home/a/src/lib/b.cpp"))
trim_source_file_path-CutsAt_example = trim_source_file_path-CutsAt (text "/home/a/src/lib/b.cpp")
