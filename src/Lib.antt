-- ===== src/Lib.antt =====
-- OpossumDB: the column store of `src/lib`, its tables and its scan. The other files give paths
-- from `src/lib`.
--
-- A table (`src/lib/storage/table.cpp`) is split into chunks (`src/lib/storage/chunk.cpp`), and a
-- chunk has one segment for each column. A value segment (`src/lib/storage/value_segment.cpp`)
-- takes new rows; when a chunk is compressed, its value segments become dictionary segments
-- (`src/lib/storage/dictionary_segment.cpp`), whose ids stand in a vector of the narrowest
-- integer type (`src/lib/storage/fixed_width_integer_vector.cpp`). Operators
-- (`src/lib/operators/`) read tables: `GetTable` takes one from the storage manager
-- (`src/lib/storage/storage_manager.cpp`), and `TableScan` makes a table of reference segments
-- (`src/lib/storage/reference_segment.cpp`), which list positions of its input. `load_table`
-- (`src/lib/utils/load_table.cpp`) makes a table from a file, and `Print`
-- (`src/lib/operators/print.cpp`) writes one to a stream.
--
-- The modules, and what they model:
--   Prelude            names and lemmas that the others share; a `std::string` is its list of bytes
--   Outcome            `src/lib/utils/assert.hpp`, and what a call does beside returning
--   Scalar, Types      the types of columns, `AllTypeVariant`, the casts, `resolve_data_type`; RowIds
--                      is about the order of positions
--   NullValue          `src/lib/null_value.hpp`, the operators of the NULL of SQL
--   StrongTypedef      `src/lib/strong_typedef.hpp`, the wrapped types; the other modules take an id as
--                      the number that it wraps
--   Algorithm          `std::sort`, `std::unique`, the two searches and the `unordered_map`, with
--                      Order, Sort, Bounds and Inverted on what they do
--   ValueSegment       Invariant: validity and `append`; Reads: the accessors
--   AttributeVector    the vector of ids in one of three widths
--   DictionarySegment  the encoding and the accessors, with Widths, Flags, Dictionary, Rows and
--                      RoundTrip on the constructor, Bounds and ValueIds on the searches, Reads on the
--                      accessors and NullBug on null rows
--   Segment            the segments behind a pointer, and the casts between them
--   Chunk, Table       chunks and tables; Table.Columns is about the column definitions,
--                      Table.Compress about `compress_chunk`, whose threads are a step relation in
--                      Threads with its invariant in Invariant, its runs in Runs and a thread that
--                      fails in Failure, the two modules Append and Table.RowCount about new rows
--   Table.Contents     the rows that a table stores, as a list: Cells, Columns and Reads say how the
--                      segments hold them; Created, Appended, Compressed and Counts are about the
--                      operations of a table, and Histories about any sequence of them
--   Reference          reference segments over a store of tables; Reads is about `operator[]`
--   StorageManager     tables by name; Map relates them to a partial map, and Summary is its `print`
--   Operator           `src/lib/operators/abstract_operator.cpp`, `get_table.cpp` and
--                      `table_wrapper.cpp` beside it
--   TableScan          the scan of one segment of each kind; Ids and Selection relate ids and values
--                      to the rows that pass, Segments and Positions say what a segment's scan
--                      returns, and Execute has the loop over the chunks, with Kept, Passing, Contents and
--                      Output on the rows that a scan finds and the rows that its output reads as,
--                      Independence on tables with the same rows, Again, OutputChunks, Selections and
--                      Queries on the scan of a table that a scan made, and Conditions on one scan
--                      after another
--   Stream             a `std::ostream`, as the text that was written to it
--   Print              the operator; Widths has the widths of the columns and Layout the text that is
--                      expected; Readings says what it reads of a table, Widened, Fits, Fitted, Bounds,
--                      Output and Aligned are about the widths and the text, and Selected about the
--                      output of scans
--   StringUtils        `src/lib/utils/string_utils.cpp`; Split is about splitting and joining, Trim
--                      about the paths of source files
--   LoadTable          `src/lib/utils/load_table.cpp`; RoundTrip is about the lines of a file, and
--                      Contents about the rows of the table
--   Tests              concrete inputs
--
-- An operation that changes an object takes it and returns it. One that may fail returns an
-- `Outcome`: a value, an exception (the constructor of `Error` stands for its message), or undefined
-- behaviour, such as a read past the end of a vector. Where an exception leaves an object changed,
-- the object is returned beside the outcome. A `Build` says whether `OPOSSUM_DEBUG` is set. A shared
-- pointer to a table is an address in a `Store`, or `none` where it may be null, and a table holds its
-- chunks and segments: the source shares neither between tables that change.
--
-- Numbers: sizes, offsets and ids are natural numbers, and where the source converts to 8, 16, 32 or
-- 64 bits the remainder is written out. The integers of columns are unbounded, since the source
-- compares, casts and prints them and does no arithmetic. Floats and doubles, boost's `lexical_cast`
-- and `numeric_cast`, and the texts of floats and variants are the fields of a `Platform`; `IsLawful`
-- is what the standard says of `<`, `<=` and `==` on integers and strings; it holds of floats only
-- where there is neither a NaN nor a negative zero, which is `==` to the other zero.
--
-- Loops are structural. There are two fuels: the depth of `Reference.element`, the number of reference
-- segments that may lie one behind another, and 20 for the decimal digits of a printed number, of
-- which one of 64 bits has no more. In `compress_chunk` the order in which the threads write is a
-- parameter, `schedule`; in Table.Compress.Threads the main thread and the others take steps in any
-- order, and a thread does its work, or fails, in one step, since it shares nothing but its own element
-- of the vector.
--
-- A value segment is valid if in a nullable column each row has a flag, and each null row stores
-- `T{}`. It is null-safe if, when it has a null row, the values of its other rows are above `T{}`;
-- `fill_dictionary` relies on that. A dictionary segment is well formed if its dictionary ascends, its
-- ids are at most the size of the dictionary (that size is the id of null) and it has fewer than
-- 2 ^ 32 values and rows. A table has a schema if its column names differ and its three vectors of
-- definitions have one length. A table stores a list of rows if it has a schema, its definitions spell
-- the types and the nullability of the columns, and its chunks, each of value segments or of dictionary
-- segments and of at most the target size, hold the rows in order. A compressed chunk is readable if it
-- holds no null row: `operator[]` of a dictionary segment is undefined there. A selection of a stored
-- table is the table that the constructor makes from fewer than 2 ^ 32 reference segments into it, each
-- of at least one position and of fewer than 2 ^ 32.
--
-- `trim_and_split` takes the two functions of boost that it calls.
--
-- Not modelled: the memory use of segments whose vectors have a capacity that the library chooses, and
-- the comparisons of `AllTypeVariant`, which are boost's.
pub mod Prelude
pub mod Outcome
pub mod Scalar
pub mod NullValue
pub mod StrongTypedef
pub mod Types
pub mod Algorithm
pub mod ValueSegment
pub mod AttributeVector
pub mod DictionarySegment
pub mod Segment
pub mod Chunk
pub mod Table
pub mod Reference
pub mod StorageManager
pub mod Operator
pub mod TableScan
pub mod Stream
pub mod Print
pub mod StringUtils
pub mod LoadTable
pub mod Tests
