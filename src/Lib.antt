-- ===== src/Lib.antt =====
-- A verification library for the eLox interpreter, an embeddable scripting language in C.
--
-- The interpreter scans and compiles a source text to bytecode (elox/lib/scanner.c,
-- elox/lib/compiler.c), which a stack machine runs (elox/lib/vm.c) over heap objects that a
-- collector reclaims (elox/lib/memory.c). Names are interned strings, found in open-addressing
-- tables (elox/lib/table.c); maps and classes use tables in insertion order. Modelled are the
-- scanner, the tables, the arrays of values and of bytecode, the collector, the handles of the
-- embedding program, interned strings, lists, and parts of the operations on texts. The collector
-- goes from the roots through the objects, and deletes the dead strings from the table that
-- interning uses; lists, chunks and tables are what its objects hold.
--
-- Text/Ctype, Text/Case: the class and case tables of elox/lib/string/string.c, with the tests of
--   elox/include/elox/builtins/string.h. Text/Ascii is about the ranges that they stand for.
-- Scanner: elox/lib/scanner.c. The source is one list of bytes with its terminator, which string
--   literals overwrite in place as they decode escapes; `start` and `current` are offsets in it.
--   Scanner/State has the scanner's record and its primitive steps, Scanner/Keywords the decision
--   tree `identifierType`, Scanner/Whitespace `skipWhitespace`, Scanner/Literals `number`,
--   `string`, `rawString` and `fString`, Scanner/Scan `scanToken`, Scanner/Utf8 the decoder of
--   elox/include/elox/third-party/utf8decoder.h and the encoder `outputUtf8`. The other modules
--   below them hold lemmas on what they are named for.
-- Value, Memory: the kinds of values of elox/include/elox/value.h, and the capacity and hash
--   arithmetic of elox/include/elox/memory.h and elox/include/elox/table.h.
-- Table: elox/lib/table.c. A string is an address; `heap` gives the hash and the bytes at an
--   address, and `alloc` says which arrays can be allocated. Table/Probe and Table/Placed are
--   about searches, Table/Store about a store in a slot, Table/Rehash, Table/Growth and Table/Room
--   about growing, Table/Map and Table/Update about the table as a map.
-- ValueArray, Chunk: elox/lib/ValueArray.c and elox/lib/chunk.c, with the opcodes of
--   elox/include/elox/opcodes.h. A failed allocation leaves the array and a larger capacity, as the
--   code does. ValueArray/Push is about pushes, Chunk/Lines about the search for a line,
--   Chunk/Bytes about copying bytes, Chunk/Marks about the starts of lines that a write adds, and
--   Chunk/Writes about writing code. A store outside the array of code or lines is an outcome of its own.
-- StringTable, ValueTable: the tables in insertion order, elox/lib/StringTable.c and
--   elox/lib/ValueTable.c. The in-place rehash of both reads beyond the table, and has no defined
--   result here. StringTable/Linked is about chains, StringTable/Indexed about lookups, StringTable/Stores and
--   StringTable/Deletes about stores and deletions. The hash and the equality of values, which may
--   call methods of the program that is run, are parameters of ValueTable.
-- Object, Collector: the objects with what they refer to, and the collector of elox/lib/memory.c. An
--   object is named by its address, a heap is the list of its addresses, and the two marker bits are
--   two flags. The roots follow markFiberCtx of elox/lib/vm.c, markCompilerRoots of
--   elox/lib/compiler.c, and the handles of elox/lib/handleSet.c and elox/lib/elox.c. Permanent
--   objects are black from the start, and the code does not look into them. Whether the gray stack
--   can grow is a parameter, and so are the sizes of the C types. An object that is freed keeps its
--   contents in the store, but to read it for a key of the table of strings, which the code does when a
--   dead key was left there, gives no result. Release is what freeObject gives back. The loops have one round more
--   than the heap and the stack have objects. Collector/Reach says what is live and what marking
--   keeps, Collector/Mark and Collector/Trace follow the code, Collector/Work is the measure of both
--   loops, Collector/Sweep and Collector/Bytes are about the sweep, and Collector/Collect about the
--   phases together. Collector/Refers lists the pointers of objects and roots, with those that the
--   collector does not follow, apart from the code that marks, and Collector/Garbage is about a
--   collection in terms of them. The pointers of an upvalue into a
--   fiber are left out, and so are the other pointers of the machine: the built-in objects and classes,
--   and the table of modules. Table/Delete,
--   Table/Distance, Table/Shift, Table/Closing and Table/Removal are about deletions from the table of
--   strings.
-- HandleSet: the ring of handles, elox/lib/handleSet.c, as links between addresses; the list of a ring
--   is that of its handles from the head on. HandleSet/Ring and HandleSet/Removal are about changes,
--   HandleSet/Walks about the loops, which need one round more than there are handles.
-- Strings: hashString of elox/include/elox/object.h, and allocateString, takeString and copyString of
--   elox/lib/object.c. Whether memory can be had is a parameter, and an allocation here does not run
--   the collector. Strings/Interned is about interning; Table/Search about tableFindString and
--   Table/Keys about the keys after a store.
-- Lists: elox/lib/array/array.c, the operations on arrays of elox/lib/object.c, and computeSlice of
--   elox/include/elox/object.h. An error is a value, and a write beyond the items an outcome of its
--   own. The conversion of a double to an integer and the equality of values are parameters.
--   Lists/Removes is about removal, Lists/Iterates about the iterator, and Lists/Appends about
--   appending, indices and the bounds of slices. arraySlice is not modelled.
-- HeapString: the strings that grow while they are built, HeapCString of elox/lib/object.c;
--   HeapString/Builds is about appending to them. The bytes of a new array are a parameter.
-- Text/Search: memmem, which elox/lib/string/string.c has where the C library has none, and
--   stringContains; Text/Search/Finds is about what is found. The loop has one round more than the
--   text has bytes.
-- Text/Trim: stringTrim, stringStartsWith and stringEndsWith of elox/lib/string/string.c;
--   Text/Trim/Trims is about the first.
--
-- Loops run on fuel where they are not structural. The fuel is one more than the length of the
-- source for the scanner's loops, the capacity for a search of the table, one more than the number
-- of entries for a chain and one more than the number of lines for a line search. It is
-- enough since a round of the scanner reads a byte, a search of a table with a free slot meets it
-- within one turn, a chain leads to older entries, and a line search halves its range. A result
-- `none` says that it was not enough.
--
-- Not modelled: the compiler, the virtual machine, the creation of objects other than strings and
-- lists, the loader, the built-in functions, and the copies of other projects' code. A read outside the scanner's buffer,
-- which C leaves undefined, gives a zero byte in the model.
mod Prelude
pub mod Text
pub mod Value
pub mod Memory
pub mod Table
pub mod ValueArray
pub mod Chunk
pub mod StringTable
pub mod ValueTable
pub mod Object
pub mod Release
pub mod Collector
pub mod HandleSet
pub mod Strings
pub mod Lists
pub mod HeapString
pub mod Scanner
mod Tests
