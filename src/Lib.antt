-- ===== src/Lib.antt =====
-- Astronomy IR: its data model and its binary format `.arb`.
--
-- The program is a compiler's intermediate representation. A module (src/module.rs) holds
-- interning tables of symbols, types and constants (src/symbol.rs, src/types.rs, src/constant.rs)
-- and a list of functions (src/function.rs), whose blocks, instructions and values (src/block.rs,
-- src/instruction.rs, src/value.rs) name each other and the tables by `u32` ids. `write`
-- (src/binary/writer.rs) turns a module into bytes, `read` (src/binary/reader.rs) turns untrusted
-- bytes into a module or an error. The verifier (src/verify) collects the errors of a module
-- before a backend accepts it.
--
-- Files:
--   Prelude        tests on numbers, lists measured by native numbers, arrays, orders, equality, bits
--   Ir/Interner    `Store` is SymbolStore, TypeStore and ConstantStore: the source's three tables are
--                  the same code. `lookup` is the hash map, as the function that its `get` computes
--   Ir/Types, Ir/Constants, Ir/Functions, Ir/Modules
--                  the data model: a record for a struct, a data type for an enum
--   Arb/Tags, Arb/Crc, Arb/Bytes
--                  the constants of src/binary/mod.rs, `crc32`, little-endian words
--   Arb/Writer, Arb/Encode
--                  `Writer` and `write`: an operation takes the buffer and returns it longer, or `none`
--                  for a panic
--   Arb/Cursor, Arb/Decode
--                  `Cursor` and `read`: an operation takes the cursor and returns a value and the
--                  cursor moved, or an ArbError (Arb/Errors)
--   Arb/Encodable  the modules that the format represents
--   Arb/Codec, Arb/RoundTrip
--                  the relation between a writer and a reader that the round trip is built from, and
--                  the round trip, one part of the format after the other
--   Arb/Total      when `write` returns
--   Arb/Sound, Arb/Checked
--                  what holds of a module that `read` returns, and what its file has passed
--   Ir/Visits      the values and blocks that an instruction or a terminator refers to
--   Verify/Errors, Verify/Loops
--                  VerifyError, and the loops over a list with its indices
--   Verify/Ssa     `check_definitions` (src/verify/ssa.rs): the scan of the definitions, and the check
--                  of the arena against it. It returns the errors that the source pushes
--   Verify/Cfg     `CfgInfo::compute` (src/verify/cfg.rs): the depth-first search from the entry block
--   Verify/Dominators
--                  the rest of `compute`: numbers, predecessors and the rounds that find immediate
--                  dominators; `intersect` and `dominates`. Walks says what it is to dominate, Levels
--                  what a tree has after k rounds, Settled why the rounds end
--   Verify/Terminators, Verify/Uses
--                  `check_cfg`: the terminators and their edges, and `UseChecker`
--   X86/Layout     sizes, alignments and field offsets (astronomy-x86/src/layout.rs)
--   Ir/Tests, Arb/Samples, Arb/Tests, Verify/Tests, X86/Tests
--                  a small module with its file, small block graphs, and the theorems at them
--
-- How the code is translated. Numbers are natural numbers; a cast `as u32` is `% 2 ^ 32`, and
-- `usize` has 64 bits. A `String` is its UTF-8 bytes. A loop over a count is structural recursion
-- on the count, so no fuel is needed. The search over the blocks runs on fuel, a round for each
-- block and each of its successors; so do the rounds over the dominator tree, two more than there
-- are blocks, since a walk that visits no block twice has fewer steps than there are blocks, and
-- the walks up the tree, the number of the block they start from. The layout of a type runs on
-- fuel above the type's id, since a type refers to earlier types. The error texts that the source
-- formats are constructors of `Reason`, with the values that are put into them. `HashMap` and
-- `std::str::from_utf8` are the standard library's: the first is a function with `insert`, the
-- second is the grammar of RFC 3629. Additions on `u32` positions of the verifier wrap, as in a
-- release build, where a debug build panics; an array of the verifier that is read out of range
-- gives its blank entry, where the source panics.
--
-- Not modelled: the rest of the verifier (types), the builder (src/builder.rs), the text format
-- (src/text), the code generators but for the memory layout (astronomy-x86, astronomy-object,
-- astronomy-nasm), the command line tools, and the texts of errors. Of the tables, `sign_extend`,
-- `type_to_string` and the shorthands that intern one given type are left out.
pub mod Prelude
pub mod Ir
pub mod Arb
pub mod Verify
pub mod X86
