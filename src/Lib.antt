-- ===== src/Lib.antt =====
-- pbpp trims a set of protobuf files to what a list of rules selects.
--
-- The program parses the files (src/lex.rs, src/parse.rs) into trees (src/cst.rs), collects their
-- symbols and references in one table (src/sema.rs), evaluates the rules (src/rules.rs) on that
-- table and closes the result under what kept symbols need (src/select.rs), and deletes the rest
-- from the text of each file (src/prune.rs).
--
-- Which file models what:
--   Prelude      names of the libraries, Boolean tests, lists over native numbers, results
--   Text         the operations on strings that the program uses; text is a list of code points
--   Span         src/span.rs: spans, and lines and columns (Lines)
--   Cst          src/cst.rs: the types of the tree
--   FileSet      src/fileset.rs: the input files, `FileSet::parse` (Parse)
--   Sema         src/sema.rs: Symbols (the table and its accessors; IsWellFormed states what the
--                ids of a table satisfy), Build (the builder, `add_symbol`; Walk: the walks over
--                the files), Children (`build_children`), Imports (`check_imports`), Resolve
--                (`resolve_refs`), Lookup (`lookup_fq`), Analyze (`analyze`)
--   Rules        src/rules.rs: rules, patterns on dotted paths (Glob), their parser (Pattern),
--                the rules file (Parse)
--   Select       src/select.rs: Mark, Decide (evaluation of rules, inheritance), Closure (the
--                work list), Selection (`select`)
--   Prune        src/prune.rs: Edits (`apply_edits`), Visit (the visitor of a file's items),
--                Imports (which files are needed, which imports survive)
--   Pipeline     src/pipeline.rs: `Pipeline::new` and `select`, the parts in a row
--   Fs, Wkt      src/fs.rs: the check of import paths; src/wkt.rs: the well-known types
--   Tests        concrete inputs
--
-- Arrays indexed by a symbol are functions of its id. A `NodeId`, `SymId` or `FileId` is its index.
-- Fuel: the chain of enclosing definitions of a symbol is shorter than its id, since parents come
-- first; the work list of the closure gets as many rounds as there are symbols, since a symbol is
-- queued at most once; the loop that follows introducers gets one more, since a symbol is
-- introduced by one that was marked before it; `reach_pub` goes as deep as there are files, since
-- a file is visited once; a lookup climbs from a namespace node to parents with smaller ids.
--
-- The parser of one file (src/parse.rs) is a parameter of `FileSet::parse` and of the pipeline.
--
-- Not modelled: the lexer, the parser and the formatter, which files survive a prune, file
-- access, the command line, and the texts of error messages: an error is the data that its text is
-- made from.
pub mod Prelude
pub mod Text
pub mod Span
pub mod Cst
pub mod FileSet
pub mod Sema
pub mod Rules
pub mod Select
pub mod Prune
pub mod Pipeline
pub mod Tests
pub mod Fs
pub mod Wkt
