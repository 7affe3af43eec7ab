-- ===== src/Lib.antt =====
-- ragrep: a model of the core of the retrieval program in src/ (Go), and theorems about it.
--
-- The program indexes documents as paragraphs and source code as symbols in two SQLite databases,
-- searches both, and assembles context packs of bounded size with a manifest by which a reader
-- can later tell whether the files have moved on.
--
-- Which file models what, with paths from the repository's root:
-- - Common: numbers, lists, results, and the functions of Go's strings package that the source
--   calls. A text is a list of Unicode code points.
-- - CodeIndex: src/internal/codeindex/symbol.go; CodeIndex/Relations: relations.go;
--   CodeIndex/Render: render.go; CodeIndex/Lines and CodeIndex/Extract: extract.go.
-- - CodeStore: src/internal/codestore/symbols.go. CodeStore/Tables are the tables of store.go,
--   CodeStore/Upsert is UpsertSymbols and DeleteSymbolsForPath, CodeStore/LiveFiles the unsaved
--   files, CodeStore/LiveKeys their keys, CodeStore/Edges the relations and the index runs,
--   CodeStore/Lookups the other queries, CodeStore/LiveSearch, CodeStore/Ranking and
--   CodeStore/Search the searches. CodeStore/Reachable takes all calls that write together.
-- - Retrieval/Merge and Retrieval/Pack: src/internal/coderetrieval/context.go;
--   Retrieval/Manifest: manifest.go.
-- - Store/Paras: src/internal/store/split.go; Store/Frontmatter and Store/TagList:
--   frontmatter.go, and the lines of store.go that hide the frontmatter from the paragraphs.
-- - Store/Db and Store/Upsert: the tables of src/internal/store/store.go,
--   upsertDocWithHashContext and DeleteDoc; Store/Query: DocHash, GetDoc, TouchDoc, ListPaths,
--   GetParas and ExpandHitBodies; Store/Search: the searches, which use the ranking of
--   CodeStore/Ranking where the two packages have the same code. The modules below them are named
--   for what they prove.
-- - Pools/Lsp, Pools/Clients and Pools/Embedding: lspPool and embeddingPool of
--   src/cmd/ragrep/resource_pool.go. Pools/Lsp is the pool alone, Pools/Clients adds the release
--   functions that its callers hold.
-- - Tests: runs on concrete inputs, and the theorems applied to them.
--
-- Correspondence. Structs are records and functions keep their names in snake_case. A Go error is
-- a value of a result type, -1 and nil are none, a map that only answers lookups is an
-- association list. Numbers that the source keeps as int and that are never negative (lines,
-- sizes, budgets) are natural numbers without a bound. Loops over slices are recursions on lists.
-- The loop of collapseOverlaps runs on fuel: each merge shortens the slice by one, so its length
-- is enough.
--
-- Transactions. A statement is a function on the tables; the driver may answer a statement with
-- an error that depends on the tables it finds (Env.fault), so of two statements on the same
-- tables, as a query and BEGIN are, both fail or none; and a transaction that does not commit
-- leaves the tables as they were before it (settle). An error hides the answer beside it:
-- upsertDocWithHashContext gives true with the error of a failed commit, the model the error
-- alone. Rows are in the order of their insertion. A row id comes from the driver
-- (Env.new_rowid), and the theorems that need it assume that it is not in use.
--
-- Code store. The text index of symbols is the values inserted under a rowid and not deleted
-- again, and a delete takes out one entry with exactly the given values, as fts5 does with
-- external content. The text index of unsaved files is kept by the path, which stands for the
-- rowid of the path's row: an upsert of live_files keeps it. A map that the source ranges over is
-- a list in some order. Rankings of the text and the vector index, already in order, are
-- parameters, and so are the floating-point operations. filepath.ToSlash is a parameter because
-- it depends on the operating system. Generations are numbers; the driver refuses one of 2^63 or
-- more with an error, which is one of the errors it may answer anyway.
--
-- Extraction. Content is a list of bytes and a string is the list of its runes, with U+FFFD where
-- the bytes encode none. Positions are natural numbers; the code answers negative ones with an
-- error. The walk over a line has fuel for each of its bytes, and a round takes at least one, so
-- it is enough.
--
-- Pools. Every method of lspPool holds its mutex, so a run is a sequence of calls in the order in
-- which they take it; an idle timer may come at any time with any key, entry and generation, also
-- after it was stopped. Close of lspPool closes the servers after it has emptied the map and
-- given up the mutex; no other call can reach them then, and the model does both at once. The
-- entries that the map no longer holds stay in the model as entries that are not live, so that
-- the closings of each server can be counted. A call of embeddingPool is two steps, up to the
-- start of its goroutine and from the embedder's answer on, with the mutex held between them.
--
-- Parameters. The sizes that json.Marshal gives, the content and the hashes of files, the lookups
-- in the code store, the embedder, the constructors of the pools, the serialization of vectors,
-- the errors of the driver and of the context, and unicode.ToLower are arguments of the
-- definitions that use them.
--
-- Not modelled: the opening of both stores, the daemon and its protocol, the language-server
-- client, the embedding runtime, the command line and the MCP adapters.
pub mod Common
pub mod CodeIndex
pub mod CodeStore
pub mod Store
pub mod Pools
pub mod Retrieval
mod Tests
