-- ===== src/Lib.antt =====
-- Models of the core of kai-server: the git transport of the data plane (kailab/sshserver), and
-- what the control plane and the semantic engine decide. Each definition follows the Go function
-- of the same name in snake_case.
--
-- Common holds what the modules share: tests on numbers, lists and slices over native numbers,
-- `&` and `|` as arithmetic, Go's (value, error) results, and byte strings. A Go int is a natural
-- number, or a number of Common.Ints where it may be negative; where it may wrap, the wrap is
-- written out. A run-time panic is the result `panic`; `stuck` says that a loop of the model ran
-- out of fuel, and is no outcome of the program.
--
-- Sshserver/Delta models kailab/sshserver/delta.go: Index has the hash index and findMatch,
-- Encode the encodings of a size, of an insert and of a copy, Generate has GenerateDelta.
-- Sshserver/Unpack models applyDelta and readDeltaSize of kailab/sshserver/gitpack_parse.go,
-- which read such deltas. The fuel of the main loop is the length of the target, since each round
-- takes a byte, and that of applyDelta the length of the delta. zlib and SHA-1 are not modelled.
--
-- Sshserver/Protocol models kailab/sshserver/protocol.go. A reader is the bytes still to come; a
-- writer is nil, or the bytes that it has taken, and a predicate chosen by the environment says
-- which calls of Write succeed. writeEmptyPack, a constant and its SHA-1, is left out.
--
-- Merge models kai-core/merge: Types its records, Units mergeUnit and what it calls, Files
-- mergeFile, mergeUnits, reconstructFile and MergeFiles. A map is a list of entries, and the
-- order in which a loop takes the keys of a map is an argument. Two versions of a unit are
-- equivalent if their body hashes are equal. ExtractUnits, which walks the tree of a parser that
-- is not part of the repository, is a parameter.
--
-- Workflow models kailab-control/internal/workflow. Matrix has the expansion of a job's matrix
-- (matrix.go): a map is a list of entries, and valuesEqual, which rests on float64 and JSON, is
-- the parameter `same` (Matrix/Values has its definition over those, and Matrix/Texts takes it on
-- strings, where it is an equivalence, as it is not on all values). Trigger has the choice of the
-- workflows that an event runs (trigger.go), and Glob the patterns that it stands on, with
-- filepath.Match read as a reader of tokens and Go's greedy matching of chunks. Characters stand
-- for bytes. JobOrder has GetJobOrder, whose loop has the number of jobs for its fuel.
--
-- Routing models kailab-control/internal/routing/picker.go, the choice of a shard, with FNV-1a of
-- the standard library. The lock makes every operation one step.
--
-- Cron models kailab-control/internal/cron/cron.go without Next. The loop variable of a range is
-- an int64 that wraps around, and a negative index panics. A round takes the variable on by one
-- at least or makes it negative, and then the next round panics: one more round than the range
-- has values is enough fuel.
--
-- Registry (kailab/repo/registry.go) is the table of open repositories. Registry/State has the
-- registry as a record: the handles ever opened, the map from "tenant/repo" to a handle, and the
-- LRU list, whose elements carry the name of their handle; Registry/Calls has the calls. What the
-- disk, SQLite and the clock answer are arguments. `active` is an int32 with its wrap-around.
-- Registry/Sections has the sections under the lock as one step function and a history as a
-- sequence of them, so that the two sections of Get may have others between them. The loop that
-- evicts runs on as many rounds as there are open repositories, and ends within them.
--
-- Segments (kailab/pack/segment.go) has the packs of objects. Segments/Tables has the tables of
-- kailab/store that they are written to, with one function for each SQL statement and a choice of
-- the environment whether it works; Segments/Ingest has the ingestion, which is one definition
-- for the three variants of the source, BuildPack and the extraction. zstd, encoding/json and
-- BLAKE3 are parameters. An int64 is a number below 2^64 in two's complement. An error rolls the
-- transaction back, so that it carries no tables.
--
-- Refs (kailab/store, with BatchUpdateRefs of kailab/api/routes.go) has the refs of one
-- repository and the log of their updates. Refs/Tables has the two tables and the calls of the
-- store, a function for each statement; Postgres and SQLite have the same. The id of an entry of
-- the log is a parameter, the hash of its JSON. Refs/Swap runs transactions that do not overlap,
-- one after the other; SQLite serialises all. Postgres does not: the transactions are opened at
-- its default isolation, READ COMMITTED, and take no lock before they write. Refs/Sessions has
-- them as steps in any order: each query is a step, and the two changes are one with the commit.
-- Refs/Alone compares the steps with the calls, and Refs/Interleaved and Refs/Races have what is
-- kept when transactions overlap and what is not. Refs/Batch has the batch, with Postgres's rule
-- that a failed statement aborts the transaction. A slice that is nil is `none`.
--
-- Cas (kai-core/cas/cas.go) has the canonical JSON of a value that encoding/json decoded, with a
-- map as the list of its entries, and NodeID. Cas/Ids has a payload without the order of the
-- entries as a quotient, and the id of a node as a function on it. What encoding/json writes for
-- a scalar or a key, and BLAKE3, are parameters.
--
-- Modules (kai-core/modulematch/modulematch.go) has the matching of paths to modules and the
-- table of rules. The glob library is a parameter; the reading and writing of YAML is left out.
--
-- Workflow/Expressions (kailab-control/internal/workflow/expressions.go) has EvalExpr, whose
-- parser evaluates as it reads, EvalExprBool, Interpolate and InterpolateMap. Values has toBool,
-- exprToString and the operators, Context the contexts, their lookups and callFunction, Parser
-- the descent and Interpolation the loops over a text. The position of the parser is what is left
-- of its input. The descent runs on fuel, which is an argument of eval_expr, because it does not
-- end on every input. What fmt, encoding/json, strings.ToLower, strings.TrimSpace and floats do
-- is a record of parameters.
--
-- Access (kailab-control/internal/api/middleware.go and internal/model/models.go) has the order
-- of the roles, the scopes, the gates that ask for a membership, a public repository or a scope,
-- the chain of the gates before a handler, and ValidateSlug. A gate is a function from the
-- handler behind it to a handler; a request is what the gates before put into its context. The
-- table of memberships is a list, and the database may fail.
pub mod Access
pub mod Cas
pub mod Common
pub mod Cron
pub mod Merge
pub mod Modules
pub mod Refs
pub mod Registry
pub mod Routing
pub mod Segments
pub mod Sshserver
pub mod Workflow
