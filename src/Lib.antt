-- ===== src/Lib.antt =====
-- Verification of firebirdsql-otel, which instruments Firebird's database/sql driver with
-- OpenTelemetry. It describes a statement without any of its literal values, and it reads the text
-- Trace of the server and turns its records into events that spans are made of.
--
-- The parts and how they interact:
--   * internal/sqltext/sql.go turns a statement into tokens (`lex`) and the tokens into a
--     description (`analyze`): the normalized text, the operation, the procedure or collection and
--     a fingerprint. `AnalyzeUnknownDialect` does without double-quoted text.
--   * internal/sqltext/framing.go says whether the lines of a statement so far are complete
--     (`LexicallyComplete`) and may be its end (`StatementMayEnd`).
--   * internal/traceparse/parser.go cuts the stream into lines (`Feed`), reads the lines of a
--     record (`consume`), describes its SQL by the two files above, and pairs the finish of an
--     execution with its start (`finish`) by a stack for each attachment and transaction.
--   * config.go checks the configuration of the driver. client.go and server_scope.go run a marker
--     query before a statement, whose token ties the server's records to the client span; rows.go
--     observes how the rows of a query are consumed.
--   * trace/spans.go keeps the scopes for which a client span waits for the records of its statement
--     (`Register`, `Bind`), collects the events into trees (`consume`), and exports a tree that is
--     complete and bound as spans (`exportTree`).
--   * monitoring/reader.go reads the MON$ tables of one attachment into a snapshot; metadata/reader.go
--     searches the dependencies of an object and keeps the graphs in a cache.
--
-- The files:
--   Common            names of the library, Boolean tests, lists over native numbers, signed numbers
--   Text              Go's strings as lists of bytes: UTF-8, package strings, and `Platform`, the
--                     Unicode tables and SHA-256 that the source takes from the standard library
--   Sql/Lex/Scan      the scanners of the token kinds; each returns what is left of the text
--   Sql/Lex/Step      `lex`: `LexState` holds the variables of its loop, `lex_step` is a round of it
--   Sql/Lex           its theorems: Lengths and Cases are the lemmas that Progress, Tokens,
--                     Brackets, Balance and Opaque share; Pieces says what the tokens stand for,
--                     Extents how far comments and numbers reach, Ends where the loop stops
--   Sql/Describe      `analyze` and LeadingOperation; Names has objectName and Identifier
--   Sql/Framing       LexicallyComplete, StatementMayEnd and HasTerminalEllipsis; Simulation and
--                     Safety compare the two scans
--   Trace/Event       Event, Table, Parser, `New` and `Gap`
--   Trace/Stacks      the map of stacks, as an association list
--   Trace/Correlate   `finish`; the pointer to the current record is an Option of it
--   Trace/Patterns    the regular expressions, ParseInt
--   Trace/Rows        parameterMetadata, metadataName, triggerName, explainedPlanLine and the
--                     performance line; Trace/Counters has tableCounterRow
--   Trace/Body        the lines behind the header of a record, in the order of `consume`
--   Trace/Consume     `consume` and the header of a record
--   Trace/Feed        `Feed`, `Flush` and `FlushFinished`
--   Config            the configurations of config.go and normalizeConfig; Config/Normal its theorem
--   Spans             the scopes that wait in trace/spans.go: Register, MarkerComplete, Bind, Discard
--                     and lookup, each a step under the lock
--   Spans/Collect     `consume`: Collect has its variables and closures, Step the start and the finish
--                     of a node, Run its loop, with the calls of the driver between the rounds;
--                     Invariant, Starting, Receive, Active and Exports are its theorems, Sampled,
--                     Trees and Counts their lemmas
--   Spans/Repeats     repeatedLeaves; Spans/Export has exportTree
--   Plan              planParts and normalizePlan of trace/spans.go; Cuts, Parts and Normal are the
--                     theorems
--   Rows              rowsState of rows.go; Moves and Once are the theorems
--   Client            the tokens in client.go, server_scope.go and telemetry.go; Accounts says where a
--                     token is, Tokens has the theorem
--   Monitoring        `New`, `Read` and `scan` of monitoring/reader.go; Bounds and Complete
--   Errors            `outcome` and ErrorAttributes of errors.go
--   Filter            databaseFilter of trace/runtime.go; Reading says how its value is read
--   Session           the checks of `Start` in trace/runtime.go; Startable is their theorem
--   Metadata          the rows of metadata/reader.go; Reading has the search of `Read` and Cache the
--                     sections under the lock; Reachable and Graphs are the lemmas of Bounded, Growth
--                     those of Complete, and Fresh has the theorem of the cache
--   Telemetry         `describe` and the decisions of `start` in telemetry.go
--   the modules named Tests: runs on small inputs
--
-- Bounds and fuel. The loops of `lex`, of the framing and of `Feed` run on the length of their
-- text (`lex` and the framing on one more), since every round takes a byte; planParts runs on the
-- length of the plan too. The search of metadata runs on a fuel above the bound of the nodes,
-- since every round takes an object from the queue and an object is queued once, as a new node. A
-- loop without fuel left returns out_of_fuel or none. A Go string is a list of bytes below 256,
-- and an offset into it is the suffix that begins there. The limits of the source (65536 bytes of
-- input, 4096 tokens, 128 brackets, 64 scopes of 64 frames, 65536 bytes of a record) are
-- constants of the model. The counter of sequences wraps at 2^64.
--
-- Where goroutines share the scopes or the cache of metadata under a lock, each section under the
-- lock is one step. A whole round of `consume` is one step too, also where it takes the lock more
-- than once: the calls of the driver come between the rounds. The clock is read once per step. A
-- range over a Go map runs in the order of the list that models it.
--
-- Not modelled: the classification of plans by regular expressions and the start of the collector
-- (trace/spans.go), the service connection and its goroutines (trace/runtime.go), the profiler,
-- which mostly sends queries, the attributes of a DSN, the registration of drivers, and the
-- generated code. The tracer, the meter, the database and database/sql are calls into packages
-- outside the repository, whose answers are arguments. Of package unicode only white space,
-- control characters and ASCII have a definition, the rest is `Platform` with its documented
-- behaviour as laws. The regular expressions are matched by a backtracking matcher, and
-- time.Parse by the ranges that it documents, or it is a parameter.
pub mod Common
pub mod Text
pub mod Sql
pub mod Trace
pub mod Config
pub mod Spans
pub mod Errors
pub mod Filter
pub mod Session
pub mod Plan
pub mod Rows
pub mod Client
pub mod Monitoring
pub mod Metadata
pub mod Telemetry
