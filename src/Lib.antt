-- ===== src/Lib.antt =====
-- Tether: a sync engine that turns the write-ahead log of a Postgres database into live shapes.
--
-- The program. A consumer (internal/wal) reads the logical replication stream, writes each
-- transaction to tether.change_log together with the checkpoint, and only then acknowledges its
-- LSN. The engine reads the change log and applies each change to every live shape (internal/shape):
-- a shape is a table under a filter that the host derives from a client's claims; it keeps the rows
-- that the filter admits and a log of numbered events. A client gets a snapshot, then the events,
-- over a connection with a bounded buffer (transport); after a break it resumes from an offset. A
-- client's write goes to the host's handler in one transaction with its idempotency key
-- (internal/mutate).
--
-- The files.
--   Value, Prelude: the values a row holds, rows, what fmt prints of them; shared helpers.
--   Shape/Log: internal/shape/log.go. `append`, `halt`, `after`, `last_offset` are Append, Halt,
--   After, LastOffset. Log/Offsets: the numbering. Log/Resume: what After answers.
--   Shape/Filter: internal/shape/filter.go, Match and what it calls; Filter/Equal: valuesEqual;
--   Filter/Parse: ParseWhere; Filter/Sql: SQLClause. Parse/Part, Parse/Cut and Parse/RoundTrip follow
--   a printed clause through the parser; Sql/Parts reads the text of SQLClause back as SQL, and
--   Sql/Nulls sets Match against SQL's truth values, the database's equality being a parameter.
--   Shape/Key: pkKey, patchRow, firstNonNil. Shape/Instance: the Instance of
--   internal/shape/apply.go, NewInstance and the parts its methods share. Shape/Apply: Apply and
--   LoadSnapshot. Apply/Plan splits Apply into a decision and its effect; Apply/Isolation,
--   Apply/Replica, Apply/Table and Apply/Rekey prove from it; Table/Load and Table/Handoff follow a
--   stream from its snapshot on.
--   Wal/Relation, Wal/Change: internal/wal/decode.go. Wal/Store: the tables of
--   internal/wal/schema.go and `persist`; Store/Rows says what a row
--   of the change log holds, Store/Durable what a transaction without an error has written,
--   Store/Fresh and Store/Twice are about its first and second time, Store/Total is about when it
--   succeeds. Wal/Consumer,
--   Wal/Run: internal/wal/consumer.go. Wal/Catalog, Wal/Slot, Wal/Publication: what
--   internal/wal/publication.go and internal/wal/lag.go do to the database's catalog; a slot's holder
--   goes when the environment says so (`Waiting`), and Slot/Drop is about DropSlot.
--   Mutate: mutation.go and internal/mutate/apply.go. Mutate/Answers: what Apply's result says.
--   Shape/Registry: the Registry of internal/shape/apply.go.
--   Transport: transport/conn.go, and the messages of internal/proto/messages.go.
--   Engine/Session, Engine/Key, Engine/Dispatch: the session of engine.go, the keys of its streams,
--   and dispatchChange, which hands a change to every stream and the events to the sessions.
--   Engine/Subscribe: handleSubscribe and subscribeShape; Subscribe/Reply is about what a client
--   gets, Subscribe/Bound and Subscribe/Keeps about whose rows a stream holds. Engine/Request:
--   handleMutation and the messages of serveWS. Engine/Cursor: fanOutNewChanges. Engine/Supervise:
--   sweepIdleClients, handleSlotLagExceeded and the ticker's case of runConsumerCycle.
--   Snapshot: internal/snapshot/take.go; Snapshot/Statement describes its statement and its rows. Options: tether.go.
--
-- The correspondence. A method with a pointer receiver is a function from the state to the state
-- and its result; a method that returns an error gives a `Result`, or the state and an optional
-- error where the state changes before the error. A nil map is `none`; a Go map is an association
-- list by key, so what depends on the order of an iteration is stated by key or by membership. Each
-- method holds its mutex throughout or is called from one goroutine, so a call is one step. What
-- other code decides is data of the environment: `Weather` is how the database answers a
-- transaction (a commit whose answer is lost included, and the ids that a rollback does not give back
-- to the sequence), `Turn` is what one round of the replication
-- loop gets from the network, the clock and the database, `Write` what the socket does with a
-- message. Code of other packages is a parameter: `Runtime` (fmt on floats and on other types,
-- float rounding), `Codec` (pgx's type codecs), `Codecs` (encoding/json, the text of an LSN),
-- `Unicode` (strings and unicode on text that is not ASCII), `Services` (what a subscription calls).
-- A subscription, a request, a fan-out and a sweep are each one step: how a subscription and a
-- dispatch may run into each other is not in the model. A session holds its connection, and the hub
-- holds connections by id; a closed connection is one in the session, and gone from the hub.
--
-- Bounds. Offsets are int64 and wrap: Log/Offsets has the condition that there is room. The digits
-- of a number n are printed with n + 1 rounds of fuel, more than its digits. A connection's buffer
-- has the capacity that NewConn gives it. splitAND has one round for each byte of the clause and one
-- more: each passes five bytes. The wait of TerminateSlotBackend has 101 rounds: two seconds in
-- steps of 20 milliseconds, and Slot/Wait shows that they are enough.
--
-- Not modelled: the set-up of Run and of serveWS, New and the pool, the text of the other SQL
-- statements, the WebSocket and JSON, metrics, logging, the engine's options, and the benchmark.
pub mod Prelude
pub mod Value
pub mod Wal
pub mod Shape
pub mod Mutate
pub mod Snapshot
pub mod Options
pub mod Transport
pub mod Engine
