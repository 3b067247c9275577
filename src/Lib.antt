-- ===== src/Lib.antt =====
-- Verification of the Helppi directory reconciler (module helppi-scim-go).
--
-- The program keeps a local base of accounts in step with a partner directory that it reads over SCIM.
-- A cycle reads the checkpoint from the store, lists the records modified since, applies them one by one
-- (create, update, write the local id back to the directory), and advances the checkpoint to the
-- newest timestamp of the directory that it has handled.
--
-- The parts, and the files that model them:
-- - directory/directory.go, the reconciler: Directory/Types (options, defaults, `Stats`, `Drift`, the
--   syncer's own state), Directory/Interface (the `Directory` interface), Directory/Run (what the
--   reconciler relies on in `ListUsers`), Directory/Apply (`validate`, `apply`, `ensureHelpper`,
--   `syncState`, `writeBack`, `alertOnce`), Directory/Walk (`walkWith`), Directory/Cycle (`Incremental`,
--   `Full`, `advance`), and Directory/Spec, the abstract view of an account and the effect of a record
--   on it. Proofs stand in the folder of the part that they are about, those on the alerts of a cycle in
--   Directory/Alerts.
-- - scim/types.go and scim/errors.go: Scim/Types and Exec/Errors. An `error` is the chain of values that
--   `%w` builds; `errors.Is` and `errors.As` walk it.
-- - scim/client.go, `ListUsers`: Scim/Pages, with its termination, its contract and what
--   it delivers below it.
-- - scim/client.go, the other methods, and scim/limiter.go: Scim/Http (what one answer means, and how long
--   to wait) and Scim/Client (the throttle, the retry loop of `do`, and the requests built on it).
--   Scim/Service puts `ListUsers` on `Page`, which makes the client a directory for the reconciler.
--   Scim/New is `New`, with `newLimiter`.
-- - store/store.go: Store/Types (the interface) and Store/Laws (what it asks of a store).
-- - store/memory/memory.go: Store/Memory. The two maps hold pointers into one heap of records, so an
--   update through one map is seen through the other.
-- - store/postgres/postgres.go, migrate.go and lock.go, the store on PostgreSQL: Store/Postgres (the
--   methods of the store and `New`), Store/Postgres/Migrate and Store/Postgres/Lock. The database is a
--   parameter with one operation for each statement that the code sends. Store/Postgres/Tables says what
--   the tables of the migration promise, as laws of those operations, and Store/Postgres/Laws derives
--   those of Store/Laws from them.
-- - store/storetest/storetest.go, the contract tests for stores: StoreTest, a case being whether it
--   passes; the store serves the eight workers of the race one after the other.
-- - conformance/conformance.go and conformance/checks.go, the suite that probes a directory:
--   Conformance/Report (cases, counts, options), Conformance/Criteria (what the first cases are
--   about), Conformance/Runner (what the checks share), Conformance/PhaseOne and
--   Conformance/Capabilities (the checks that read), Conformance/PhaseTwo (the write probes and
--   `Check`). A run's nil dereference would set the field `panicked`. Proofs are in Conformance/Adds
--   and Conformance/Suite.
-- - cmd/conformance/main.go, the command around the suite: Conformance/Command, up to its exit code.
-- - scimtest/scimtest.go, the fake directory of the tests: FakeDirectory/State, FakeDirectory/Answers,
--   FakeDirectory/Writes and FakeDirectory/Handler; proofs beside them.
-- - cmd/directorysyncd/main.go and metrics.go, the worker: Worker (the refusals at the start, the
--   preflight, the cycles), Worker/Counters and Worker/Endpoints (what it serves over HTTP); proofs in
--   Worker/Safety, Worker/Progress and Worker/Alerts.
-- Exec has results with errors and state; Prelude has numbers, lists and tests; Examples has the runs.
--
-- How the state corresponds: a Go method that changes state and may fail is a function from the state to
-- a result and the state after it, and what was written before an error stays written. A cycle's state is
-- a `State`: the directory, and a `Session` with the store, the clock readings taken, the `alerted` set,
-- the alerts raised and the cycle's `stats`. The directory and the store are parameters, with named laws;
-- the clock is a function of the number of readings. The suite's directory, the text functions it calls and
-- its clock are parameters too; the worker's loop takes what its select statement receives as a list.
--
-- Bounds and fuel: `ListUsers` runs on fuel, one unit for each page. The fuel is computed from the first
-- response as the page limit that the loop itself computes from it, and one more. `do` runs on fuel too,
-- one unit for each attempt: the limit of retries and one more. Page sizes, totals
-- and durations are signed integers; counters and indices are natural numbers without overflow, since they
-- count records of one walk; the limit of pages does not wrap around, as it does in the source for pages of
-- one record and a total within 8 of 2 ^ 63. An instant is its distance in nanoseconds from Go's zero time.
-- A store may keep an instant less exactly than it was given (PostgreSQL keeps microseconds): `kept` of
-- Store/Laws is what it keeps.
--
-- Not modelled: log lines and the texts of alerts (an alert is its key), the text of the SCIM filter (it
-- is the instant that the text names), cancellation of a context inside a call, the URLs, headers and
-- encoded bodies of HTTP requests (a request is data, and decoders of bodies are parameters; the fake
-- directory's requests carry their parsed numbers), the details and the rendering of a conformance report,
-- the flags of the two commands, the worker's signals, the text of a metrics page. Of the PostgreSQL store, the texts
-- of the statements, the connection pool and the hash that makes the lock's key of a text; a statement that
-- fails is taken to have changed nothing, and one that should free a lock may fail and leave the lock held.
-- In one cycle the store has a single writer; the fake directory serves one request after the other.
pub mod Prelude
pub mod Exec
pub mod Scim
pub mod Store
pub mod Directory
pub mod Examples
pub mod Conformance
pub mod FakeDirectory
pub mod Worker
pub mod StoreTest
