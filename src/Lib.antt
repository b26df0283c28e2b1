-- ===== src/Lib.antt =====
-- A verification library for nodecheck (cmd/nodecheck), which probes VPN nodes over TLS, UDP and
-- WireGuard, prints the results as JSON or as Prometheus text, and pushes them to a store, and for
-- that store (probestore), which keeps the results and shows them.
--
-- A target names a prober; the prober runs phases and returns an outcome; `toResult` projects the
-- outcome onto the result that is printed or pushed. The files follow these parts:
--
--   Target.antt       `Target`, `Result`, `phaseJSON` (cmd/nodecheck/main.go), `newResult` (prober.go)
--   Outcome.antt      `Phase`, `TLSInfo`, `Outcome`, `toResult` (cmd/nodecheck/prober.go); what it
--                     computes is described without pointers in Outcome/Expected.antt
--   Prober.antt       the registry, `proberFor` and `probe` (cmd/nodecheck/prober.go)
--   Tls.antt          cmd/nodecheck/prober_tls.go, `tlsVersionName` (main.go)
--   Udp.antt          `parseUDPParams` and the UDP prober (cmd/nodecheck/prober_udp.go)
--   Udp/Exchange.antt `udpExchange.run` (cmd/nodecheck/prober_udp.go), which both UDP-based probers
--                     share; Course.antt describes its loop as a relation on what the attempts meet
--   WireGuard.antt    the parameters, the identity and the prober (cmd/nodecheck/prober_wireguard.go)
--   WireGuard/Noise, Initiation, Response: the messages (cmd/nodecheck/prober_wireguard.go)
--   WireGuard/Responder.antt  the responder that the tests hold (prober_wireguard_test.go)
--   Report.antt       `writeProm`, `labels`, `escapeLabel` (cmd/nodecheck/main.go)
--   Push.antt         `buildPayload`, `failedPhase`, `newUUIDv4` (cmd/nodecheck/push.go); Identifier.antt
--                     reads a UUID as RFC 4122 describes it
--   Push/Delivery.antt `postOnce` and `pushResults` (cmd/nodecheck/push.go)
--   Document.antt     the JSON documents that the struct tags ask for (cmd/nodecheck/main.go, push.go)
--   Loading.antt      `loadTargets` (cmd/nodecheck/main.go); Ready.antt has what its targets are
--                     ready for
--   RunAll.antt       `runAll` (cmd/nodecheck/main.go), as a step relation on its goroutines;
--                     Probes.antt says which results they send
--   Command.antt      `main` (cmd/nodecheck/main.go); Stages and Course have what its stages come to
--                     and the ways in which it ends, Reports what it prints, Fleet what it pushes,
--                     Sent what it has sent when it ends with 0
--   Store.antt        `ingest_run` and what it checks (probestore/app/routers/ingest.py, schemas.py,
--                     security.py); Schema.antt reads a document as the schemas do, Documents.antt has
--                     what is supposed of the database, Tables.antt a database of lists that does it,
--                     Replays.antt what the requests of a push come to there, Ledger.antt the ledger of
--                     runs that it keeps, Races.antt requests that overlap, Delivered.antt
--                     what a push that succeeds leaves there, and Acceptance.antt what becomes of the
--                     payloads that `buildPayload` makes
--   Store/Reading.antt  `list_nodes`, `node_history` and `healthz` (probestore/app/routers/nodes.py,
--                     health.py); Queries.antt has what is supposed of the statements that select,
--                     Pushed.antt follows a probe up to what is shown of it, and Shown.antt follows the
--                     command up to there
--   Store/Reading/Metrics.antt  `metrics` (probestore/app/routers/metrics.py); Samples.antt reads its
--                     text as a Prometheus server does
--   Base, Samples     shared helpers, and data that the tests share
--
-- Go's constructs are modelled as follows. A string or a byte slice is a list of bytes, a pointer an
-- Option, an error its text, and a pair of a value and an error an Except. A panic is `none`. A
-- duration is a number of nanoseconds, never negative; a `time.Time` counts them from the zero time.
-- A `datetime` of Python counts microseconds from there.
-- An int that is decoded from JSON is an integer without bounds. Words of the WireGuard messages wrap
-- at their width. The concurrency is not negative: every value below one comes to one. Floating-point
-- numbers are a parameter.
--
-- What the clock, the network, the random source and the context answer is an argument of the
-- operation that asks, one record for each operation (`TlsEnv`, `Env`, `WgEnv`, `Round`, `World`).
-- `main` is given the list that `runAll` returns, and its theorems tie that list to a run that has
-- closed its channel (`RunsAll`). The packages that the program calls are parameters: the decoders
-- of JSON, hex and base64, strconv.Quote, bytes.TrimSpace, `sort.Slice` with its documented
-- behaviour in `Permutes` and `Orders`, and the cryptography as the record `Crypto`, with its
-- documented sizes and agreements in `Sizes`, `Keyed` and `Agrees`. The database of probestore is
-- the record `Database`, with `Documented` for what its statements do, and `Selects` and `Read`
-- for those that only read. What becomes of the statements of a request is an argument of the request
-- (`Transaction`): they are committed; or one of them or the commit fails, as for a text with a NUL, a
-- deadlock or a lost connection, with a rollback and a 500; or the commit takes effect and its
-- confirmation is lost, with a 500 as well. Requests take effect one after the other; in
-- Store/Races.antt the lookup of a run may lie behind its commit. FastAPI answers a body that
-- is no JSON before it looks at the token (`Body`). A time that is read by the schemas is cut off to
-- microseconds.
-- That the store refuses an empty batch is a hypothesis on the command's world (`RefusesEmpty`),
-- which Store/EmptyBatches.antt derives where probestore answers and the tokens are ASCII. How the two
-- programs meet is an argument as well: `Fares` for what becomes of a request and its reply on the
-- way, `Decodes` for a service that reads what the command wrote, and `Fresh` for an identifier that
-- the store does not have.
--
-- Loops are recursive on a list or on the number of attempts left, and so they end. The only fuel is
-- that of the digits of a number n: n + 1 steps, each of which writes a digit, and n has no more
-- digits than that.
--
-- Not modelled: the parsing of the command line (package flag), of which only the values arrive; how
-- encoding/json writes a document as text and reads one; the set-up of probestore, its settings and
-- its migrations.
pub mod Base
pub mod Command
pub mod Document
pub mod Loading
pub mod Outcome
pub mod Prober
pub mod Push
pub mod Report
pub mod RunAll
pub mod Samples
pub mod Store
pub mod Target
pub mod Tls
pub mod Udp
pub mod WireGuard
