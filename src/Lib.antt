-- ===== src/Lib.antt =====
-- The Livepeer clearinghouse: the transactions of internal/store over its SQLite database, the
-- listeners of internal/kafka and internal/chain that feed it, the credentials of
-- internal/serviceauth, and the conversions of internal/units.
--
-- The program. A management API creates grants and allocations and funds them, a webhook authorizes
-- signing requests against the balance of an allocation, a Kafka consumer charges signed tickets
-- to allocations, and a chain listener mirrors the escrow of TicketBroker contracts and the
-- settlement of tickets. All four work on one database through internal/store. Money moves by
-- `TransferCurrency` alone, which books a debit and a credit and keeps a table of balances beside
-- the entries. SQLite admits one writer at a time, so concurrent calls are a sequence of
-- transactions.
--
-- The files.
--   Base: texts as bytes (Text), signed integers over native numbers (Int), rows of tables (Lists),
--     sorting (Sort), Go functions that return an error as state transformers (Exec), and triples,
--     totality and inversion for them (Exec/Keeps, Exec/Total, Exec/Inversion).
--   Db: the tables of migrations/*.sql (Rows), the database that the migrations leave (Fresh),
--     `Write` and `ID` of internal/store/store.go (Tx), and the rules for them.
--   Units: internal/units/eth.go.
--   Store/Amount, Store/Ledger, Store/Position: internal/store/store.go, with `Amount`, `Address`,
--     `BalanceCurrency`, `TransferCurrency`, `updateBalanceMetrics` and the checkpoints.
--   Store/Summary: the summary rows of internal/store/metrics.go.
--   Store/Manage: internal/store/manage.go. Store/Idempotency: internal/store/idempotency.go.
--   Store/Ingest and Store/Rematch: internal/store/ingest.go. `Draft` holds the local variables of
--     `Ingest` that decide what a message is.
--   Store/Settlements: internal/store/settlements.go.
--   Store/Auth: internal/store/auth.go.
--   Store/Calls: the calls of a `Store` that write, and a run of them.
--   ServiceAuth: internal/serviceauth/registry.go.
--   Kafka: internal/kafka. `lagCoverage` is Coverage; the probe, `poll` and `MonitorLag` are
--     Monitor; `Run`, `openReader` and `readPartition` are Reader, and security.go is Security.
--   Chain: internal/chain/listener.go. `correlateRedemptions` is Redemptions, `orderedUniqueLogs`
--     and `Decode` are Logs, `Validate` and `Stream` are Config, `openingSnapshots` is Opening, the
--     batch of a step is Batch, and `Step`, `resolveConfig` and `Run` are Step. Polling has the
--     failures with their stages, and the requests to the node.
--   Migrations: `List` of migrations/migrations.go, with its checks of the history in a database;
--     Marked and History are about its loops over the catalog and over the rows.
--   Fixtures and the modules named Tests: concrete runs.
--
-- The model. A function inside a transaction takes a world (environment, draws, database) to a
-- result and a world; an error leaves what was written before it, and `write` rolls back the
-- database. UUIDs, the clock, the random part of a key, SHA-256 and the JSON codecs are parameters
-- (`Env`, `Codec`, `encode`). UUIDs are taken as fresh: primary keys on them are not checked; the
-- other UNIQUE constraints and the CHECKs that a value may break are. A decimal text column is the
-- number that it prints. Amounts are unbounded, as in `big.Int`; times, offsets and counts are
-- int64 in the source and are taken inside their range, except where the source tests for the
-- bound. The loops recur on lists; the loops of the listeners, which end with their context, recur
-- on the number of rounds or on the deliveries, and what is said of them holds for any number. The
-- Kafka broker and the Ethereum node are parameters that answer each request (`Broker`, `Rpc`),
-- one draw of the environment for each; so are ABI decoding (`Abi`) and the libraries of the
-- registry (`Libraries`). The goroutines of the Kafka readers are rounds in the order in which the
-- store takes them. An address or a hash of the chain is its lower-case hex text. Case folding is
-- that of ASCII, on the ASCII words that the source compares.
--
-- Not modelled. Failures of SQL other than the constraints of the schema, cancelled contexts,
-- Prometheus metrics and logs; the texts of errors that quote amounts or names are shortened. The
-- reports of internal/store (`Rows`, `Report`, `List`, `EscrowReport`, `EscrowActivity`,
-- `MetricSnapshot`) read without changing state. internal/app and internal/auth serve HTTP and
-- start the process, `OpenBroker` starts a broker of another package, and `Up` and `Down` of
-- migrations/ run SQL scripts.
pub mod Base
pub mod Db
pub mod Units
pub mod Fixtures
pub mod Store
pub mod ServiceAuth
pub mod Kafka
pub mod Migrations
pub mod Chain
