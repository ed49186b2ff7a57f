-- ===== src/Lib.antt =====
-- A verification library for the metric store backend, otlp-metric-store-backend-go. The program
-- takes OTLP metrics over gRPC, splits them into rows that describe a series and rows that are
-- points of a series, and writes both in large batches to ClickHouse. This library models its Go
-- code as functions and proves what the parts promise each other.
--
-- The parts, with the files of otlp-metric-store-backend-go that they model:
--
-- * Otlp, Mapper (metrics_mapper.go: `MapMetrics` and its helpers). A request is a list of resource
--   messages; a message is a record of what its getters return. `map_metrics` runs the four nested
--   loops over a record of the three local variables that the loops change.
-- * Fingerprint (metrics_mapper.go: `fingerprintSeries`, `hashString`, `hashMap`, `hashUint32`,
--   `hashBool`). The hash of github.com/cespare/xxhash is a parameter; all that is assumed of it is
--   that two writes to a digest are one write of the joined bytes. A theorem that needs more says
--   that the hash does not collide on the two inputs at hand. Fingerprint/Abstract has series as a
--   quotient of the records that describe them.
-- * Cache (ingester.go: `fingerprintCache`). The map and the doubly linked list of container/list,
--   whose elements are told apart by an address.
-- * Store (clickhouse_client.go: `MetricsStore` and the rows, the latter in Series). The ingester
--   sees the store only through the interface, so a store is any record of its operations on any
--   state. Store/Recorder is a store that also writes down its calls, to state what was handed over.
-- * Clickhouse (clickhouse_client.go: `ClickHouseMetricsStore`). The driver is a parameter, `Conn`;
--   the SQL texts are names. What the driver and the server are taken to do is written down as the
--   records `IsBatching` (Clickhouse/Inserts), `IsCursor` and `IsDatabase` (Clickhouse/Reads), which
--   a connection in memory meets (Examples/Memory). In `IsBatching` a table is the rows that were
--   inserted into it, before any merge. In `IsDatabase` a `time.Time` argument of a query stands for
--   its whole second, as the driver binds it. Clickhouse/Open has `NewClickHouseMetricsStore`.
-- * Schema and View (clickhouse_schema.go). Schema has the two tables with their columns, types,
--   engines and keys; Schema/Columns reads rows by column name, Schema/Fits checks their types against
--   what the driver documents (`IsTyped`). View is the SELECT of `otel_metrics` as a function of the
--   two tables; `IsMerged` (View/Merged) is what a ReplacingMergeTree may do to the lookup table.
-- * Ingester (ingester.go). Ingester has the state that the flusher goroutine owns and the bodies of
--   `accumulate`, `flush` and one case of `run`. Ingester/System has the channels, with `Enqueue`,
--   `Flush`, `Close` and the cases of the loop of `run`, which Ingester/System/Loop puts together.
--   `Reach` of Ingester/System/Run is the relation of all states that callers and goroutine can bring
--   about, in whatever order they act, with the items that `Enqueue` has acknowledged.
-- * Service (metrics_service.go: `newServer`, `Export`). `Serving` of Service/Serving is the relation of
--   all states of the server with its ingester, with the requests that it has responded to.
-- * Startup (server.go: `init`, `main`, `run`) and Telemetry (otel.go: `setupOTelSDK`). Each has a
--   type of the calls that the code makes; what a call does is an argument. A variant of it that also
--   writes down the calls shows what is started and shut down, and in which order.
-- * Readback puts the parts together: exported requests, their way through the ingester to the tables,
--   and what the view and `QueryRange` then show of them.
-- * Prelude, Text and Dict hold what the parts share: tests and lists over native numbers, Go's
--   strings as bytes with `sort.Strings`, and Go's maps as association lists.
-- * Examples has tests and the theorems at concrete inputs.
--
-- A select that has several ready cases takes the one that an argument of type `Choice` names, so
-- that a theorem about all arguments covers every choice of the scheduler. A call that must wait is
-- `waits` and leaves the state alone; a send on a closed channel `panics`. The ticker may fire at
-- any time. The handover of `Flush` and the flush that answers it are one step, since the goroutine
-- does nothing else between them.
--
-- Bounds: `uint64` values are numbers, and where the code wraps around the model takes the
-- remainder (the counters, `int64(nanos)`). `decimal` prints with fuel 19, enough for an int64,
-- whose magnitude is below 10 ^ 19. The loops of `QueryRange` take fuel, of which more than the
-- rows of either table is enough. A run of the flusher's loop is given by the cases that its select
-- picks; for a shutdown, one more of the queue than there are queued items is enough.
--
-- Not modelled: the logging; the SQL language, of which Schema and View have what the texts of the
-- program say; the codecs, skip indexes and settings of the tables; gRPC, the flags and the
-- OpenTelemetry packages, which are arguments where the code depends on them; float64 arithmetic and
-- formatting, which are parameters; the order in which `range` meets the entries of a map, which no
-- theorem relies on.
pub mod Prelude
pub mod Text
pub mod Dict
pub mod Series
pub mod Fingerprint
pub mod Otlp
pub mod Mapper
pub mod Cache
pub mod Store
pub mod Ingester
pub mod Clickhouse
pub mod Service
pub mod Schema
pub mod View
pub mod Readback
pub mod Startup
pub mod Telemetry
mod Examples
