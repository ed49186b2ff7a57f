-- ===== src/Service.antt =====
-- metrics_service.go: the gRPC handler `Export` over the mapper and the ingester.
pub mod Laws
pub mod Serving
use take_home_assignments.Prelude.{ℕ, ◌+◌, Bool, Option, none, some, List}
use take_home_assignments.Text.{Str}
use take_home_assignments.Otlp.{ResourceMetrics}
use take_home_assignments.Fingerprint.{Xxhash}
use take_home_assignments.Mapper.{Formats, map_metrics}
use take_home_assignments.Store.{Error}
use take_home_assignments.Ingester.System.{System, Progress, goes, ◌>>=◌, Choice, enqueue}

-- `dash0MetricsServiceServer`, with the ingester that its pointer leads to (`none` for nil) and
-- the count that `metricsReceivedCounter` has been given.
pub record Server (S : Type 0) : Type 0 where
  pub addr : Str
  pub ingester : Option (System S)
  pub received : ℕ

-- The results of the call: an empty response, or an error.
pub data Exported : Type 0 where
  response : Exported
  failed : Error → Exported

abbrev pub exported_of : Option Error → Exported
exported_of none = response
exported_of (some e) = failed e

module _ {S : Type 0} where
  unfoldable pub new_server : Str → Option (System S) → Server S
  new_server addr ingester = record { addr = addr; ingester = ingester; received = 0 }

  module _ (x : Xxhash) (fm : Formats) where
    unfoldable pub export :
        Choice → Option Error → List ResourceMetrics → Server S → Progress (Server S × Exported)
    export choice ctx request m =
        let m = record m { received = m.received + 1 } in
        elim m.ingester [
          | none ↦ goes (m, response)
          | some ingester ↦ do
            let (metadata, points) = map_metrics x fm request
            (ingester, err) ← enqueue choice ctx metadata points ingester
            goes (record m { ingester = some ingester }, exported_of err)
        ]
