-- ===== src/Service/Laws.antt =====
-- What a successful `Export` promises.
use take_home_assignments.Prelude.{◌≡◌, refl, ◌+◌, Option, none, some, List, [], ◌∷◌, ◌++◌, arith}
use take_home_assignments.Otlp.{ResourceMetrics}
use take_home_assignments.Fingerprint.{Xxhash}
use take_home_assignments.Mapper.{Formats, map_metrics}
use take_home_assignments.Store.{MetricsStore, Error}
use take_home_assignments.Store.Recorder.{Recorded}
use take_home_assignments.Ingester.{IngesterConfig, IngestItem}
use take_home_assignments.Ingester.System.{
  System, Progress, goes, waits, panics, ◌>>=◌, Choice, enqueue,
}
use take_home_assignments.Ingester.System.Run.{Reach, acknowledged, item_of}
use take_home_assignments.Service.{Server, Exported, response, exported_of, export}

-- The item that a request becomes.
abbrev pub item_of_request : Xxhash → Formats → List ResourceMetrics → IngestItem
item_of_request x fm request = item_of (map_metrics x fm request).0 (map_metrics x fm request).1

module _ {S : Type 0} where
  -- the end of `Export`, after `Enqueue`
  abbrev pub answer : Server S → Progress (System S × Option Error) → Progress (Server S × Exported)
  answer m p = do (ingester, err) ← p; goes (record m { ingester = some ingester }, exported_of err)

  answer_response :
      (m m' : Server S) (p : Progress (System S × Option Error))
      → answer m p ≡ goes (m', response)
      → (sys' : System S) × (p ≡ goes (sys', none)) × (m'.ingester ≡ some sys')
  answer_response m m' (goes (sys', none)) e = (sys', refl, ground arith)
  answer_response m m' (goes (sys', some x)) e = absurd (ground arith)
  answer_response m m' waits e = cc
  answer_response m m' panics e = cc

module _ {S : Type 0} (st : MetricsStore S) (config : IngesterConfig) (world : S) where
  -- If `Export` of a server with an ingester in a reachable state responds without an error, the
  -- ingester has acknowledged the rows of the request: it is in a state that it can reach with them
  -- as its last item.
  pub export_acknowledges :
      (x : Xxhash) (fm : Formats) (choice : Choice) (ctx : Option Error)
      (request : List ResourceMetrics) (m m' : Server (Recorded S)) (sys : System (Recorded S))
      {acc : List IngestItem}
      → m.ingester ≡ some sys
      → Reach st config world acc sys
      → export x fm choice ctx request m ≡ goes (m', response)
      → (sys' : System (Recorded S)) × (m'.ingester ≡ some sys')
        × Reach st config world (acc ++ (item_of_request x fm request ∷ [])) sys'
  unfolding export
  export_acknowledges x fm choice ctx request m m' sys h r e =
      let (metadata, points) = map_metrics x fm request in
      let counted = record m { received = m.received + 1 } in
      let (sys', accepted, kept) =
        answer_response counted m' (enqueue choice ctx metadata points sys) (rw (h, export) at e) in
      (sys', kept, acknowledged choice ctx metadata points r accepted)
