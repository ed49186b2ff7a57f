-- ===== src/Service/Serving.antt =====
-- The server with its ingester over time: exports of any number of callers, in any order with the work
-- of the flusher goroutine, calls of `Flush` and `Close`.
use take_home_assignments.Prelude.{
  ◌≡◌, refl, sym, ap, ◌∙◌, ◌+◌, Option, none, some, List, [], ◌∷◌, ◌++◌, map, arith,
}
use take_home_assignments.Text.{Str}
use take_home_assignments.Otlp.{ResourceMetrics}
use take_home_assignments.Fingerprint.{Xxhash}
use take_home_assignments.Mapper.{Formats, map_metrics}
use take_home_assignments.Store.{MetricsStore, Error}
use take_home_assignments.Store.Recorder.{Recorded, recorder}
use take_home_assignments.Series.{SeriesMetadata, DataPoint}
use take_home_assignments.Ingester.{IngesterConfig, IngestItem}
use take_home_assignments.Ingester.System.{
  System, Progress, goes, waits, panics, Choice, channel, cancelled, send, enqueue, flush_call,
  close_queue, new_ingester,
}
use take_home_assignments.Ingester.System.Run.{Reach, start, flushed, closing}
use take_home_assignments.Ingester.System.Loop.{Case, run_round, Reach-run_round}
use take_home_assignments.Service.{Server, response, failed, new_server, export}
use take_home_assignments.Service.Laws.{item_of_request, answer, export_acknowledges}
use mathlib.Core.Path.{subst}
use mathlib.Core.List.{map-append}

module _ {S : Type 0} (st : MetricsStore S) where
  -- What happens to an ingester apart from `Enqueue`.
  pub data Works : System (Recorded S) → System (Recorded S) → Type 0 where
    rounds :
        {sys sys' : System (Recorded S)} (case : Case)
        → run_round (recorder st) case sys ≡ goes sys'
        → Works sys sys'
    flush_asked :
        {sys sys' : System (Recorded S)} (first second : Choice) (ctx result : Option Error)
        → flush_call (recorder st) first second ctx sys ≡ goes (sys', result)
        → Works sys sys'
    close_asked : {sys : System (Recorded S)} → Works sys (close_queue sys)

  module _ (config : IngesterConfig) (world : S) (x : Xxhash) (fm : Formats) where
    -- `Serving requests m`: the server is at `m`, and `Export` has responded without an error to these
    -- requests, in this order.
    pub data Serving : List (List ResourceMetrics) → Server (Recorded S) → Type 0 where
      opened :
          (addr : Str)
          → Serving [] (
              new_server addr
                (some (new_ingester (recorder st) config (record { inner = world; calls = [] }))))
      responded :
          {requests : List (List ResourceMetrics)} {m m' : Server (Recorded S)} (choice : Choice)
          (ctx : Option Error) (request : List ResourceMetrics)
          → Serving requests m
          → export x fm choice ctx request m ≡ goes (m', response)
          → Serving (requests ++ (request ∷ [])) m'
      refused :
          {requests : List (List ResourceMetrics)} {m m' : Server (Recorded S)} (choice : Choice)
          (ctx : Option Error) (request : List ResourceMetrics) (e : Error)
          → Serving requests m
          → export x fm choice ctx request m ≡ goes (m', failed e)
          → Serving requests m'
      worked :
          {requests : List (List ResourceMetrics)} {m : Server (Recorded S)}
          {sys sys' : System (Recorded S)}
          → Serving requests m
          → m.ingester ≡ some sys
          → Works sys sys'
          → Serving requests (record m { ingester = some sys' })

module _ {S : Type 0} where
  answer_failed :
      (m m' : Server S) (p : Progress (System S × Option Error)) (e : Error)
      → answer m p ≡ goes (m', failed e)
      → (sys' : System S) × (p ≡ goes (sys', some e)) × (m'.ingester ≡ some sys')
  answer_failed m m' (goes (sys', none)) x e = absurd (ground arith)
  answer_failed m m' (goes (sys', some y)) x e = (sys', ground arith, ground arith)
  answer_failed m m' waits x e = cc
  answer_failed m m' panics x e = cc

  -- An `Enqueue` that is refused leaves the ingester as it was.
  enqueue_refused :
      (choice : Choice) (ctx : Option Error) (metadata : List SeriesMetadata)
      (points : List DataPoint) (sys : System S) {sys' : System S} (e : Error)
      → enqueue choice ctx metadata points sys ≡ goes (sys', some e)
      → sys' ≡ sys
  unfolding enqueue send
  enqueue_refused channel ctx metadata points sys e h = absurd (ground arith)
  enqueue_refused cancelled none metadata points sys e h = absurd (ground arith)
  enqueue_refused cancelled (some y) metadata points sys e h = ground arith

module _ {S : Type 0} (st : MetricsStore S) (config : IngesterConfig) (world : S) where
  Reach-Works :
      {acc : List IngestItem} {sys sys' : System (Recorded S)}
      → Reach st config world acc sys
      → Works st sys sys'
      → Reach st config world acc sys'
  Reach-Works r (rounds case e) = Reach-run_round st config world case r e
  Reach-Works r (flush_asked first second ctx result e) = flushed first second ctx result r e
  Reach-Works r close_asked = closing r

  module _ (x : Xxhash) (fm : Formats) where
    -- An `Export` that returns an error leaves the ingester as it was.
    export_refused :
        (choice : Choice) (ctx : Option Error) (request : List ResourceMetrics)
        (m m' : Server (Recorded S)) (sys : System (Recorded S)) (e : Error)
        → m.ingester ≡ some sys
        → export x fm choice ctx request m ≡ goes (m', failed e)
        → m'.ingester ≡ some sys
    unfolding export
    export_refused choice ctx request m m' sys e h done =
        let (metadata, points) = map_metrics x fm request in
        let counted = record m { received = m.received + 1 } in
        let (sys', refusal, kept) =
          answer_failed counted m' (enqueue choice ctx metadata points sys) e
            (rw (h, export) at done) in
        kept
        ∙ ap {B = Option (System (Recorded S))} some
            (enqueue_refused choice ctx metadata points sys e refusal)

    -- A server that was started with an ingester, and has responded without an error to some requests,
    -- has its ingester in a state that it can reach with their rows as its items, in order.
    pub Serving-Reach :
        {requests : List (List ResourceMetrics)} {m : Server (Recorded S)}
        → Serving st config world x fm requests m
        → (sys : System (Recorded S)) × (m.ingester ≡ some sys)
          × Reach st config world (map (item_of_request x fm) requests) sys
    unfolding new_server
    Serving-Reach (opened addr) = (_, refl, start)
    Serving-Reach (responded {requests = requests} {m = m} {m' = m'} choice ctx request serving e) =
        let (sys, here, r) = Serving-Reach serving in
        let (sys', there, r') =
          export_acknowledges st config world x fm choice ctx request m m' sys here r e in
        (
          sys',
          there,
          subst (λ items. Reach st config world items sys')
              (sym (map-append (item_of_request x fm) requests (request ∷ []))) r',
        )
    Serving-Reach (refused {m = m} {m' = m'} choice ctx request x' serving e) =
        let (sys, here, r) = Serving-Reach serving in
        (sys, export_refused choice ctx request m m' sys x' here e, r)
    Serving-Reach (worked {m = m} {sys = sys} {sys' = sys'} serving here works) =
        let (known, there, r) = Serving-Reach serving in
        let same : known ≡ sys = cc in
        (sys', refl, Reach-Works (subst (Reach st config world _) same r) works)
