-- ===== src/Examples/Serving.antt =====
-- The service in front of the ingester at a concrete request.
use take_home_assignments.Prelude.{◌≡◌, refl, ℕ, none, some, [], ◌∷◌, map}
use take_home_assignments.Text.{bytes}
use take_home_assignments.Store.Recorder.{Recorded, recorder}
use take_home_assignments.Ingester.{IngestItem, with_defaults, or_default, is_empty, new_flusher}
use take_home_assignments.Ingester.System.{System, goes, channel, send, enqueue, new_ingester}
use take_home_assignments.Ingester.System.Run.{Reach}
use take_home_assignments.Service.{Server, response, export, new_server}
use take_home_assignments.Service.Laws.{item_of_request}
use take_home_assignments.Service.Serving.{Serving, responded, Serving-Reach}
use take_home_assignments.Examples.Data.{
  sample_hash, sample_formats, sample_request, counting_store, small_config,
}
use take_home_assignments.Examples.Mapping.{mapper}

serving : Unit {0}
unfolding mapper export new_server enqueue send new_ingester new_flusher with_defaults or_default
    is_empty
serving = tt

abbrev idle : System (Recorded ℕ)
idle = new_ingester (recorder counting_store) small_config (record { inner = 0; calls = [] })

abbrev accepted : IngestItem
accepted = item_of_request sample_hash sample_formats sample_request

abbrev server : Server (Recorded ℕ)
server = new_server (bytes "localhost:4317") (some idle)

abbrev served : Server (Recorded ℕ)
served = record server { ingester = some (record idle { queue = accepted ∷ [] }); received = 1 }

exported :
    export sample_hash sample_formats channel none sample_request server ≡ goes (served, response)
unfolding serving
exported = refl

served_request :
    Serving counting_store small_config 0 sample_hash sample_formats (sample_request ∷ []) served
unfolding serving
served_request =
    responded {m' = served} channel none sample_request (Serving.opened (bytes "localhost:4317"))
      exported

Serving-Reach_example :
    (sys : System (Recorded ℕ)) × (served.ingester ≡ some sys)
    × Reach counting_store small_config 0
        (map (item_of_request sample_hash sample_formats) (sample_request ∷ []))
        sys
Serving-Reach_example =
    Serving-Reach counting_store small_config 0 sample_hash sample_formats served_request
