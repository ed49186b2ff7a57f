-- ===== src/Startup.antt =====
-- server.go: what the process starts, in which order, and what it shuts down.
pub mod Shutdown
use take_home_assignments.Prelude.{Bool, true, false, Option, none, some, if◌then◌else◌}
use take_home_assignments.Store.{Error, join_one, join_two}

-- `errors.Join(a, b)`
unfoldable pub errors_join : Option Error → Option Error → Option Error
errors_join none none = none
errors_join (some a) none = some (join_one a)
errors_join none (some b) = some (join_one b)
errors_join (some a) (some b) = some (join_two a b)

-- The calls that `init` and `run` make.
pub data Step : Type 0 where
  int64_counter : Step
  setup_otel_sdk otel_shutdown : Step
  new_click_house_metrics_store create_tables store_close : Step
  new_ingester ingester_close : Step
  listen serve : Step

-- How `init` and `main` end: they return, `init` panics, or `log.Fatalln` ends the process.
pub data Outcome : Type 0 where
  returns : Outcome
  panics fatal : Error → Outcome

-- A call takes the state `W` of the process and may fail.
module _ {W : Type 0} (call : Step → W → W × Option Error) where
  -- `defer func() { err = errors.Join(err, call()) }()`, at the end of the function
  unfoldable pub deferred : Step → W × Option Error → W × Option Error
  deferred step (w, err) = let (w, e) = call step w in (w, errors_join err e)

  -- from the listener on
  unfoldable pub listen_and_serve : W → W × Option Error
  listen_and_serve w =
      let (w, e) = call listen w in elim e [ some e ↦ (w, some e) | none ↦ call serve w ]

  -- with an address of a ClickHouse server; `NewIngester` does not fail
  unfoldable pub run_stored : W → W × Option Error
  run_stored w =
      let (w₁, e₁) = call new_click_house_metrics_store w in
      let (w₂, e₂) = call create_tables w₁ in
      let (w₃, ignored) = call new_ingester w₂ in
      elim e₁ [
        | some e ↦ (w₁, some e)
        | none ↦ elim e₂ [
          | some e ↦ (w₂, some e)
          | none ↦ deferred store_close (deferred ingester_close (listen_and_serve w₃))
        ]
      ]

  -- `stored` says that `*clickhouseAddr != ""`.
  unfoldable pub run : Bool → W → W × Option Error
  run stored w =
      let (w₁, e) = call setup_otel_sdk w in
      elim e [
        | some e ↦ (w₁, some e)
        | none ↦ deferred otel_shutdown (if stored then run_stored w₁ else listen_and_serve w₁)
      ]

  unfoldable pub init : W → W × Outcome
  init w =
      let (w, e) = call int64_counter w in elim e [ some e ↦ (w, panics e) | none ↦ (w, returns) ]

  unfoldable pub main : Bool → W → W × Outcome
  main stored w =
      let (w, e) = run stored w in elim e [ some e ↦ (w, fatal e) | none ↦ (w, returns) ]

  -- The language runs `init` before `main`.
  unfoldable pub process : Bool → W → W × Outcome
  process stored w =
      let (w, ended) = init w in
      elim ended [ returns ↦ main stored w | panics e ↦ (w, panics e) | fatal e ↦ (w, fatal e) ]
