-- ===== src/Examples/Telemetering.antt =====
-- The set-up of telemetry where the exporter of the logs fails.
use take_home_assignments.Prelude.{
  ◌≡◌, refl, ◌⊎◌, ℕ, suc, Option, none, some, List, [], ◌∷◌, ◌++◌, map,
}
use take_home_assignments.Store.{Error, foreign}
use take_home_assignments.Startup.{errors_join}
use take_home_assignments.Telemetry.{
  Signal, traces, metrics, logs, SdkStep, set_text_map_propagator, new_exporter, new_provider,
  set_provider, shutdown_provider, shutdown_all, shutdown, handle_err, new_signal_provider, set_up,
  setup_otel_sdk,
}
use take_home_assignments.Telemetry.Cleanup.{
  traced, started, after, AreExported, setup_otel_sdk_cases,
}

abbrev no_logs : SdkStep → ℕ → ℕ × Option Error
no_logs set_text_map_propagator n = (suc n, none)
no_logs (new_exporter traces) n = (suc n, none)
no_logs (new_exporter metrics) n = (suc n, none)
no_logs (new_exporter logs) n = (suc n, some (foreign []))
no_logs (new_provider s) n = (suc n, none)
no_logs (set_provider s) n = (suc n, none)
no_logs (shutdown_provider s) n = (suc n, none)

calls : (setup_otel_sdk no_logs 0).0.process ≡ 10
unfolding errors_join shutdown_all shutdown handle_err new_signal_provider set_up setup_otel_sdk
calls = refl

setup_otel_sdk_cases_example :
    (AreExported no_logs (traces ∷ metrics ∷ logs ∷ []) 1
      × ((setup_otel_sdk (traced no_logs) (0, [])).1 ≡ none)
      × ((setup_otel_sdk (traced no_logs) (0, [])).0.shutdown_funcs ≡ traces ∷ metrics ∷ logs ∷ [])
      × ((shutdown (traced no_logs) (setup_otel_sdk (traced no_logs) (0, [])).0).0.process.1
          ≡ (set_text_map_propagator ∷ started no_logs (traces ∷ metrics ∷ logs ∷ []))
            ++ map shutdown_provider (traces ∷ metrics ∷ logs ∷ [])))
    ⊎ ((done : List Signal) × (s : Signal) × (rest : List Signal) × (cause e : Error) × ((traces
            ∷ metrics ∷ logs ∷ [])
          ≡ done ++ (s ∷ rest))
        × AreExported no_logs done 1
        × ((no_logs (new_exporter s) (after no_logs done 1)).1 ≡ some cause)
        × ((setup_otel_sdk (traced no_logs) (0, [])).1 ≡ some e)
        × ((setup_otel_sdk (traced no_logs) (0, [])).0.shutdown_funcs ≡ [])
        × ((setup_otel_sdk (traced no_logs) (0, [])).0.process.1
            ≡ set_text_map_propagator
              ∷ (started no_logs done ++ (new_exporter s ∷ map shutdown_provider done))))
setup_otel_sdk_cases_example = setup_otel_sdk_cases no_logs 0
