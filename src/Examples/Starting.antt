-- ===== src/Examples/Starting.antt =====
-- The start and the end of the process, where each call counts itself and serving ends in an error.
use take_home_assignments.Prelude.{
  ◌≡◌, refl, ◌⊎◌, ℕ, suc, true, Option, none, some, List, [], ◌∷◌, ◌++◌,
}
use take_home_assignments.Store.{Error, foreign}
use take_home_assignments.Startup.{
  Step, setup_otel_sdk, otel_shutdown, new_click_house_metrics_store, create_tables, store_close,
  new_ingester, ingester_close, listen, serve, int64_counter, errors_join, deferred,
  listen_and_serve, run_stored, run,
}
use take_home_assignments.Startup.Shutdown.{trace, IsServed, run_trace, run_error}

abbrev counted : Step → ℕ → ℕ × Option Error
counted step n = (suc n, none)

abbrev ended : Step → ℕ → ℕ × Option Error
ended step n = elim step [
  | int64_counter ↦ (suc n, none)
  | setup_otel_sdk ↦ (suc n, none)
  | otel_shutdown ↦ (suc n, none)
  | new_click_house_metrics_store ↦ (suc n, none)
  | create_tables ↦ (suc n, none)
  | store_close ↦ (suc n, none)
  | new_ingester ↦ (suc n, none)
  | ingester_close ↦ (suc n, none)
  | listen ↦ (suc n, none)
  | serve ↦ (suc n, some (foreign []))
]

nine_calls : (run ended true 0).0 ≡ 9
unfolding run run_stored listen_and_serve deferred errors_join
nine_calls = refl

-- a process that cannot create its tables
abbrev no_tables : Step → ℕ → ℕ × Option Error
no_tables step n = elim step [
  | int64_counter ↦ (suc n, none)
  | setup_otel_sdk ↦ (suc n, none)
  | otel_shutdown ↦ (suc n, none)
  | new_click_house_metrics_store ↦ (suc n, none)
  | create_tables ↦ (suc n, some (foreign []))
  | store_close ↦ (suc n, none)
  | new_ingester ↦ (suc n, none)
  | ingester_close ↦ (suc n, none)
  | listen ↦ (suc n, none)
  | serve ↦ (suc n, none)
]

four_calls : (run no_tables true 0).0 ≡ 4
unfolding run run_stored listen_and_serve deferred errors_join
four_calls = refl

run_trace_example :
    (((e : Error) × ((ended setup_otel_sdk 0).1 ≡ some e))
      × (trace ended true 0 ≡ setup_otel_sdk ∷ []))
    ⊎ (((ended setup_otel_sdk 0).1 ≡ none)
        × ((e : Error) × ((ended new_click_house_metrics_store 1).1 ≡ some e))
        × (trace ended true 0
            ≡ setup_otel_sdk ∷ new_click_house_metrics_store ∷ otel_shutdown ∷ []))
    ⊎ (((ended setup_otel_sdk 0).1 ≡ none)
        × ((ended new_click_house_metrics_store 1).1 ≡ none)
        × ((e : Error) × ((ended create_tables 2).1 ≡ some e))
        × (trace ended true 0
            ≡ setup_otel_sdk ∷ new_click_house_metrics_store ∷ create_tables ∷ otel_shutdown ∷ []))
    ⊎ (((ended setup_otel_sdk 0).1 ≡ none)
        × ((ended new_click_house_metrics_store 1).1 ≡ none)
        × ((ended create_tables 2).1 ≡ none)
        × ((served : List Step) × IsServed ended 4 served
            × (trace ended true 0
                ≡ (setup_otel_sdk ∷ new_click_house_metrics_store ∷ create_tables ∷ new_ingester
                    ∷ [])
                  ++ served
                  ++ (ingester_close ∷ store_close ∷ otel_shutdown ∷ []))))
run_trace_example = run_trace ended 0 1 2 3 4 refl refl refl refl

run_error_example :
    ((counted setup_otel_sdk 0).1 ≡ none)
    × ((counted new_click_house_metrics_store 1).1 ≡ none)
    × ((counted create_tables 2).1 ≡ none)
    × ((counted listen 4).1 ≡ none)
    × ((counted serve 5).1 ≡ none)
    × ((counted ingester_close 6).1 ≡ none)
    × ((counted store_close 7).1 ≡ none)
    × ((counted otel_shutdown 8).1 ≡ none)
unfolding run run_stored listen_and_serve deferred errors_join
run_error_example = run_error counted 0 1 2 3 4 5 6 7 8 refl refl refl refl refl refl refl refl refl
