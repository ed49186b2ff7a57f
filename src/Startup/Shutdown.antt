-- ===== src/Startup/Shutdown.antt =====
-- What `run` shuts down.
use take_home_assignments.Prelude.{
  ◌≡◌, refl, ◌⊎◌, inl, inr, Bool, true, Option, none, some, List, [], ◌∷◌, ◌++◌, arith,
  Option-cases,
}
use take_home_assignments.Store.{Error}
use take_home_assignments.Startup.{
  Step, setup_otel_sdk, otel_shutdown, new_click_house_metrics_store, create_tables, store_close,
  new_ingester, ingester_close, listen, serve, int64_counter, errors_join, deferred,
  listen_and_serve, run_stored, run, returns, panics, fatal, init, main, process,
}

module _ {W : Type 0} (call : Step → W → W × Option Error) where
  -- The same calls, with a record of them.
  abbrev pub traced : Step → W × List Step → (W × List Step) × Option Error
  traced step (w, steps) = (((call step w).0, steps ++ (step ∷ [])), (call step w).1)

  abbrev pub trace : Bool → W → List Step
  trace stored w = (run traced stored (w, [])).0.1

  -- The calls from the listener on, at a state: a listener that fails is not served.
  abbrev pub IsServed : W → List Step → Type 0
  IsServed w steps =
      (((e : Error) × ((call listen w).1 ≡ some e)) × (steps ≡ listen ∷ []))
      ⊎ (((call listen w).1 ≡ none) × (steps ≡ listen ∷ serve ∷ []))

  -- With storage, where each of the states is the one that the calls before leave: if telemetry
  -- fails, `run` makes no other call; if the connection fails, or else the tables, it does not start
  -- the ingester, shuts down telemetry, and nothing else. If none of the three fails, it starts the
  -- ingester, and then the listener, which it serves unless it fails; whatever these and the
  -- shutdowns return, it closes the ingester, then the store and then telemetry, each once and in
  -- that order.
  pub run_trace :
      (w w₁ w₂ w₃ w₄ : W)
      → w₁ ≡ (call setup_otel_sdk w).0
      → w₂ ≡ (call new_click_house_metrics_store w₁).0
      → w₃ ≡ (call create_tables w₂).0
      → w₄ ≡ (call new_ingester w₃).0
      → (((e : Error) × ((call setup_otel_sdk w).1 ≡ some e))
          × (trace true w ≡ setup_otel_sdk ∷ []))
        ⊎ (((call setup_otel_sdk w).1 ≡ none)
            × ((e : Error) × ((call new_click_house_metrics_store w₁).1 ≡ some e))
            × (trace true w ≡ setup_otel_sdk ∷ new_click_house_metrics_store ∷ otel_shutdown ∷ []))
        ⊎ (((call setup_otel_sdk w).1 ≡ none)
            × ((call new_click_house_metrics_store w₁).1 ≡ none)
            × ((e : Error) × ((call create_tables w₂).1 ≡ some e))
            × (trace true w
                ≡ setup_otel_sdk ∷ new_click_house_metrics_store ∷ create_tables ∷ otel_shutdown
                  ∷ []))
        ⊎ (((call setup_otel_sdk w).1 ≡ none)
            × ((call new_click_house_metrics_store w₁).1 ≡ none)
            × ((call create_tables w₂).1 ≡ none)
            × ((served : List Step) × IsServed w₄ served
                × (trace true w
                    ≡ (setup_otel_sdk ∷ new_click_house_metrics_store ∷ create_tables ∷ new_ingester
                        ∷ [])
                      ++ served
                      ++ (ingester_close ∷ store_close ∷ otel_shutdown ∷ []))))
  unfolding run run_stored listen_and_serve deferred
  run_trace w w₁ w₂ w₃ w₄ h₁ h₂ h₃ h₄ = elim (Option-cases (call setup_otel_sdk w).1) [
    | inr (x, a) ↦ inl ((x, a), ground (arith, a))
    | inl a ↦ elim (Option-cases (call new_click_house_metrics_store w₁).1) [
      | inr (x, b) ↦ inr (inl (a, (x, b), ground (arith, a, b)))
      | inl b ↦ elim (Option-cases (call create_tables w₂).1) [
        | inr (x, c) ↦ inr (inr (inl (a, b, (x, c), ground (arith, a, b, c))))
        | inl c ↦ elim (Option-cases (call listen w₄).1) [
          | inr (x, d) ↦
              inr
                (inr (inr (a, b, c, (listen ∷ [], inl ((x, d), refl), ground (arith, a, b, c, d)))))
          | inl d ↦ inr (
              inr (inr (a, b, c, (listen ∷ serve ∷ [], inr (d, refl), ground (arith, a, b, c, d)))))
        ]
      ]
    ]
  ]

  -- With storage, `run` returns nil only if every one of its calls but `NewIngester` did, each at
  -- the state that the calls before it left: no error is lost on the way out.
  pub run_error :
      (w w₁ w₂ w₃ w₄ w₅ w₆ w₇ w₈ : W)
      → w₁ ≡ (call setup_otel_sdk w).0
      → w₂ ≡ (call new_click_house_metrics_store w₁).0
      → w₃ ≡ (call create_tables w₂).0
      → w₄ ≡ (call new_ingester w₃).0
      → w₅ ≡ (call listen w₄).0
      → w₆ ≡ (call serve w₅).0
      → w₇ ≡ (call ingester_close w₆).0
      → w₈ ≡ (call store_close w₇).0
      → (run call true w).1 ≡ none
      → ((call setup_otel_sdk w).1 ≡ none)
        × ((call new_click_house_metrics_store w₁).1 ≡ none)
        × ((call create_tables w₂).1 ≡ none)
        × ((call listen w₄).1 ≡ none)
        × ((call serve w₅).1 ≡ none)
        × ((call ingester_close w₆).1 ≡ none)
        × ((call store_close w₇).1 ≡ none)
        × ((call otel_shutdown w₈).1 ≡ none)
  unfolding run run_stored listen_and_serve deferred errors_join
  run_error w w₁ w₂ w₃ w₄ w₅ w₆ w₇ w₈ h₁ h₂ h₃ h₄ h₅ h₆ h₇ h₈ e = ground arith

  -- A process that cannot register its counter starts nothing; another one ends as `run` does, in
  -- `log.Fatalln` for an error.
  process_cases :
      (stored : Bool) (w : W)
      → let w' = (call int64_counter w).0 in
        ((e : Error) × ((call int64_counter w).1 ≡ some e)
          × (process call stored w ≡ (w', panics e)))
        ⊎ (((run call stored w').1 ≡ none)
            × (process call stored w ≡ ((run call stored w').0, returns)))
        ⊎ ((e : Error) × ((run call stored w').1 ≡ some e)
            × (process call stored w ≡ ((run call stored w').0, fatal e)))
  unfolding process init main
  process_cases stored w =
      let w' = (call int64_counter w).0 in
      elim (Option-cases (call int64_counter w).1) [
        | inr (e, bad) ↦ inl (e, bad, ground (arith, bad))
        | inl good ↦ elim (Option-cases (run call stored w').1) [
          | inl clean ↦ inr (inl (clean, ground (arith, good, clean)))
          | inr (e, bad) ↦ inr (inr (e, bad, ground (arith, good, bad)))
        ]
      ]
