-- ===== src/Telemetry/Cleanup.antt =====
-- What `setupOTelSDK` leaves to shut down, and what it has shut down itself.
use take_home_assignments.Prelude.{
  ◌≡◌, refl, sym, ap, ◌∙◌, ◌⊎◌, inl, inr, Option, none, some, List, [], ◌∷◌, ◌++◌, map, arith,
  Option-cases,
}
use take_home_assignments.Store.{Error}
use take_home_assignments.Startup.{errors_join}
use take_home_assignments.Telemetry.{
  Signal, traces, metrics, logs, SdkStep, set_text_map_propagator, new_exporter, new_provider,
  set_provider, shutdown_provider, Sdk, shutdown_all, shutdown, handle_err, new_signal_provider,
  set_up, setup_otel_sdk,
}
use mathlib.Core.Path.{ap₂}
use mathlib.Core.List.{append-nil, append_assoc}

module _ {W : Type 0} (call : SdkStep → W → W × Option Error) where
  -- The same calls, with a record of them.
  abbrev pub traced : SdkStep → W × List SdkStep → (W × List SdkStep) × Option Error
  traced step (w, steps) = (((call step w).0, steps ++ (step ∷ [])), (call step w).1)

  shutdown_all-trace :
      (signals : List Signal) (err : Option Error) (w : W) (steps : List SdkStep)
      → (shutdown_all traced signals err (w, steps)).0.1 ≡ steps ++ map shutdown_provider signals
  unfolding shutdown_all
  shutdown_all-trace [] err w steps = sym (append-nil steps)
  shutdown_all-trace (s ∷ signals) err w steps =
      shutdown_all-trace signals _ (call (shutdown_provider s) w).0
        (steps ++ (shutdown_provider s ∷ []))
      ∙ append_assoc steps (shutdown_provider s ∷ []) (map shutdown_provider signals)

  -- The calls that set up a signal.
  unfoldable pub started : List Signal → List SdkStep
  started [] = []
  started (s ∷ signals) = new_exporter s ∷ new_provider s ∷ set_provider s ∷ started signals

  -- The state after the calls that set up a signal.
  abbrev pub after_signal : Signal → W → W
  after_signal s w = (call (set_provider s) (call (new_provider s) (call (new_exporter s) w).0).0).0

  -- The state after the calls that set up some signals.
  unfoldable pub after : List Signal → W → W
  after [] w = w
  after (s ∷ signals) w = after signals (after_signal s w)

  -- The exporters of some signals all come without an error, where they are set up in order.
  unfoldable pub AreExported : List Signal → W → Type 0
  AreExported [] w = Unit {0}
  AreExported (s ∷ signals) w =
      ((call (new_exporter s) w).1 ≡ none) × AreExported signals (after_signal s w)

  -- the state after a signal
  abbrev next : Signal → Sdk (W × List SdkStep) → Sdk (W × List SdkStep)
  next s sdk =
      let w = (call (new_provider s) (call (new_exporter s) sdk.process.0).0).0 in
      record {
        process = (
          (call (set_provider s) w).0,
          ((sdk.process.1 ++ (new_exporter s ∷ [])) ++ (new_provider s ∷ []))
              ++ (set_provider s ∷ []),
        );
        shutdown_funcs = sdk.shutdown_funcs ++ (s ∷ []);
      }

  -- the state after an exporter has failed
  abbrev stuck : Signal → Sdk (W × List SdkStep) → Sdk (W × List SdkStep)
  stuck s sdk = record sdk {
    process = ((call (new_exporter s) sdk.process.0).0, sdk.process.1 ++ (new_exporter s ∷ []));
  }

  set_up-next :
      (s : Signal) (signals : List Signal) (sdk : Sdk (W × List SdkStep))
      → (call (new_exporter s) sdk.process.0).1 ≡ none
      → set_up traced (s ∷ signals) sdk ≡ set_up traced signals (next s sdk)
  unfolding set_up new_signal_provider
  set_up-next s signals sdk good = ground (arith, good)

  set_up-stuck :
      (s : Signal) (signals : List Signal) (sdk : Sdk (W × List SdkStep)) (e : Error)
      → (call (new_exporter s) sdk.process.0).1 ≡ some e
      → set_up traced (s ∷ signals) sdk ≡ handle_err traced e (stuck s sdk)
  unfolding set_up new_signal_provider
  set_up-stuck s signals sdk e bad = ground (arith, bad)

  append_three :
      (steps : List SdkStep) (a b c : SdkStep) (more : List SdkStep)
      → (((steps ++ (a ∷ [])) ++ (b ∷ [])) ++ (c ∷ [])) ++ more ≡ steps ++ (a ∷ b ∷ c ∷ more)
  append_three steps a b c more = simp append_assoc

  errors_join-some :
      (e : Error) (o : Option Error) → (x : Error) × (errors_join (some e) o ≡ some x)
  unfolding errors_join
  errors_join-some e none = (_, refl)
  errors_join-some e (some x) = (_, refl)

  -- No exporter fails, and all providers are set up.
  abbrev Completes : List Signal → Sdk (W × List SdkStep) → Type 0
  Completes signals sdk =
      AreExported signals sdk.process.0
      × ((set_up traced signals sdk).1 ≡ none)
      × ((set_up traced signals sdk).0.shutdown_funcs ≡ sdk.shutdown_funcs ++ signals)
      × ((set_up traced signals sdk).0.process.1 ≡ sdk.process.1 ++ started signals)

  -- An exporter fails, and the providers before it are shut down.
  abbrev Fails : List Signal → Sdk (W × List SdkStep) → Type 0
  Fails signals sdk =
      (done : List Signal) × (s : Signal) × (rest : List Signal) × (cause e : Error) × (signals
        ≡ done ++ (s ∷ rest))
      × AreExported done sdk.process.0
      × ((call (new_exporter s) (after done sdk.process.0)).1 ≡ some cause)
      × ((set_up traced signals sdk).1 ≡ some e)
      × ((set_up traced signals sdk).0.shutdown_funcs ≡ [])
      × ((set_up traced signals sdk).0.process.1
          ≡ sdk.process.1
            ++ (started done
                ++ (new_exporter s ∷ map shutdown_provider (sdk.shutdown_funcs ++ done))))

  Fails-stuck :
      (s : Signal) (signals : List Signal) (sdk : Sdk (W × List SdkStep)) (e : Error)
      → (call (new_exporter s) sdk.process.0).1 ≡ some e
      → Fails (s ∷ signals) sdk
  unfolding handle_err shutdown started after AreExported
  Fails-stuck s signals sdk e bad =
      let (x, joined) = errors_join-some e (shutdown traced (stuck s sdk)).1 in
      rw (set_up-stuck s signals sdk e bad) (
        [],
        s,
        signals,
        e,
        x,
        refl,
        tt,
        bad,
        joined,
        refl,
        shutdown_all-trace sdk.shutdown_funcs none _ (sdk.process.1 ++ (new_exporter s ∷ []))
            ∙ append_assoc sdk.process.1 (new_exporter s ∷ [])
                (map shutdown_provider sdk.shutdown_funcs)
            ∙ ap (λ fs. sdk.process.1 ++ (new_exporter s ∷ map shutdown_provider fs))
                (sym (append-nil sdk.shutdown_funcs)),
      )

  Completes-next :
      (s : Signal) (signals : List Signal) (sdk : Sdk (W × List SdkStep))
      → (call (new_exporter s) sdk.process.0).1 ≡ none
      → Completes signals (next s sdk)
      → Completes (s ∷ signals) sdk
  unfolding started AreExported
  Completes-next s signals sdk good (exported, clean, funcs, steps) =
      rw (set_up-next s signals sdk good) (
        (good, exported),
        clean,
        funcs ∙ append_assoc sdk.shutdown_funcs (s ∷ []) signals,
        steps ∙ append_three sdk.process.1 _ _ _ (started signals),
      )

  Fails-next :
      (s : Signal) (signals : List Signal) (sdk : Sdk (W × List SdkStep))
      → (call (new_exporter s) sdk.process.0).1 ≡ none
      → Fails signals (next s sdk)
      → Fails (s ∷ signals) sdk
  unfolding started after AreExported
  Fails-next s signals sdk good
        (done, s', rest, cause, e, split, exported, bad, failed, none_left, steps) =
      rw (set_up-next s signals sdk good) (
        s ∷ done,
        s',
        rest,
        cause,
        e,
        ap (◌∷◌ s) split,
        (good, exported),
        bad,
        failed,
        none_left,
        steps
            ∙ append_three sdk.process.1 _ _ _ _
            ∙ ap
                (λ fs.
                  sdk.process.1
                  ++ (started (s ∷ done) ++ (new_exporter s' ∷ map shutdown_provider fs)))
                (append_assoc sdk.shutdown_funcs (s ∷ []) done),
      )

  -- The providers are set up in order until an exporter fails; those before it are then shut down.
  set_up_cases :
      (signals : List Signal) (sdk : Sdk (W × List SdkStep))
      → Completes signals sdk ⊎ Fails signals sdk
  unfolding set_up started AreExported
  set_up_cases [] sdk =
      inl (tt, refl, sym (append-nil sdk.shutdown_funcs), sym (append-nil sdk.process.1))
  set_up_cases (s ∷ signals) sdk = elim (Option-cases (call (new_exporter s) sdk.process.0).1) [
    | inr (e, bad) ↦ inr (Fails-stuck s signals sdk e bad)
    | inl good ↦ elim (set_up_cases signals (next s sdk)) [
      | inl completes ↦ inl (Completes-next s signals sdk good completes)
      | inr fails ↦ inr (Fails-next s signals sdk good fails)
    ]
  ]

  -- Either no exporter fails, where they are made in order with the other calls of each signal
  -- between them: then `setupOTelSDK` returns nil, and the shutdown function that it returns shuts
  -- down the three providers in the order in which they were set up. Or an exporter is the first to
  -- fail: then `setupOTelSDK` returns an error, has made no call for the signals after it, has shut
  -- down exactly the providers set up before, each once and in order, and leaves nothing to shut down.
  pub setup_otel_sdk_cases :
      (w : W)
      → (AreExported (traces ∷ metrics ∷ logs ∷ []) (call set_text_map_propagator w).0
          × ((setup_otel_sdk traced (w, [])).1 ≡ none)
          × ((setup_otel_sdk traced (w, [])).0.shutdown_funcs ≡ traces ∷ metrics ∷ logs ∷ [])
          × ((shutdown traced (setup_otel_sdk traced (w, [])).0).0.process.1
              ≡ (set_text_map_propagator ∷ started (traces ∷ metrics ∷ logs ∷ []))
                ++ map shutdown_provider (traces ∷ metrics ∷ logs ∷ [])))
        ⊎ ((done : List Signal) × (s : Signal) × (rest : List Signal) × (cause e : Error) × ((traces
                ∷ metrics ∷ logs ∷ [])
              ≡ done ++ (s ∷ rest))
            × AreExported done (call set_text_map_propagator w).0
            × ((call (new_exporter s) (after done (call set_text_map_propagator w).0)).1
                ≡ some cause)
            × ((setup_otel_sdk traced (w, [])).1 ≡ some e)
            × ((setup_otel_sdk traced (w, [])).0.shutdown_funcs ≡ [])
            × ((setup_otel_sdk traced (w, [])).0.process.1
                ≡ set_text_map_propagator
                  ∷ (started done ++ (new_exporter s ∷ map shutdown_provider done))))
  unfolding setup_otel_sdk shutdown
  setup_otel_sdk_cases w =
      let all : List Signal = traces ∷ metrics ∷ logs ∷ [] in
      let begun : Sdk (W × List SdkStep) = record {
        process = ((call set_text_map_propagator w).0, set_text_map_propagator ∷ []);
        shutdown_funcs = [];
      } in
      elim (set_up_cases all begun) [
        | inr failed ↦ inr failed
        | inl (exported, clean, funcs, steps) ↦
            let ready = (set_up traced all begun).0 in
            inl (
              exported,
              clean,
              funcs,
              shutdown_all-trace ready.shutdown_funcs none ready.process.0 ready.process.1
                  ∙ ap₂ (λ fs ss. ss ++ map shutdown_provider fs) funcs steps,
            )
      ]
