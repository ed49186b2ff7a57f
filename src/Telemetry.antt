-- ===== src/Telemetry.antt =====
-- otel.go: `setupOTelSDK`, with the shutdown function that it builds up and returns.
pub mod Cleanup
use take_home_assignments.Prelude.{Option, none, some, List, [], ◌∷◌, ◌++◌}
use take_home_assignments.Store.{Error}
use take_home_assignments.Startup.{errors_join}

pub data Signal : Type 0 where
  traces metrics logs : Signal

-- The calls of the OpenTelemetry packages: only an exporter and a shutdown can fail.
pub data SdkStep : Type 0 where
  set_text_map_propagator : SdkStep
  new_exporter new_provider set_provider shutdown_provider : Signal → SdkStep

-- The state of the process, and `shutdownFuncs`: the providers whose `Shutdown` it holds.
pub record Sdk (W : Type 0) : Type 0 where
  pub process : W
  pub shutdown_funcs : List Signal

module _ {W : Type 0} (call : SdkStep → W → W × Option Error) where
  -- the loop of `shutdown`
  unfoldable pub shutdown_all : List Signal → Option Error → W → W × Option Error
  shutdown_all [] err w = (w, err)
  shutdown_all (signal ∷ rest) err w =
      let (w, e) = call (shutdown_provider signal) w in shutdown_all rest (errors_join err e) w

  unfoldable pub shutdown : Sdk W → Sdk W × Option Error
  shutdown sdk =
      let (w, err) = shutdown_all sdk.shutdown_funcs none sdk.process in
      (record { process = w; shutdown_funcs = [] }, err)

  unfoldable pub handle_err : Error → Sdk W → Sdk W × Option Error
  handle_err e sdk = let (sdk, err) = shutdown sdk in (sdk, errors_join (some e) err)

  -- `newTraceProvider`, `newMeterProvider` and `newLoggerProvider`
  unfoldable pub new_signal_provider : Signal → W → W × Option Error
  new_signal_provider signal w =
      let (w, e) = call (new_exporter signal) w in
      elim e [ some e ↦ (w, some e) | none ↦ ((call (new_provider signal) w).0, none) ]

  -- the three blocks `Set up … provider`, one for each signal
  unfoldable pub set_up : List Signal → Sdk W → Sdk W × Option Error
  set_up [] sdk = (sdk, none)
  set_up (signal ∷ rest) sdk =
      let (w, e) = new_signal_provider signal sdk.process in
      let sdk = record sdk { process = w } in
      let more = set_up rest (record {
        process = (call (set_provider signal) w).0;
        shutdown_funcs = sdk.shutdown_funcs ++ (signal ∷ []);
      }) in
      elim e [ some e ↦ handle_err e sdk | none ↦ more ]

  -- The state has the functions that the returned `shutdown` would call.
  unfoldable pub setup_otel_sdk : W → Sdk W × Option Error
  setup_otel_sdk w =
      set_up (traces ∷ metrics ∷ logs ∷ [])
        (record { process = (call set_text_map_propagator w).0; shutdown_funcs = [] })
