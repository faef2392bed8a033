-- ===== src/Probe/Runner/Tests.antt =====
-- Runs of the adapter's parts at concrete inputs.
use qvac_atlas.Base.{◌≡◌, refl, List, [], ◌∷◌, true, false}
use qvac_atlas.Json.{Value, str, num, null, obj, fields}
use qvac_atlas.Json.Keys.{exact_joined_keys}
use qvac_atlas.Probe.Runner.{all_parsed, collect, evidence, RunnerEvidence}
use qvac_atlas.Probe.Runner.Events.{
  parse_event, event, phase, backend, termination, result, RunnerEvent, Failure,
}
use qvac_atlas.Probe.Runner.Coercion.{wrap, backend_message, kind_message, parse_event-wrap}
use qvac_atlas.Probe.Runner.Observed.{IsObserved, collect-IsObserved}

keys_test :
    exact_joined_keys (fields (("type", null) ∷ ("backend", null) ∷ [])) ("type" ∷ "backend" ∷ [])
    ≡ true
unfolding exact_joined_keys
keys_test = refl

misspelt_test :
    exact_joined_keys (fields (("typf", null) ∷ ("backend", null) ∷ [])) ("type" ∷ "backend" ∷ [])
    ≡ false
unfolding exact_joined_keys
misspelt_test = refl

abbrev imported : Value
imported = obj (
    fields (
      ("type", str "phase")
      ∷ ("name", str "qvac-import")
      ∷ ("status", str "passed")
      ∷ ("duration_ms", num 20)
      ∷ []))

imported_test : parse_event imported ≡ event (phase "qvac-import" "passed" (num 20))
unfolding parse_event
imported_test = refl

parse_event-wrap_example :
    (parse_event (backend_message (wrap 2 "gpu")) ≡ event (backend (wrap 2 "gpu")))
    × (parse_event (kind_message (wrap 2 "timeout"))
        ≡ event (termination (wrap 2 "timeout") null null null))
parse_event-wrap_example = parse_event-wrap 2 "gpu" "timeout" refl refl

abbrev no_failure : Failure
no_failure = record { category = str "none"; phase = null; code = null; sanitized_excerpt = null }

abbrev inferred : List RunnerEvent
inferred =
    phase "inference" "passed" (num 900)
    ∷ backend (str "gpu")
    ∷ termination (str "clean-exit") (num 0) null (str "inference")
    ∷ result "passed" true no_failure
    ∷ []

abbrev inferred_evidence : RunnerEvidence
inferred_evidence = record {
  phases = record { name = "inference"; status = "passed"; duration_ms = num 900 } ∷ [];
  backend_observation = record {
    status = "observed";
    backend = str "gpu";
    method = "runner-event";
  };
  termination = record {
    kind = str "clean-exit";
    exit_code = num 0;
    signal = null;
    last_completed_phase = str "inference";
  };
  result = record { workload_status = "passed"; completion_observed = true; failure = no_failure };
}

inferred_test : collect (all_parsed inferred) ≡ evidence inferred_evidence
unfolding collect
inferred_test = refl

collect-IsObserved_example : IsObserved inferred inferred_evidence
collect-IsObserved_example = collect-IsObserved inferred inferred_evidence inferred_test refl
