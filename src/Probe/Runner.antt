-- ===== src/Probe/Runner.antt =====
-- packages/probe/src/runner.ts: `StructuredRunnerAdapter`, which turns the raw events of a runner
-- into report evidence. A field that the source only tests by `String(…)` keeps its raw value, as
-- it does there. `scanPrivacy` of the schema package is the parameter `scan`, which counts findings.
pub mod Events
pub mod Laws
pub mod Coercion
mod Tests
pub mod Placed
pub mod Observed
use qvac_atlas.Base.{
  ℕ, suc, String, Bool, true, false, Option, none, some, List, [], ◌∷◌, ◌=ₜ◌, ◌==◌, ◌&&◌, ◌||◌, ltb,
  leb, if◌then◌else◌, length, any, not,
}
use qvac_atlas.Json.{Value, undefined, null, str, arr, items}
use qvac_atlas.Probe.Runner.Events.{
  RunnerEvent, phase, backend, termination, result, Failure, Parsed, event, rejected, throws,
  parse_event,
}

pub record PhaseEvidence : Type 0 where
  pub name : String
  pub status : String
  pub duration_ms : Value

pub record Observation : Type 0 where
  pub status : String
  pub backend : Value
  pub method : String

pub record Termination : Type 0 where
  pub kind : Value
  pub exit_code : Value
  pub signal : Value
  pub last_completed_phase : Value

pub record Result : Type 0 where
  pub workload_status : String
  pub completion_observed : Bool
  pub failure : Failure

pub record RunnerEvidence : Type 0 where
  pub phases : List PhaseEvidence
  pub backend_observation : Observation
  pub termination : Termination
  pub result : Result

unfoldable pub rejected_evidence : RunnerEvidence
rejected_evidence = record {
  phases = record { name = "qvac-import"; status = "unknown"; duration_ms = null } ∷ [];
  backend_observation = record { status = "unavailable"; backend = null; method = "unavailable" };
  termination = record {
    kind = str "unknown";
    exit_code = null;
    signal = null;
    last_completed_phase = null;
  };
  result = record {
    workload_status = "unknown";
    completion_observed = false;
    failure = record {
      category = str "unknown";
      phase = str "qvac-import";
      code = str "RUNNER_EVENT_REJECTED";
      sanitized_excerpt = null;
    };
  };
}

-- What `executor.execute()` does, and what `run` does: an exception from `String(…)` leaves `run`.
pub data Executed : Type 0 where
  failed : Executed
  returned : Value → Executed

pub data Outcome : Type 0 where
  evidence : RunnerEvidence → Outcome
  thrown : Outcome

-- `raw.map(parseEvent)` with the test for nulls: the first exception wins over any null.
pub data Batch : Type 0 where
  all_parsed : List RunnerEvent → Batch
  some_null : Batch
  some_thrown : Batch

abbrev pub join_parsed : Parsed → Batch → Batch
join_parsed throws _ = some_thrown
join_parsed (event e) (all_parsed es) = all_parsed (e ∷ es)
join_parsed (event e) b = b
join_parsed rejected some_thrown = some_thrown
join_parsed rejected _ = some_null

unfoldable pub parse_all : List Value → Batch
parse_all [] = all_parsed []
parse_all (v ∷ vs) = join_parsed (parse_event v) (parse_all vs)

unfoldable pub phases_of : List RunnerEvent → List PhaseEvidence
phases_of [] = []
phases_of (phase n s d ∷ es) = record { name = n; status = s; duration_ms = d } ∷ phases_of es
phases_of (_ ∷ es) = phases_of es

unfoldable pub backends_of : List RunnerEvent → List Value
backends_of [] = []
backends_of (backend b ∷ es) = b ∷ backends_of es
backends_of (_ ∷ es) = backends_of es

unfoldable pub terminations_of : List RunnerEvent → List Termination
terminations_of [] = []
terminations_of (termination k x s l ∷ es) =
    record { kind = k; exit_code = x; signal = s; last_completed_phase = l } ∷ terminations_of es
terminations_of (_ ∷ es) = terminations_of es

unfoldable pub results_of : List RunnerEvent → List Result
results_of [] = []
results_of (result w c f ∷ es) =
    record { workload_status = w; completion_observed = c; failure = f } ∷ results_of es
results_of (_ ∷ es) = results_of es

abbrev pub attempted : PhaseEvidence → Bool
attempted p = p.name =ₜ "inference" && (p.status =ₜ "passed" || p.status =ₜ "failed")

abbrev pub is_inference : RunnerEvent → Bool
is_inference (phase n s d) = n =ₜ "inference"
is_inference _ = false

abbrev pub is_backend : RunnerEvent → Bool
is_backend (backend b) = true
is_backend _ = false

-- `findIndex`, with `none` for -1.
abbrev pub next_index : Option ℕ → Option ℕ
next_index none = none
next_index (some i) = some (suc i)

unfoldable pub find_index : (RunnerEvent → Bool) → List RunnerEvent → Option ℕ
find_index p [] = none
find_index p (e ∷ es) = if p e then some 0 else next_index (find_index p es)

-- `backend >= 0 && backend <= inference`.
abbrev pub too_early : Option ℕ → Option ℕ → Bool
too_early none _ = false
too_early (some b) none = false
too_early (some b) (some i) = leb b i

-- `value ?? null`.
abbrev pub or_null : Value → Value
or_null undefined = null
or_null v = v

unfoldable pub observation : List Value → Bool → Observation
observation (b ∷ []) attempt = record {
  status = "observed";
  backend = or_null b;
  method = "runner-event";
}
observation _ attempt = record {
  status = if attempt then "unavailable" else "not-reached";
  backend = null;
  method = "unavailable";
}

-- The checks over the parsed events; the lists are the four filters.
unfoldable pub assemble :
    List RunnerEvent → List PhaseEvidence → List Value → List Termination → List Result → Outcome
unfolding rejected_evidence observation find_index
assemble es [] bs ts rs = evidence rejected_evidence
assemble es (p ∷ ps) bs (t ∷ []) (r ∷ []) =
    let attempt = any attempted (p ∷ ps) in
    if ltb 1 (length bs)
    then evidence rejected_evidence
    else if length bs == 1 && not attempt
    then evidence rejected_evidence
    else if too_early (find_index is_backend es) (find_index is_inference es)
    then evidence rejected_evidence
    else evidence (record {
      phases = p ∷ ps;
      backend_observation = observation bs attempt;
      termination = t;
      result = r;
    })
assemble es (p ∷ ps) bs _ _ = evidence rejected_evidence

unfoldable pub collect : Batch → Outcome
unfolding assemble phases_of backends_of terminations_of results_of
collect some_thrown = thrown
collect some_null = evidence rejected_evidence
collect (all_parsed es) =
    assemble es (phases_of es) (backends_of es) (terminations_of es) (results_of es)

unfoldable pub run : (Value → ℕ) → Executed → Outcome
unfolding collect parse_all
run scan failed = evidence rejected_evidence
run scan (returned (arr vs)) =
    if ltb 32 (length (items vs)) || ltb 0 (scan (arr vs))
    then evidence rejected_evidence
    else collect (parse_all (items vs))
run scan (returned _) = evidence rejected_evidence
