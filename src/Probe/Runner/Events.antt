-- ===== src/Probe/Runner/Events.antt =====
-- packages/probe/src/runner.ts: the event types and `parseEvent`.
use Prim.Native.Char.{code}
use Prim.Native.String.{String}
use qvac_atlas.Base.{
  ℕ, Bool, true, false, Option, none, some, List, [], ◌∷◌, ◌=ₜ◌, ◌==◌, ◌&&◌, ◌||◌, leb,
  if◌then◌else◌, one_of,
}
use qvac_atlas.Json.{
  Value, bool, num, str, null, Fields, get, record_of, is_null, Coerced, text, unlisted, to_string,
}
use qvac_atlas.Json.Keys.{exact_joined_keys}

pub record Failure : Type 0 where
  pub category : Value
  pub phase : Value
  pub code : Value
  pub sanitized_excerpt : Value

pub data RunnerEvent : Type 0 where
  phase : String → String → Value → RunnerEvent
  backend : Value → RunnerEvent
  termination : Value → Value → Value → Value → RunnerEvent
  result : String → Bool → Failure → RunnerEvent

-- `null` is `rejected`; `String(…)` may raise.
pub data Parsed : Type 0 where
  event : RunnerEvent → Parsed
  rejected : Parsed
  throws : Parsed

abbrev pub phase_labels : List String
phase_labels = "qvac-import" ∷ "worker-start" ∷ "model-load" ∷ "inference" ∷ "clean-shutdown" ∷ []

abbrev pub status_labels : List String
status_labels = "passed" ∷ "failed" ∷ "skipped" ∷ "unknown" ∷ []

abbrev pub termination_labels : List String
termination_labels =
    "clean-exit" ∷ "exit-code" ∷ "signal" ∷ "timeout" ∷ "spawn-error" ∷ "not-started" ∷ "unknown"
    ∷ []

abbrev pub signal_labels : List String
signal_labels = "SIGABRT" ∷ "SIGBUS" ∷ "SIGILL" ∷ "SIGKILL" ∷ "SIGSEGV" ∷ "SIGTERM" ∷ "UNKNOWN" ∷ []

abbrev pub failure_category_labels : List String
failure_category_labels =
    "none" ∷ "missing-qvac" ∷ "native-runtime" ∷ "worker-crash" ∷ "timeout" ∷ "backend-unobserved"
    ∷ "workload-failed" ∷ "spawn-error" ∷ "unknown" ∷ []

abbrev pub failure_phase_labels : List String
failure_phase_labels =
    "discover-qvac" ∷ "run-doctor" ∷ "run-verification" ∷ "qvac-import" ∷ "worker-start"
    ∷ "model-load" ∷ "inference" ∷ "clean-shutdown" ∷ []

-- `SET.has(value)`.
abbrev pub listed : List String → Value → Bool
listed ls (str s) = one_of ls s
listed ls _ = false

-- `SET.has(String(value))`, `throws` where the coercion raises.
pub data Test : Type 0 where
  holds fails raises : Test

abbrev pub coerced_in : List String → Coerced → Test
coerced_in ls (text s) = if one_of ls s then holds else fails
coerced_in ls unlisted = fails
coerced_in ls Coerced.throws = raises

unfoldable pub listed_text : List String → Value → Test
unfolding to_string
listed_text ls v = coerced_in ls (to_string v)

-- `value === null || SET.has(String(value))`.
unfoldable pub null_or_listed : List String → Value → Test
unfolding listed_text
null_or_listed ls null = holds
null_or_listed ls v = listed_text ls v

-- A test, then the rest; `false` is `return null`.
abbrev pub also : Test → Parsed → Parsed
also holds p = p
also fails p = rejected
also raises p = throws

abbrev pub given : Bool → Parsed → Parsed
given b p = if b then p else rejected

-- An integer from 0 to `most`.
abbrev pub in_range : ℕ → Value → Bool
in_range most (num n) = leb n most
in_range most _ = false

unfoldable pub duration : Value → String → Bool
duration v status =
    if status =ₜ "passed" || status =ₜ "failed" then in_range 3600000 v else is_null v

abbrev upper : ℕ → Bool
upper c = leb b'A' c && leb c b'Z'

abbrev code_char : ℕ → Bool
code_char c = upper c || leb b'0' c && leb c b'9' || c == b'_'

abbrev code_tail : ℕ → String → Bool
code_tail n String.[] = leb 1 n && leb n 63
code_tail n (String.◌∷◌ c s) = code_char (code c) && code_tail (ℕ.suc n) s

-- `/^[A-Z][A-Z0-9_]{1,63}$/`.
unfoldable pub is_code : String → Bool
is_code String.[] = false
is_code (String.◌∷◌ c s) = upper (code c) && code_tail 0 s

unfoldable pub null_or_code : Value → Bool
unfolding is_code
null_or_code null = true
null_or_code (str s) = is_code s
null_or_code _ = false

abbrev pub failure_of : Fields → Failure
failure_of fs = record {
  category = get fs "category";
  phase = get fs "phase";
  code = get fs "code";
  sanitized_excerpt = get fs "sanitized_excerpt";
}

-- The checks of `parseFailure` on a record, and then the event.
unfoldable pub parse_failure : Option Fields → (Failure → RunnerEvent) → Parsed
unfolding exact_joined_keys listed_text null_or_listed null_or_code
parse_failure none k = rejected
parse_failure (some fs) k =
    given (exact_joined_keys fs ("category" ∷ "phase" ∷ "code" ∷ "sanitized_excerpt" ∷ [])) (
      also (listed_text failure_category_labels (get fs "category")) (
        also (null_or_listed failure_phase_labels (get fs "phase")) (
          given (null_or_code (get fs "code"))
            (given (is_null (get fs "sanitized_excerpt")) (event (k (failure_of fs)))))))

abbrev pub text_of : Value → String
text_of (str s) = s
text_of _ = ""

unfoldable pub parse_phase : Fields → Parsed
unfolding exact_joined_keys duration
parse_phase fs = given (exact_joined_keys fs ("type" ∷ "name" ∷ "status" ∷ "duration_ms" ∷ [])) (
    given (listed phase_labels (get fs "name") && listed status_labels (get fs "status")) (
      given (duration (get fs "duration_ms") (text_of (get fs "status"))) (
        event
          (phase (text_of (get fs "name")) (text_of (get fs "status")) (get fs "duration_ms")))))

unfoldable pub parse_backend : Fields → Parsed
unfolding exact_joined_keys listed_text
parse_backend fs = given (exact_joined_keys fs ("type" ∷ "backend" ∷ [])) (
    also (listed_text ("cpu" ∷ "gpu" ∷ []) (get fs "backend")) (event (backend (get fs "backend"))))

unfoldable pub parse_termination : Fields → Parsed
unfolding exact_joined_keys listed_text null_or_listed
parse_termination fs =
    given
      (exact_joined_keys fs
        ("type" ∷ "kind" ∷ "exit_code" ∷ "signal" ∷ "last_completed_phase" ∷ []))
      (also (listed_text termination_labels (get fs "kind")) (
        given (is_null (get fs "exit_code") || in_range 4294967295 (get fs "exit_code")) (
          also (null_or_listed signal_labels (get fs "signal")) (
            given
              (is_null (get fs "last_completed_phase")
                || listed phase_labels (get fs "last_completed_phase"))
              (event (
                termination (get fs "kind") (get fs "exit_code") (get fs "signal")
                  (get fs "last_completed_phase")))))))

abbrev pub is_bool : Value → Bool
is_bool (bool b) = true
is_bool _ = false

abbrev pub bool_of : Value → Bool
bool_of (bool b) = b
bool_of _ = false

unfoldable pub parse_result : Fields → Parsed
unfolding exact_joined_keys parse_failure record_of
parse_result fs =
    given
      (exact_joined_keys fs ("type" ∷ "workload_status" ∷ "completion_observed" ∷ "failure" ∷ []))
      (given
        (listed status_labels (get fs "workload_status") && is_bool (get fs "completion_observed"))
        (parse_failure (record_of (get fs "failure"))
          (result (text_of (get fs "workload_status")) (bool_of (get fs "completion_observed")))))

unfoldable pub parse_typed : Value → Fields → Parsed
unfolding parse_phase parse_backend parse_termination parse_result
parse_typed (str t) fs =
    if t =ₜ "phase"
    then parse_phase fs
    else if t =ₜ "backend"
    then parse_backend fs
    else if t =ₜ "termination"
    then parse_termination fs
    else if t =ₜ "result"
    then parse_result fs
    else rejected
parse_typed _ fs = rejected

unfoldable pub parse_event : Value → Parsed
unfolding parse_typed record_of
parse_event v = elim (record_of v) [ none ↦ rejected | some fs ↦ parse_typed (get fs "type") fs ]
