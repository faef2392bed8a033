-- ===== src/Handover/Parsing.antt =====
-- `parseEvent` accepts each object that the supervisor builds, and gives back its fields.
use qvac_atlas.Base.{ℕ, ◌≤◌, String, ◌≡◌, refl, Bool, true, Option, none, some, arith, one_of, ◌||◌}
use qvac_atlas.Json.{str, null, is_null}
use qvac_atlas.Executor.Phase.{
  LifecyclePhase, qvac_import, worker_start, model_load, inference, clean_shutdown, label,
}
use qvac_atlas.Executor.Protocol.{Backend, cpu, gpu}
use qvac_atlas.Executor.Lifecycle.{PhaseStatus, passed, failed, unknown, skipped}
use qvac_atlas.Executor.Events.{
  ProbeEvent, phase, backend, termination, result, TerminationKind, Category, Failure,
}
use qvac_atlas.Executor.Report.Shape.{Timed}
use qvac_atlas.Executor.Report.Encode.{
  encode, number_or_null, text_or_null, phase_or_null, status_label, backend_label, kind_label,
  category_label, phase_fields, backend_fields, termination_fields, result_fields, failure_fields,
}
use qvac_atlas.Probe.Runner.Events.{
  RunnerEvent, event, parse_event, phase_labels, status_labels, signal_labels, is_code, duration,
  parse_phase, parse_backend, parse_termination, parse_result, parse_failure, listed_text,
  null_or_listed, null_or_code, holds, in_range, listed, termination_labels,
  failure_category_labels, failure_phase_labels,
}
use qvac_atlas.Probe.Runner.Events

-- What the adapter asks of an event beyond its labels.
abbrev pub IsReportable : ProbeEvent → Type 0
IsReportable (phase e) = Timed e.status e.duration_ms
IsReportable (backend b) = Unit {0}
IsReportable (termination k c s p) =
    ((n : ℕ) → c ≡ some n → n ≤ 4294967295)
    × ((t : String) → s ≡ some t → one_of signal_labels t ≡ true)
IsReportable (result w c f) = (t : String) → f.code ≡ some t → is_code t ≡ true

abbrev pub failure_values : Failure → Events.Failure
failure_values f = record {
  category = str (category_label f.category);
  phase = phase_or_null f.phase;
  code = text_or_null f.code;
  sanitized_excerpt = null;
}

-- The adapter's view of an event.
abbrev pub read_back : ProbeEvent → RunnerEvent
read_back (phase e) =
    Events.phase (label e.name) (status_label e.status) (number_or_null e.duration_ms)
read_back (backend b) = Events.backend (str (backend_label b))
read_back (termination k c s p) =
    Events.termination (str (kind_label k)) (number_or_null c) (text_or_null s) (phase_or_null p)
read_back (result w c f) = Events.result (status_label w) c (failure_values f)

phase_listed : (p : LifecyclePhase) → one_of phase_labels (label p) ≡ true
phase_listed qvac_import = refl
phase_listed worker_start = refl
phase_listed model_load = refl
phase_listed inference = refl
phase_listed clean_shutdown = refl

status_listed : (w : PhaseStatus) → one_of status_labels (status_label w) ≡ true
status_listed passed = refl
status_listed failed = refl
status_listed unknown = refl
status_listed skipped = refl

duration-Timed :
    (w : PhaseStatus) (d : Option ℕ)
    → Timed w d
    → duration (number_or_null d) (status_label w) ≡ true
unfolding duration
duration-Timed passed (some d) h = ground arith
duration-Timed failed (some d) h = ground arith
duration-Timed unknown none h = refl
duration-Timed skipped none h = refl
duration-Timed passed none h = absurd h
duration-Timed failed none h = absurd h
duration-Timed unknown (some d) h = absurd h
duration-Timed skipped (some d) h = absurd h

-- One lemma for each kind of event.
read_phase :
    (p : LifecyclePhase) (w : PhaseStatus) (d : Option ℕ)
    → Timed w d
    → parse_phase (phase_fields p w d)
      ≡ event (Events.phase (label p) (status_label w) (number_or_null d))
unfolding parse_phase
read_phase p w d h = rw (phase_listed, status_listed, duration-Timed w d h)

read_backend :
    (b : Backend)
    → parse_backend (backend_fields b) ≡ event (Events.backend (str (backend_label b)))
unfolding parse_backend
read_backend cpu = refl
read_backend gpu = refl

kind_listed : (k : TerminationKind) → listed_text termination_labels (str (kind_label k)) ≡ holds
unfolding listed_text
kind_listed TerminationKind.clean_exit = refl
kind_listed _ = refl

category_listed :
    (k : Category) → listed_text failure_category_labels (str (category_label k)) ≡ holds
unfolding listed_text
category_listed Category.none = refl
category_listed _ = refl

phase_null_or_listed :
    (p : Option LifecyclePhase) → null_or_listed failure_phase_labels (phase_or_null p) ≡ holds
unfolding null_or_listed
phase_null_or_listed none = refl
phase_null_or_listed (some qvac_import) = refl
phase_null_or_listed (some _) = refl

signal_null_or_listed :
    (s : Option String)
    → ((t : String) → s ≡ some t → one_of signal_labels t ≡ true)
    → null_or_listed signal_labels (text_or_null s) ≡ holds
unfolding null_or_listed
signal_null_or_listed none h = refl
signal_null_or_listed (some t) h = rw (h t refl)

code_null_or_code :
    (c : Option String)
    → ((t : String) → c ≡ some t → is_code t ≡ true)
    → null_or_code (text_or_null c) ≡ true
unfolding null_or_code
code_null_or_code none h = refl
code_null_or_code (some t) h = h t refl

exit_code_in_range :
    (c : Option ℕ)
    → ((n : ℕ) → c ≡ some n → n ≤ 4294967295)
    → (is_null (number_or_null c) || in_range 4294967295 (number_or_null c)) ≡ true
exit_code_in_range none h = refl
exit_code_in_range (some n) h = ground (arith, h n refl)

phase_null_or_phase :
    (p : Option LifecyclePhase)
    → (is_null (phase_or_null p) || listed phase_labels (phase_or_null p)) ≡ true
phase_null_or_phase none = refl
phase_null_or_phase (some p) = phase_listed p

read_termination :
    (k : TerminationKind) (c : Option ℕ) (s : Option String) (p : Option LifecyclePhase)
    → IsReportable (termination k c s p)
    → parse_termination (termination_fields k c s p) ≡ event (read_back (termination k c s p))
unfolding parse_termination
read_termination k c s p (hc, hs) =
    rw (kind_listed, exit_code_in_range c hc, signal_null_or_listed s hs, phase_null_or_phase)

read_failure :
    (f : Failure) (r : Events.Failure → RunnerEvent)
    → ((t : String) → f.code ≡ some t → is_code t ≡ true)
    → parse_failure (some (failure_fields f)) r ≡ event (r (failure_values f))
unfolding parse_failure
read_failure f r h = rw (category_listed, phase_null_or_listed, code_null_or_code f.code h)

read_result :
    (w : PhaseStatus) (c : Bool) (f : Failure)
    → IsReportable (result w c f)
    → parse_result (result_fields w c f) ≡ event (read_back (result w c f))
unfolding parse_result
read_result w c f h = rw (status_listed, read_failure f (Events.result (status_label w) c) h)

-- `parseEvent` accepts every event of the supervisor whose duration, exit code, signal and failure
-- code are in range, and changes none of its fields.
pub parse_event-encode :
    (e : ProbeEvent) → IsReportable e → parse_event (encode e) ≡ event (read_back e)
unfolding parse_event encode
parse_event-encode (phase e) h = read_phase e.name e.status e.duration_ms h
parse_event-encode (backend b) h = read_backend b
parse_event-encode (termination k c s p) h = read_termination k c s p h
parse_event-encode (result w c f) h = read_result w c f h
