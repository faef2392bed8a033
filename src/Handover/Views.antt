-- ===== src/Handover/Views.antt =====
-- The last two events of a report, and that the adapter accepts them.
use mathlib.Core.Path.{subst}
use qvac_atlas.Base.{
  ℕ, ◌≤◌, ◌≡◌, refl, String, Bool, true, false, Option, none, some, arith, one_of, ◌==◌, max,
  Bool-cases, inl, inr, not, ◌&&◌,
}
use qvac_atlas.Executor.Phase.{LifecyclePhase, qvac_import, is_phase}
use qvac_atlas.Executor.Lifecycle.{Lifecycle, PhaseStatus, passed, is_none, or_else, or_default}
use qvac_atlas.Executor.Events.{ProbeEvent, termination, result, TerminationKind, Category, Failure}
use qvac_atlas.Executor.Report.{
  Override, Interruption, Exit, timeout, protocol, termination_event, result_event,
  normalized_signal, timeout_code, failure_code, last_completed_phase, known_signals,
  exit_termination, termination_by, outcome, timeout_result, signal_result, uninterrupted_result,
  exit_result, result_by, all_passed, is_zero,
}
use qvac_atlas.Probe.Runner.Events.{signal_labels, is_code}
use qvac_atlas.Handover.Parsing.{IsReportable}

abbrev pub IsExitCode : Option ℕ → Type 0
IsExitCode none = Unit {0}
IsExitCode (some n) = n ≤ 4294967295

-- A termination event that the adapter accepts.
pub record TerminationView (e : ProbeEvent) : Type 0 where
  pub kind : TerminationKind
  pub code : Option ℕ
  pub signal : Option String
  pub phase : Option LifecyclePhase
  pub same : e ≡ termination kind code signal phase
  pub fine : IsReportable (termination kind code signal phase)

pub record ResultView (e : ProbeEvent) : Type 0 where
  pub status : PhaseStatus
  pub observed : Bool
  pub failure : Failure
  pub same : e ≡ result status observed failure
  pub fine : IsReportable (result status observed failure)

some_is :
    (P : String → Bool) (s : String) → P s ≡ true → (t : String) → some s ≡ some t → P t ≡ true
some_is P s h t e = let same : s ≡ t = cc in subst (λ u. P u ≡ true) same h

label_listed : (s : String) → one_of known_signals s ≡ true → one_of signal_labels s ≡ true
label_listed s h = ground arith

normalized_listed :
    (s t : String) → normalized_signal (some s) ≡ some t → one_of signal_labels t ≡ true
unfolding normalized_signal
normalized_listed s t e = elim (Bool-cases (one_of known_signals s)) [
  | inl k ↦ some_is (one_of signal_labels) s (label_listed s k) t (rw k at e)
  | inr k ↦ some_is (one_of signal_labels) "UNKNOWN" refl t (rw k at e)
]

plain :
    (k : TerminationKind) (p : Option LifecyclePhase) → TerminationView (termination k none none p)
plain k p = record {
  kind = k;
  code = none;
  signal = none;
  phase = p;
  same = refl;
  fine = (λ n e. cc, λ t e. cc);
}

coded :
    (k : TerminationKind) (n : ℕ) (p : Option LifecyclePhase)
    → n ≤ 4294967295
    → TerminationView (termination k (some n) none p)
coded k n p h = record {
  kind = k;
  code = some n;
  signal = none;
  phase = p;
  same = refl;
  fine = (λ m e. ground arith, λ t e. cc);
}

exit_view :
    (c : Option ℕ) (s : Option String) (l : Lifecycle)
    → IsExitCode c
    → TerminationView (exit_termination c s l)
exit_view c (some s) l h = record {
  kind = TerminationKind.signal;
  code = none;
  signal = normalized_signal (some s);
  phase = last_completed_phase l.phases;
  same = refl;
  fine = (λ n e. cc, normalized_listed s);
}
exit_view (some c) none l h = elim (Bool-cases (c == 0)) [
  | inl e ↦ rw e (coded TerminationKind.clean_exit 0 (last_completed_phase l.phases) (omega arith))
  | inr e ↦
      rw e (coded TerminationKind.exit_code (max 0 c) (last_completed_phase l.phases) (omega arith))
]
exit_view none none l h = plain TerminationKind.unknown (last_completed_phase l.phases)

override_view :
    (o : Option Override) (i : Interruption) (x : Exit) (l : Lifecycle)
    → IsExitCode x.code
    → TerminationView (termination_by o x l)
override_view (some timeout) i x l h = plain TerminationKind.timeout (last_completed_phase l.phases)
override_view (some protocol) i x l h =
    plain TerminationKind.unknown (last_completed_phase l.phases)
override_view none i x l h = exit_view x.code x.signal l h

pub termination_view :
    (i : Interruption) (x : Exit) (l : Lifecycle)
    → IsExitCode x.code
    → TerminationView (termination_event i x l)
unfolding termination_event
termination_view i x l h = override_view i.override i x l h

coded_outcome :
    (w : PhaseStatus) (k : Category) (p : Option LifecyclePhase) (c : String)
    → is_code c ≡ true
    → ResultView (outcome w k p c)
coded_outcome w k p c h = record {
  status = w;
  observed = false;
  failure = record { category = k; phase = p; code = some c };
  same = refl;
  fine = some_is is_code c h;
}

timeout_coded : (p : LifecyclePhase) → is_code (timeout_code p) ≡ true
unfolding is_code timeout_code
timeout_coded qvac_import = refl
timeout_coded _ = refl

failure_coded : (p : LifecyclePhase) → is_code (failure_code p) ≡ true
unfolding is_code failure_code
failure_coded qvac_import = refl
failure_coded _ = refl

fixed_codes :
    (is_code "CLEANUP_TIMEOUT_AFTER_FAILURE" ≡ true)
    × (is_code "TIMEOUT_AFTER_LIFECYCLE" ≡ true)
    × (is_code "RUNNER_PROTOCOL_INVALID" ≡ true)
    × (is_code "SIGNAL_AFTER_LIFECYCLE" ≡ true)
    × (is_code "WORKER_SIGNAL" ≡ true)
    × (is_code "RUNNER_EXIT_UNEXPECTED" ≡ true)
unfolding is_code
fixed_codes = (refl, refl, refl, refl, refl, refl)

timeout_view : (i : Interruption) (l : Lifecycle) → ResultView (timeout_result i l)
timeout_view i l = elim (Bool-cases i.timeout_after_failure) [
  | inl e ↦ rw e (coded_outcome _ _ _ _ (fixed_codes.0))
  | inr e ↦ rw e (elim (Bool-cases (all_passed l)) [
    | inl a ↦ rw a (coded_outcome _ _ _ _ (fixed_codes.1))
    | inr a ↦ rw a (coded_outcome _ _ _ _ (timeout_coded (or_default i.timeout_phase qvac_import)))
  ])
]

signal_view : (p : Option LifecyclePhase) → ResultView (signal_result p)
signal_view none = coded_outcome _ _ _ _ (fixed_codes.3)
signal_view (some p) = coded_outcome _ _ _ _ (fixed_codes.4)

uninterrupted_view :
    (p : Option LifecyclePhase) (l : Lifecycle) → ResultView (uninterrupted_result p l)
uninterrupted_view none l = coded_outcome _ _ _ _ (fixed_codes.5)
uninterrupted_view (some p) l = coded_outcome _ _ _ _ (failure_coded p)

exit_result_view : (x : Exit) (l : Lifecycle) → ResultView (exit_result x l)
exit_result_view x l = elim (Bool-cases (not (is_none x.signal))) [
  | inl e ↦ rw e (signal_view (or_else l.first_failure l.open_phase))
  | inr e ↦ rw e (elim (Bool-cases (is_zero x.code && is_phase l.first_failure qvac_import)) [
    | inl f ↦ rw f (coded_outcome _ _ _ _ (fixed_codes.5))
    | inr f ↦ rw f (uninterrupted_view l.first_failure l)
  ])
]

result_by_view :
    (o : Option Override) (i : Interruption) (x : Exit) (l : Lifecycle)
    → ResultView (result_by o i x l)
result_by_view (some timeout) i x l = timeout_view i l
result_by_view (some protocol) i x l = coded_outcome _ _ _ _ (fixed_codes.2)
result_by_view none i x l = exit_result_view x l

pub result_view : (i : Interruption) (x : Exit) (l : Lifecycle) → ResultView (result_event i x l)
unfolding result_event
result_view i x l = elim (Bool-cases (all_passed l && is_zero x.code && is_none i.override)) [
  | inl e ↦ rw e (record {
    status = passed;
    observed = true;
    failure = record { category = Category.none; phase = none; code = none };
    same = refl;
    fine = λ t q. cc;
  })
  | inr e ↦ rw e (result_by_view i.override i x l)
]
