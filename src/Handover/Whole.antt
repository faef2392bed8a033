-- ===== src/Handover/Whole.antt =====
-- From the first input of a supervision to the probe's evidence.
use qvac_atlas.Base.{ℕ, ◌≡◌, sym, ◌∙◌, String, Bool, Option, List, [], ◌∷◌, ◌++◌, arith, map, All}
use mathlib.Core.Path.{subst}
use qvac_atlas.Json.{Value, arr, of_items}
use qvac_atlas.Executor.Phase.{LifecyclePhase}
use qvac_atlas.Executor.Protocol.{Backend}
use qvac_atlas.Executor.Lifecycle.{PhaseEvent, PhaseStatus}
use qvac_atlas.Executor.Events.{ProbeEvent, termination, result, TerminationKind, Failure}
use qvac_atlas.Executor.Report.{
  build_events, reported_phases, phase_events, backend_events, inference_attempted,
  termination_event, result_event,
}
use qvac_atlas.Executor.Report.Shape.{IsPresentable}
use qvac_atlas.Executor.Report.Encode.{encode}
use qvac_atlas.Executor.Supervisor.{Limits, Input, new, steps, resolved}
use qvac_atlas.Executor.Supervisor.Runs.{IsPlausible, IsReport}
use qvac_atlas.Executor.Supervisor.Settled.{steps-IsReport}
use qvac_atlas.Probe.Runner.{RunnerEvidence, run, returned, evidence}
use qvac_atlas.Handover.Parsing.{IsReportable}
use qvac_atlas.Handover.Accepted.{evidence_of, run-report}
use qvac_atlas.Handover.Views.{TerminationView, ResultView, termination_view, result_view}

-- What a report says.
pub record Reported : Type 0 where
  pub phases : List PhaseEvent
  pub backend : Option Backend
  pub kind : TerminationKind
  pub code : Option ℕ
  pub signal : Option String
  pub last_completed_phase : Option LifecyclePhase
  pub status : PhaseStatus
  pub observed : Bool
  pub failure : Failure

-- The events of the report, in their order.
abbrev pub events_of : Reported → List ProbeEvent
events_of r =
    phase_events r.phases
    ++ (backend_events r.backend (inference_attempted r.phases)
        ++ termination r.kind r.code r.signal r.last_completed_phase
          ∷ result r.status r.observed r.failure
          ∷ [])

-- The evidence with the same content.
abbrev pub same_evidence : Reported → RunnerEvidence
same_evidence r =
    evidence_of r.phases r.backend r.kind r.code r.signal r.last_completed_phase r.status r.observed
      r.failure

-- The adapter turns the events into the evidence with the same content.
pub record IsAccepted (scan : Value → ℕ) (es : List ProbeEvent) : Type 0 where
  pub content : Reported
  pub events : es ≡ events_of content
  pub accepted :
      run scan (returned (arr (of_items (map encode es)))) ≡ evidence (same_evidence content)

abbrev Accepts : (Value → ℕ) → Reported → List ProbeEvent → Type 0
Accepts scan r es =
    scan (arr (of_items (map encode es))) ≡ 0
    → run scan (returned (arr (of_items (map encode es)))) ≡ evidence (same_evidence r)

module _ (scan : Value → ℕ) (r : Reported)
    (ht : IsReportable (termination r.kind r.code r.signal r.last_completed_phase))
    (hr : IsReportable (result r.status r.observed r.failure)) where
  phases-Accepts :
      (ps : List PhaseEvent)
      → IsPresentable ps
      → Accepts scan (record r { phases = ps }) (events_of (record r { phases = ps }))
  phases-Accepts [] p clean = absurd (omega (arith, p.some_phase))
  phases-Accepts (q ∷ ps) p clean =
      run-report r.kind r.code r.signal r.last_completed_phase r.status r.observed r.failure q ps
        r.backend scan (omega (arith, p.short)) p.timed ht hr clean

  events-Accepts : IsPresentable r.phases → Accepts scan r (events_of r)
  events-Accepts p = phases-Accepts r.phases p

module _ (scan : Value → ℕ) (es : List ProbeEvent) (h : IsReport es)
    (clean : scan (arr (of_items (map encode es))) ≡ 0) where
  ends : TerminationView (termination_event h.interruption h.exit h.lifecycle)
  ends = termination_view h.interruption h.exit h.lifecycle h.code

  results : ResultView (result_event h.interruption h.exit h.lifecycle)
  results = result_view h.interruption h.exit h.lifecycle

  abbrev content : Reported
  content = record {
    phases = reported_phases h.lifecycle;
    backend = h.lifecycle.backend;
    kind = ends.kind;
    code = ends.code;
    signal = ends.signal;
    last_completed_phase = ends.phase;
    status = results.status;
    observed = results.observed;
    failure = results.failure;
  }

  events_same : es ≡ events_of content
  unfolding build_events
  events_same = h.built ∙ rw (ends.same, results.same)

  report-IsAccepted : IsAccepted scan es
  report-IsAccepted = record {
    content = content;
    events = events_same;
    accepted =
        subst (Accepts scan content) (sym events_same)
          (events-Accepts scan content ends.fine results.fine h.presentable) clean;
  }

-- Whatever inputs reach a supervisor, with exit codes of at most 32 bits, if its promise resolves to
-- events in which the privacy scan finds nothing, the probe's adapter does not reject them: it gives
-- the evidence with the same phases, backend, termination and result.
pub supervised_run-IsAccepted :
    (limits : Limits) (is : List Input) (es : List ProbeEvent) (scan : Value → ℕ)
    → All IsPlausible is
    → (steps limits new is).completion ≡ resolved es
    → scan (arr (of_items (map encode es))) ≡ 0
    → IsAccepted scan es
supervised_run-IsAccepted limits is es scan p e clean =
    report-IsAccepted scan es (steps-IsReport limits is es p e) clean
