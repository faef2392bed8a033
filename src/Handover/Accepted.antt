-- ===== src/Handover/Accepted.antt =====
-- The adapter's checks over a whole report of the form that `#buildEvents` gives.
use mathlib.Core.List.{map-append, append-nil}
use qvac_atlas.Base.{
  ℕ, suc, ◌+◌, ◌≤◌, ◌<◌, ◌≡◌, refl, ap, ◌∙◌, Bool, true, false, Option, none, some, List, [], ◌∷◌,
  ◌++◌, map, arith, length, String, leb, Bool-cases, inl, inr, any, All, ◌&&◌, ◌||◌, ◌=ₜ◌,
  if◌then◌else◌,
}
use qvac_atlas.Json.{Value, str, null, arr, of_items}
use qvac_atlas.Executor.Phase.{LifecyclePhase, qvac_import, same_phase, inference, label}
use qvac_atlas.Executor.Protocol.{Backend}
use qvac_atlas.Executor.Lifecycle.{PhaseEvent, PhaseStatus, passed}
use qvac_atlas.Executor.Events.{ProbeEvent, backend, termination, result, TerminationKind, Failure}
use qvac_atlas.Executor.Report.{
  phase_events, backend_events, inference_attempted, is_passed, is_failed,
}
use qvac_atlas.Executor.Report.Shape.{Timed}
use qvac_atlas.Executor.Report.Encode.{
  encode, number_or_null, text_or_null, phase_or_null, status_label, backend_label, kind_label,
}
use qvac_atlas.Probe.Runner.{
  PhaseEvidence, Observation, RunnerEvidence, all_parsed, parse_all, phases_of, backends_of,
  terminations_of, results_of, find_index, is_inference, is_backend, attempted, collect, evidence,
  run, returned,
}
use qvac_atlas.Probe.Runner.Laws.{run_within}
use qvac_atlas.Probe.Runner.Events.{RunnerEvent}
use qvac_atlas.Probe.Runner.Events
use qvac_atlas.Handover.Parsing.{IsReportable, read_back, parse_event-encode, failure_values}

pub parse_all-encode :
    (es : List ProbeEvent)
    → All IsReportable es
    → parse_all (map encode es) ≡ all_parsed (map read_back es)
unfolding parse_all
parse_all-encode [] h = refl
parse_all-encode (e ∷ es) (h, hs) = rw (parse_event-encode e h, parse_all-encode es hs)

abbrev pub phase_evidence : PhaseEvent → PhaseEvidence
phase_evidence e = record {
  name = label e.name;
  status = status_label e.status;
  duration_ms = number_or_null e.duration_ms;
}

label_inference : (p : LifecyclePhase) → (label p =ₜ "inference") ≡ same_phase p inference
label_inference qvac_import = refl
label_inference _ = refl

label_passed : (w : PhaseStatus) → (status_label w =ₜ "passed") ≡ is_passed w
label_passed passed = refl
label_passed _ = refl

label_failed : (w : PhaseStatus) → (status_label w =ₜ "failed") ≡ is_failed w
label_failed passed = refl
label_failed _ = refl

attempted_same :
    (e : PhaseEvent)
    → attempted (phase_evidence e)
      ≡ (same_phase e.name inference && (is_passed e.status || is_failed e.status))
attempted_same e = rw (label_inference e.name, label_passed e.status, label_failed e.status)

any-attempted :
    (ps : List PhaseEvent) → any attempted (map phase_evidence ps) ≡ inference_attempted ps
any-attempted [] = refl
any-attempted (e ∷ ps) = rw (attempted_same e, any-attempted ps)

-- The four filters, over the phases and then the rest.
module _ (rest : List RunnerEvent) where
  abbrev after : List PhaseEvent → List RunnerEvent
  after ps = map read_back (phase_events ps) ++ rest

  phases_of-after :
      (ps : List PhaseEvent) → phases_of (after ps) ≡ map phase_evidence ps ++ phases_of rest
  unfolding phases_of
  phases_of-after [] = refl
  phases_of-after (e ∷ ps) = rw (phases_of-after ps)

  backends_of-after : (ps : List PhaseEvent) → backends_of (after ps) ≡ backends_of rest
  unfolding backends_of
  backends_of-after [] = refl
  backends_of-after (e ∷ ps) = backends_of-after ps

  terminations_of-after : (ps : List PhaseEvent) → terminations_of (after ps) ≡ terminations_of rest
  unfolding terminations_of
  terminations_of-after [] = refl
  terminations_of-after (e ∷ ps) = terminations_of-after ps

  results_of-after : (ps : List PhaseEvent) → results_of (after ps) ≡ results_of rest
  unfolding results_of
  results_of-after [] = refl
  results_of-after (e ∷ ps) = results_of-after ps

  -- The backend event, if it comes first after the phases, comes after every inference phase.
  find_backend :
      (b : Value) (more : List RunnerEvent)
      → rest ≡ Events.backend b ∷ more
      → (ps : List PhaseEvent) → find_index is_backend (after ps) ≡ some (length ps)
  unfolding find_index
  find_backend b more e [] = rw e
  find_backend b more e (p ∷ ps) = rw (find_backend b more e ps)

  find_no_backend :
      find_index is_backend rest ≡ none
      → (ps : List PhaseEvent) → find_index is_backend (after ps) ≡ none
  unfolding find_index
  find_no_backend e [] = e
  find_no_backend e (p ∷ ps) = rw (find_no_backend e ps)

  find_inference :
      (ps : List PhaseEvent)
      → inference_attempted ps ≡ true
      → (i : ℕ) × (find_index is_inference (after ps) ≡ some i) × (i < length ps)
  unfolding find_index
  find_inference [] h = cc
  find_inference (p ∷ ps) h = elim (Bool-cases (same_phase p.name inference)) [
    | inl same ↦ (0, rw (label_inference p.name, same), omega arith)
    | inr other ↦
        let (i, found, below) = find_inference ps (rw other at h) in
        (suc i, rw (label_inference p.name, other, found), omega (arith, below))
  ]

-- The evidence that the adapter makes of a report.
abbrev pub observed : Option Backend → Bool → Observation
observed (some b) true = record {
  status = "observed";
  backend = str (backend_label b);
  method = "runner-event";
}
observed _ a = record {
  status = if a then "unavailable" else "not-reached";
  backend = null;
  method = "unavailable";
}

abbrev pub evidence_of :
    List PhaseEvent
    → Option Backend
    → TerminationKind
    → Option ℕ
    → Option String
    → Option LifecyclePhase
    → PhaseStatus
    → Bool
    → Failure
    → RunnerEvidence
evidence_of ps b k x s p w c f = record {
  phases = map phase_evidence ps;
  backend_observation = observed b (inference_attempted ps);
  termination = record {
    kind = str (kind_label k);
    exit_code = number_or_null x;
    signal = text_or_null s;
    last_completed_phase = phase_or_null p;
  };
  result = record {
    workload_status = status_label w;
    completion_observed = c;
    failure = failure_values f;
  };
}

module _ (k : TerminationKind) (x : Option ℕ) (s : Option String) (p : Option LifecyclePhase)
    (w : PhaseStatus) (c : Bool) (f : Failure) where
  abbrev last_two : List RunnerEvent
  last_two = read_back (termination k x s p) ∷ read_back (result w c f) ∷ []

  abbrev with_backend : Backend → List RunnerEvent
  with_backend b = read_back (backend b) ∷ last_two

  collect_plain :
      (e : PhaseEvent) (ps : List PhaseEvent)
      → collect (all_parsed (map read_back (phase_events (e ∷ ps)) ++ last_two))
        ≡ evidence (evidence_of (e ∷ ps) none k x s p w c f)
  unfolding collect
  collect_plain e ps = rw (
    terminations_of-after last_two ps,
    results_of-after last_two ps,
    backends_of-after last_two ps,
    phases_of-after last_two ps,
    find_no_backend last_two refl ps,
    append-nil,
    any-attempted (e ∷ ps),
  )

  collect_observed :
      (b : Backend) (e : PhaseEvent) (ps : List PhaseEvent)
      → inference_attempted (e ∷ ps) ≡ true
      → collect (all_parsed (map read_back (phase_events (e ∷ ps)) ++ with_backend b))
        ≡ evidence (evidence_of (e ∷ ps) (some b) k x s p w c f)
  unfolding collect
  collect_observed b e ps h =
      let (i, found, below) = find_inference (with_backend b) (e ∷ ps) h in
      let late : leb (suc (length ps)) i ≡ false = ground arith in
      rw
        (
          terminations_of-after (with_backend b) ps,
          results_of-after (with_backend b) ps,
          backends_of-after (with_backend b) ps,
          phases_of-after (with_backend b) ps,
          find_backend (with_backend b) (str (backend_label b)) last_two refl ps,
          found,
          append-nil,
          any-attempted (e ∷ ps),
          h,
        )
        (rw late)

  -- The report that `#buildEvents` gives, and the adapter's view of it.
  abbrev report : List PhaseEvent → Option Backend → List ProbeEvent
  report ps b =
      phase_events ps
      ++ (backend_events b (inference_attempted ps) ++ termination k x s p ∷ result w c f ∷ [])

  collect_attempt :
      (e : PhaseEvent) (ps : List PhaseEvent) (b : Option Backend) (attempt : Bool)
      → inference_attempted (e ∷ ps) ≡ attempt
      → collect (
          all_parsed (
            map read_back (phase_events (e ∷ ps))
            ++ map read_back (backend_events b attempt ++ termination k x s p ∷ result w c f ∷ [])))
        ≡ evidence (evidence_of (e ∷ ps) b k x s p w c f)
  collect_attempt e ps none a h = collect_plain e ps
  collect_attempt e ps (some b) true h = collect_observed b e ps h
  collect_attempt e ps (some b) false h =
      collect_plain e ps
      ∙ ap
          (λ o.
            evidence (record (evidence_of (e ∷ ps) none k x s p w c f) { backend_observation = o }))
          (rw h)

  report-IsReportable :
      (ps : List PhaseEvent) (b : Option Backend) (attempt : Bool)
      → All (λ q. Timed q.status q.duration_ms) ps
      → IsReportable (termination k x s p)
      → IsReportable (result w c f)
      → All IsReportable
          (phase_events ps ++ (backend_events b attempt ++ termination k x s p ∷ result w c f ∷ []))
  report-IsReportable [] none a h ht hr = (ht, (hr, tt))
  report-IsReportable [] (some b) true h ht hr = (tt, (ht, (hr, tt)))
  report-IsReportable [] (some b) false h ht hr = (ht, (hr, tt))
  report-IsReportable (e ∷ ps) b a (q, h) ht hr = (q, report-IsReportable ps b a h ht hr)

  length-report :
      (ps : List PhaseEvent) (b : Option Backend) (attempt : Bool)
      → length (
          map encode (
            phase_events ps
            ++ (backend_events b attempt ++ termination k x s p ∷ result w c f ∷ [])))
        ≤ length ps + 3
  length-report [] none a = omega arith
  length-report [] (some b) true = omega arith
  length-report [] (some b) false = omega arith
  length-report (e ∷ ps) b a = omega (arith, length-report ps b a)

  -- The adapter accepts the report and keeps all that is in it.
  pub run-report :
      (e : PhaseEvent) (ps : List PhaseEvent) (b : Option Backend) (scan : Value → ℕ)
      → length ps ≤ 27
      → All (λ q. Timed q.status q.duration_ms) (e ∷ ps)
      → IsReportable (termination k x s p)
      → IsReportable (result w c f)
      → scan (arr (of_items (map encode (report (e ∷ ps) b)))) ≡ 0
      → run scan (returned (arr (of_items (map encode (report (e ∷ ps) b)))))
        ≡ evidence (evidence_of (e ∷ ps) b k x s p w c f)
  run-report e ps b scan few timed ht hr clean =
      let a = inference_attempted (e ∷ ps) in
      run_within scan (map encode (report (e ∷ ps) b)) (omega (arith, length-report (e ∷ ps) b a))
        clean
      ∙ ap collect
          (parse_all-encode (report (e ∷ ps) b) (report-IsReportable (e ∷ ps) b a timed ht hr))
      ∙ ap (λ es. collect (all_parsed es))
          (map-append read_back (phase_events (e ∷ ps))
            (backend_events b a ++ termination k x s p ∷ result w c f ∷ []))
      ∙ collect_attempt e ps b a refl
