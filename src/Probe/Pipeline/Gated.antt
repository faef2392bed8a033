-- ===== src/Probe/Pipeline/Gated.antt =====
-- Every call of a run of the pipeline waits for its gate.
use qvac_atlas.Base.{
  String, ◌≡◌, refl, ◌∙◌, Bool, true, Option, none, some, ◌∷◌, Bool-cases, inl, inr,
}
use qvac_atlas.Json.{Value, bool}
use qvac_atlas.Probe.Stages.{Machine, advance}
use qvac_atlas.Probe.Report.{with_probe_publication, Input, is_publishable}
use qvac_atlas.Probe.Pipeline.Snapshots.{
  Answer, good, parse_resolved, parse_doctor_outcome, parse_workload,
}
use qvac_atlas.Probe.Pipeline.Session.{
  Call, resolve, disclose_project_code, decide_project_code, run_doctor, disclose_workload,
  decide_workload, run_workload, preview_draft, value, Log, Outside, Run, Step, Part, ◌>>=◌,
  bind_step, succeed, reach, coordinator_boundary, check_signal,
}
use qvac_atlas.Probe.Pipeline.Steps.{
  assembled_at, try_moved, answered, resolve_project, check_doctor, work, try_reach, or_stop,
  publishable, assemble_report, chosen, publish,
}
use qvac_atlas.Probe.Pipeline.Gates.{
  IsGated, Holds, bind_step-Holds, check_signal-Holds, coordinator_boundary-Holds, is_good,
}
use qvac_atlas.Probe.Pipeline.Consent.{Next, after, kept, reach_then, guarded_reach, decision}

module _ (w : Outside) where
  answered-Holds :
      (a : Answer) (r : Run)
      → IsGated w r.log
      → Holds w (λ _ l. (l ≡ r.log) × (is_good a ≡ true)) (answered a r)
  answered-Holds (good v) r g = (g, (refl, refl))
  answered-Holds Answer.refused r g = (g, tt)
  answered-Holds Answer.aborted r g = (g, tt)
  answered-Holds Answer.invalid r g = (g, tt)

  -- A call of the coordinator with its answer, the signal, a stage, and the rest.
  coordinated :
      {B : Type 0} (c : Call) (parse : Value → Answer) (next : String) (Q : B → Log → Type 0)
      (r : Run) (f : Value → Part B)
      → IsGated w r.log
      → Next w c r.log
      → ((a v : Value) (s : Run)
          → IsGated w s.log
          → s.log ≡ (c, value v) ∷ r.log
          → is_good (parse v) ≡ true
          → Holds w Q (f a s))
      → Holds w Q (
          bind_step
            (coordinator_boundary w c r)
            (λ v. answered (parse v) >>= λ a. check_signal w >>= λ _. reach next >>= λ _. f a))
  coordinated c parse next Q r f g n k =
      bind_step-Holds w (λ v l. l ≡ (c, value v) ∷ r.log) Q _ _
        (coordinator_boundary-Holds w c r g n)
        (λ v s gs es.
          bind_step-Holds w (λ _ l. (l ≡ s.log) × (is_good (parse v) ≡ true)) Q _ _
            (answered-Holds (parse v) s gs)
            (λ a t gt (et, ok).
              after w (λ l. l ≡ (c, value v) ∷ r.log) Q t.log _ _ (check_signal-Holds w t gt)
                (et ∙ es)
                (λ _ u gu eu.
                  reach_then w (λ l. l ≡ (c, value v) ∷ r.log) Q next u _ gu eu
                    (λ _ x gx ex. k a v x gx ex ok))))

  pub resolve_project-Holds :
      (r : Run)
      → IsGated w r.log
      → Next w resolve r.log
      → Holds w (λ _ l. Next w run_doctor l) (resolve_project w r)
  unfolding resolve_project
  resolve_project-Holds r g n =
      coordinated resolve parse_resolved "project-resolved" _ r _ g n (λ a v s gs es ok.
        guarded_reach w disclose_project_code "project-code-disclosed" _ s _ gs (rw (es, ok) refl)
          (λ v2 t gt et.
            decision w decide_project_code "project-code-consented" _ t _ gt (rw et refl)
              (λ u gu eu. (gu, rw eu refl))))

  pub check_doctor-Holds :
      (r : Run)
      → IsGated w r.log
      → Next w run_doctor r.log
      → Holds w (λ _ l. Next w disclose_workload l) (check_doctor w r)
  unfolding check_doctor
  check_doctor-Holds r g n =
      coordinated run_doctor parse_doctor_outcome "doctor-complete" _ r _ g n
        (λ a v s gs es ok. (gs, rw (es, ok) refl))

  pub work-Holds :
      (r : Run)
      → IsGated w r.log
      → Next w disclose_workload r.log
      → Holds w (λ _ l. (json : String) → Next w (preview_draft json) l) (work w r)
  unfolding work
  work-Holds r g n = guarded_reach w disclose_workload "workload-disclosed" _ r _ g n (λ v s gs es.
      decision w decide_workload "workload-consented" _ s _ gs (rw es refl) (λ t gt et.
        coordinated run_workload (parse_workload w.schema.scan_privacy) "runtime-complete" _ t _ gt
          (rw et refl) (λ a v2 u gu eu ok. (gu, λ json. rw (eu, ok) refl))))

  try_moved-Holds :
      (r : Run) (o : Option Machine) → IsGated w r.log → Holds w (λ _ l. l ≡ r.log) (try_moved r o)
  try_moved-Holds r none g = (g, tt)
  try_moved-Holds r (some m) g = (g, refl)

  or_stop-Holds :
      (o : Option Value) (r : Run) → IsGated w r.log → Holds w (λ _ l. l ≡ r.log) (or_stop o r)
  or_stop-Holds none r g = (g, tt)
  or_stop-Holds (some v) r g = (g, refl)

  publishable-Holds :
      (v : Value) (r : Run) → IsGated w r.log → Holds w (λ _ l. l ≡ r.log) (publishable w v r)
  publishable-Holds v r g = elim (Bool-cases (is_publishable w.schema v)) [
    | inl e ↦ rw e (g, refl)
    | inr e ↦ rw e (g, tt)
  ]

  -- A part that keeps the log, before a part that keeps it.
  keeps :
      {A : Type 0} (log : Log) (m : Step A) (f : A → Part Value)
      → Holds w (λ _ l. l ≡ log) m
      → ((a : A) (r : Run) → IsGated w r.log → r.log ≡ log → Holds w (λ _ l. l ≡ log) (f a r))
      → Holds w (λ _ l. l ≡ log) (bind_step m f)
  keeps log m f h k = after w (λ l. l ≡ log) (λ _ l. l ≡ log) log m f h refl k

  kept_again :
      {A : Type 0} (log : Log) (r : Run) (m : Step A)
      → r.log ≡ log
      → Holds w (λ _ l. l ≡ r.log) m
      → Holds w (λ _ l. l ≡ log) m
  kept_again log r m e h = kept w (λ l. l ≡ log) r.log m h e

  staged_value :
      (next : String) (v : Value) (log : Log) (r : Run)
      → IsGated w r.log
      → r.log ≡ log
      → Holds w (λ _ l. l ≡ log) ((try_reach next >>= λ _. succeed v) r)
  staged_value next v log r g e =
      keeps log (try_reach next r) (λ _. succeed v)
        (kept_again log r (try_reach next r) e (try_moved-Holds r (advance next r.machine) g))
        (λ _ s gs es. (gs, es))

  checked_value :
      (next : String) (v : Value) (log : Log) (r : Run)
      → IsGated w r.log
      → r.log ≡ log
      → Holds w (λ _ l. l ≡ log) ((publishable w v >>= λ _. try_reach next >>= λ _. succeed v) r)
  checked_value next v log r g e =
      keeps log (publishable w v r) (λ _. try_reach next >>= λ _. succeed v)
        (kept_again log r (publishable w v r) e (publishable-Holds v r g))
        (λ _ s gs es. staged_value next v log s gs es)

  pub publish-Holds :
      (v : Value) (b : Bool) (r : Run)
      → IsGated w r.log
      → Holds w (λ _ l. l ≡ r.log) (publish w v b r)
  unfolding publish
  publish-Holds v b r g =
      let o = with_probe_publication w.schema v b in
      keeps r.log (or_stop o r)
        (λ x. publishable w x >>= λ _. try_reach "final-validated" >>= λ _. succeed x)
        (or_stop-Holds o r g) (λ x s gs es. checked_value "final-validated" x r.log s gs es)

  pub assemble_report-Holds :
      (i : String → Input) (r : Run)
      → IsGated w r.log
      → Holds w (λ _ l. l ≡ r.log) (assemble_report w i r)
  unfolding assemble_report
  assemble_report-Holds i r g =
      let o = assembled_at w i w.now in
      keeps r.log (or_stop o r)
        (λ x. try_reach "assembled" >>= λ _.
          publishable w x >>= λ _. try_reach "validated" >>= λ _. succeed x)
        (or_stop-Holds o r g)
        (λ x s gs es.
          keeps r.log (try_reach "assembled" s)
            (λ _. publishable w x >>= λ _. try_reach "validated" >>= λ _. succeed x)
            (kept_again r.log s (try_reach "assembled" s) es
              (try_moved-Holds s (advance "assembled" s.machine) gs))
            (λ _ t gt et. checked_value "validated" x r.log t gt et))

  pub chosen-Holds :
      (v : Value) (r : Run)
      → IsGated w r.log
      → Holds w (λ b l. (l ≡ r.log) × (v ≡ bool b)) (chosen v r)
  chosen-Holds (bool b) r g = (g, (refl, refl))
  chosen-Holds Value.null r g = (g, tt)
  chosen-Holds _ r g = (g, tt)
