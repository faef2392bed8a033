-- ===== src/Executor/Child/Work.antt =====
-- packages/qvac-executor/src/child-runner.ts: the `try` block over a connected channel: what it sends,
-- where it ends, and what it leaves for the cleanup.
use qvac_atlas.Base.{
  ℕ, ◌+◌, ap, ◌∙◌, sym, ◌≡◌, refl, Bool, true, false, Option, none, some, [], ◌∷◌, ◌++◌, ◌&&◌,
  if◌then◌else◌, Bool-cases, inl, inr, String, and_true,
}
use qvac_atlas.Executor.Phase.{LifecyclePhase, qvac_import, worker_start, model_load, inference}
use qvac_atlas.Executor.Protocol.{
  ChildEvent, phase, backend, ChildPhaseState, started, succeeded, Backend,
}
use qvac_atlas.Executor.Child.{
  completion, Surroundings, Child, start, emit, report, Tried, Artifact, infer, check_loaded, load,
  start_worker, import_sdk, has_functions, activate, emit_backend, has_content, final_content,
  final_device, matches, describe, loaded_text,
}
use qvac_atlas.Executor.Child.Fate.{
  Fate, import_raises, worker_raises, load_raises, inference_raises, finishes, IsFate, Imports,
  Reaches, Loads,
}
use qvac_atlas.Executor.Child.Cleanup.{Stage, early, unnamed, named, both}
use qvac_atlas.Executor.Child.Answers.{
  fails_test, none_some, has_functions-all, all-has_functions, loaded_text-none, loaded_text-some,
  matches-Loads, blank_fails, unmatched_fails, has_content-Completes, Completes-has_content,
}

abbrev pub fails : Fate → Bool
fails (finishes b) = false
fails _ = true

-- `emit` over a connected channel.
abbrev tell : (ℕ → ChildEvent) → Child → Child
tell e c = record c {
  attempts = c.attempts + 1;
  sequence = c.sequence + 1;
  sent = c.sent ++ e c.sequence ∷ [];
}

abbrev pub tell_phase : LifecyclePhase → ChildPhaseState → Child → Child
tell_phase p s c = tell (λ n. phase n p s) (activate p s c)

abbrev passes : LifecyclePhase → Child → Child
passes p c = tell_phase p succeeded (tell_phase p started c)

abbrev tell_backend : Option Backend → Child → Child
tell_backend none c = c
tell_backend (some b) c = tell (λ n. backend n b) c

abbrev at_worker : Child
at_worker = passes qvac_import start

abbrev at_load : Child
at_load = passes worker_start at_worker

abbrev at_inference : Child
at_inference = passes model_load at_load

abbrev pub child_at : Fate → Child
child_at import_raises = tell_phase qvac_import started start
child_at worker_raises = tell_phase worker_start started at_worker
child_at load_raises = tell_phase model_load started at_load
child_at inference_raises = tell_phase inference started at_inference
child_at (finishes b) =
    tell_phase inference succeeded (tell_backend b (tell_phase inference started at_inference))

pub record Fated (w : Surroundings) (t : Tried) : Type 0 where
  pub fate : Fate
  pub meant : IsFate w fate
  pub stage : Stage w t
  pub child : t.child ≡ child_at fate
  pub failed : t.failed ≡ fails fate

module _ (w : Surroundings) (h : (n : ℕ) → w.connected n ≡ true) where
  emit-tell : (e : ℕ → ChildEvent) (c : Child) → emit w e c ≡ tell e c
  unfolding emit
  emit-tell e c = rw (h c.attempts) refl

  pub report-tell :
      (p : LifecyclePhase) (s : ChildPhaseState) {c d : Child}
      → c ≡ d
      → report w p s c ≡ tell_phase p s d
  unfolding report
  report-tell p s {c = c} {d = d} e =
      emit-tell (λ n. phase n p s) (activate p s c) ∙ ap (tell_phase p s) e

  backend-tell : (b : Option Backend) {c d : Child} → c ≡ d → emit_backend w b c ≡ tell_backend b d
  backend-tell none e = e
  backend-tell (some b) {c = c} e = emit-tell (λ n. backend n b) c ∙ ap (tell_backend (some b)) e

  passes-tell :
      (p : LifecyclePhase) {c : Child} (d : Child)
      → c ≡ tell_phase p started d
      → report w p succeeded c ≡ passes p d
  passes-tell p d e = report-tell p succeeded e

  infer-Fated :
      (a : Artifact) (m : String) (c : Child)
      → Reaches w a
      → Loads w a m
      → c ≡ at_inference
      → Fated w (infer w a m c)
  unfolding infer
  infer-Fated a m c reach loads e =
      let final = if w.is_function completion 1 then w.completed m else none in
      let begun = report-tell inference started e in
      elim (Bool-cases (has_content w (final_content final))) [
        | inl ok ↦
            let (fs, completes, names) = has_content-Completes w m ok in
            rw ok (record {
              fate = finishes (final_device final);
              meant = (a, m, fs, reach, loads, completes, names);
              stage = named a m reach loads.0 refl refl;
              child = report-tell inference succeeded (backend-tell (final_device final) begun);
              failed = refl;
            })
        | inr bad ↦ rw bad (record {
          fate = inference_raises;
          meant = (a, m, reach, loads, λ fs h. fails_test _ bad (Completes-has_content w m fs h));
          stage = named a m reach loads.0 refl refl;
          child = begun;
          failed = refl;
        })
      ]

  load_fails :
      (a : Artifact) (t : Tried)
      → Reaches w a
      → Stage w t
      → ((m : String) → ¬ Loads w a m)
      → t.child ≡ tell_phase model_load started at_load
      → t.failed ≡ true
      → Fated w t
  load_fails a t (imports, beats, valid) stage no_load e f = record {
    fate = load_raises;
    meant = (a, imports, beats, λ m _. no_load m);
    stage = stage;
    child = e;
    failed = f;
  }

  check_loaded-Fated :
      (a : Artifact) (m : Option String) (c : Child)
      → Reaches w a
      → loaded_text w.loaded ≡ m
      → c ≡ tell_phase model_load started at_load
      → Fated w (check_loaded w a m c)
  unfolding check_loaded
  check_loaded-Fated a none c reach l e =
      let other = loaded_text-none w l in
      load_fails a _ reach (unnamed a reach other refl refl) (λ n (h, _, _, _). other n h) e refl
  check_loaded-Fated a (some m) c reach l e =
      let stage = loaded_text-some w m l in
      elim (Bool-cases (w.is_blank m)) [
        | inl blank ↦ rw blank (
            load_fails a _ reach (named a m reach stage refl refl)
              (λ n h. blank_fails w a m n stage blank h) e refl)
        | inr filled ↦ elim (Bool-cases (matches (describe w m) m a)) [
          | inl ok ↦
              rw (filled, ok)
                (let (callable, known) = matches-Loads w a m ok in
                  infer-Fated a m _ reach (stage, filled, callable, known)
                    (passes-tell model_load at_load e))
          | inr bad ↦
              rw (filled, bad)
                (load_fails a _ reach (named a m reach stage refl refl)
                  (λ n h. unmatched_fails w a m n stage bad h) e refl)
        ]
      ]

  load-Fated :
      (a : Artifact) (c : Child)
      → Imports w a
      → w.heartbeats ≡ true
      → c ≡ at_load
      → Fated w (load w a c)
  unfolding load
  load-Fated a c imports beats e = elim (Bool-cases (w.is_valid 0)) [
    | inl ok ↦ rw ok (
        check_loaded-Fated a (loaded_text w.loaded) _ (imports, beats, ok) refl
          (report-tell model_load started e))
    | inr bad ↦ rw bad (record {
      fate = load_raises;
      meant = (a, imports, beats, λ m ok. absurd (fails_test _ bad ok));
      stage = early (λ _ (_, _, ok). fails_test _ bad ok) refl refl;
      child = report-tell model_load started e;
      failed = refl;
    })
  ]

  start_worker-Fated :
      (a : Artifact) (c : Child) → Imports w a → c ≡ at_worker → Fated w (start_worker w a c)
  unfolding start_worker
  start_worker-Fated a c imports e = elim (Bool-cases w.heartbeats) [
    | inl ok ↦ simp ok (
        load-Fated a _ imports ok
          (passes-tell worker_start at_worker (report-tell worker_start started e)))
    | inr bad ↦ simp bad (record {
      fate = worker_raises;
      meant = (a, imports, bad);
      stage = early (λ _ (_, ok, _). fails_test _ bad ok) refl refl;
      child = report-tell worker_start started e;
      failed = refl;
    })
  ]

  pub import_sdk-Fated :
      (o : Option Artifact) (c : Child)
      → w.artifact ≡ o
      → c ≡ tell_phase qvac_import started start
      → Fated w (import_sdk w o c)
  unfolding import_sdk
  import_sdk-Fated none c o e =
      let missing : (a : Artifact) → ¬ Imports w a = λ a (h, _, _). none_some (sym o ∙ h) in
      record {
        fate = import_raises;
        meant = missing;
        stage = early (λ a (h, _, _). missing a h) refl refl;
        child = e;
        failed = refl;
      }
  import_sdk-Fated (some a) c o e = elim (Bool-cases (w.sdk && has_functions w)) [
    | inl ok ↦
        let (sdk, functions) = and_true _ _ ok in
        rw ok (
          start_worker-Fated a _ (o, sdk, has_functions-all w functions)
            (passes-tell qvac_import start e))
    | inr bad ↦
        let missing : (b : Artifact) → ¬ Imports w b = λ b (_, sdk, functions).
          fails_test _ bad (both _ _ sdk (all-has_functions w functions)) in
        rw bad (record {
          fate = import_raises;
          meant = missing;
          stage = early (λ b (h, _, _). missing b h) refl refl;
          child = e;
          failed = refl;
        })
  ]
