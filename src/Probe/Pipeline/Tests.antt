-- ===== src/Probe/Pipeline/Tests.antt =====
-- A run of the pipeline that writes its report.
use qvac_atlas.Base.{◌≡◌, refl, Bool, true, false, some, [], ◌∷◌}
use qvac_atlas.Json.{Value, null, bool, num, str, arr, obj, fields, of_items}
use qvac_atlas.Probe.Pipeline.Session.{
  Call, resolve, run_doctor, run_workload, choose_publication, write_exclusive, Reply, value, Log,
  Outside, begin, Step, done, written,
}
use qvac_atlas.Probe.Pipeline.Snapshots.{keyed}
use qvac_atlas.Probe.Pipeline.Steps.{pipeline}
use qvac_atlas.Probe.Pipeline.Gates.{Holds}
use qvac_atlas.Probe.Pipeline.Whole.{pipeline-Holds}

abbrev qvac : Value
qvac = obj (
    fields (
      (
        "discovery",
        obj (
            fields (
              ("status", str "passed")
              ∷ ("reason", str "completed")
              ∷ ("duration_ms", num 5)
              ∷ [])),
      )
      ∷ ("sdk_version", str "0.16.0")
      ∷ (
        "packages",
        arr (
            of_items
              (obj (fields (("name", str "@qvac/sdk") ∷ ("version", str "0.16.0") ∷ [])) ∷ [])),
      )
      ∷ []))

abbrev doctor : Value
doctor =
    obj (
      fields (("status", str "passed") ∷ ("reason", str "completed") ∷ ("duration_ms", num 7) ∷ []))

abbrev failure : Value
failure = obj (
    fields (
      ("category", str "none")
      ∷ ("phase", null)
      ∷ ("code", null)
      ∷ ("sanitized_excerpt", null)
      ∷ []))

abbrev runner : Value
runner = obj (
    fields (
      (
        "phases",
        arr (
            of_items (
              obj (
                fields (
                  ("name", str "inference")
                  ∷ ("status", str "passed")
                  ∷ ("duration_ms", num 9)
                  ∷ []))
              ∷ [])),
      )
      ∷ (
        "backend_observation",
        obj (
            fields (
              ("status", str "observed")
              ∷ ("backend", str "gpu")
              ∷ ("method", str "runner-event")
              ∷ [])),
      )
      ∷ (
        "termination",
        obj (
            fields (
              ("kind", str "clean-exit")
              ∷ ("exit_code", num 0)
              ∷ ("signal", null)
              ∷ ("last_completed_phase", null)
              ∷ [])),
      )
      ∷ (
        "result",
        obj (
            fields (
              ("workload_status", str "passed")
              ∷ ("completion_observed", bool true)
              ∷ ("failure", failure)
              ∷ [])),
      )
      ∷ []))

abbrev answers : Log → Call → Reply
answers log resolve = value (obj (fields (("status", str "resolved") ∷ ("qvac", qvac) ∷ [])))
answers log run_doctor =
    value (obj (fields (("status", str "completed") ∷ ("doctor", doctor) ∷ [])))
answers log run_workload =
    value (obj (fields (("status", str "executed") ∷ ("runner", runner) ∷ [])))
answers log choose_publication = value (bool false)
answers log (write_exclusive json) = value (obj (fields (("status", str "written") ∷ [])))
answers log _ = value (bool true)

abbrev willing : Outside
willing = record {
  reply = answers;
  aborted = λ n. false;
  schema = record {
    with_report_id = λ v. some v;
    is_valid = λ v. some true;
    canonicalize = λ v. some "{}";
    scan_privacy = λ v. some 0;
  };
  platform = some (null, (str "22", null));
  now = some "2026-01-01T00:00:00.000Z";
}

abbrev is_written : {A : Type 0} → Step A → Bool
is_written (done (written report json history) r) = true
is_written _ = false

willing_test : is_written (pipeline willing begin) ≡ true
unfolding pipeline begin keyed
willing_test = refl

pipeline-Holds_example : Holds willing (λ _ _. ⊥) (pipeline willing begin)
pipeline-Holds_example = pipeline-Holds willing
