-- ===== src/Handover/Tests.antt =====
-- A run of the supervisor and the adapter at a concrete input.
use qvac_atlas.Base.{◌≡◌, refl, arith, some}
use qvac_atlas.Executor.Phase.{inference}
use qvac_atlas.Executor.Lifecycle.{PhaseStatus}
use qvac_atlas.Executor.Events.{ProbeEvent}
use qvac_atlas.Executor.Report.Encode.{encode}
use qvac_atlas.Executor.Supervisor.{default_executor_limits}
use qvac_atlas.Executor.Tests.{failed_import, failed_import_events, failed_import_test}
use qvac_atlas.Probe.Runner.Events.{parse_event, event}
use qvac_atlas.Handover.Parsing.{read_back, parse_event-encode}
use qvac_atlas.Handover.Whole.{IsAccepted, supervised_run-IsAccepted}

supervised_run-IsAccepted_example : IsAccepted (λ v. 0) failed_import_events
supervised_run-IsAccepted_example =
    supervised_run-IsAccepted default_executor_limits failed_import failed_import_events (λ v. 0)
      (tt, (tt, (tt, (omega arith, tt)))) failed_import_test refl

abbrev inferred : ProbeEvent
inferred =
    ProbeEvent.phase
      (record { name = inference; status = PhaseStatus.passed; duration_ms = some 900 })

parse_event-encode_example : parse_event (encode inferred) ≡ event (read_back inferred)
parse_event-encode_example = parse_event-encode inferred (omega arith)
