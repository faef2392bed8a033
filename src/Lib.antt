-- ===== src/Lib.antt =====
-- QVAC Atlas: the run of a workload in a supervised child process, and the evidence that the probe
-- makes of it.
--
-- The probe asks an executor for the raw events of a run. The executor (packages/qvac-executor)
-- starts a child process whose program imports the project's QVAC SDK, loads a model and runs one
-- inference; the child reports each phase over IPC. A supervisor follows these messages, arms timers,
-- ends the process group, and turns what it saw into a list of events. The probe
-- (packages/probe/src/runner.ts) parses that list again and assembles the evidence of the report, or
-- gives a fixed rejection. The probe's pipeline discloses, asks for consent, calls the executor and
-- the other collaborators, and writes the report if the user confirms it.
--
-- A written report can be submitted: an anonymous client (packages/submission) posts it to a relay
-- (apps/submission-relay), which admits it, lets one enqueueing run at a time, and keeps it in a
-- private GitHub repository as a commit, a branch and a pull request.
--
-- Files:
--   Base: numbers, texts and lists that the parts share.
--   Json: the plain data that crosses IPC and package boundaries, with String(...) and the two forms
--     of exactKeys.
--   Executor.Phase, Executor.Protocol: packages/qvac-executor/src/protocol.ts, parseChildEvent.
--   Executor.Child: packages/qvac-executor/src/child-runner.ts. `try` is cut into one function for
--     each phase (import_sdk, start_worker, load, check_loaded, infer); recover is its `catch`, finish
--     its `finally`. Child.Fate says where the work ends and what the cleanup owes, of what the SDK and
--     the checks answer; Child.Answers and Child.Cleanup relate the tests to it, Child.Work follows the
--     `try` block, Child.Script lists the messages that are sent, and Child.Watched runs the program
--     under the supervisor.
--   Executor.Launch: executor.ts and model-grant.ts of the same package; execute is cut at its guards
--     (with_artifact, run, launched), and the calls it makes are listed.
--   Executor.Supervisor: packages/qvac-executor/src/supervisor.ts, ExecutorSupervisor. attach, abort,
--     disposeAfterLaunchFailure, #onMessage (on_message, on_open, on_sized, on_event, accept),
--     #armPhaseTimer, #timeout, #protocolFailure, #terminate, #finalize and #clearTimers are functions
--     of the same names in snake case. An Input is one call from the runtime, and step applies it.
--   Executor.Lifecycle, Executor.Report, Executor.Events, Executor.Tail: the parts of the same file
--     that follow the phases, build the events, and keep the tail of the output.
--   Probe.Runner: packages/probe/src/runner.ts, parseEvent (in Events) and StructuredRunnerAdapter.run;
--     Placed says where the backend and the inference phases stand in the events.
--   Probe.Stages: packages/probe/src/real-state-machine.ts. Probe.Report: packages/probe/src/report.ts.
--   Probe.Pipeline: packages/probe/src/real-pipeline.ts. Snapshots has the parsers of the
--     collaborators' answers; Session has guarded, coordinatorBoundary and stopped over an explicit
--     state (calls made, reads of the signal, stage machine), where a part goes on or has returned;
--     Steps has runRealProbePipeline, cut into one part for each group of calls; Gates, Consent,
--     Gated and Whole state and prove what each call waits for.
--   Handover: the supervisor's events as the adapter reads them.
--   Submission.Stream: the loop with a limit that reads a body, which the client, the relay's handler
--     and the queue each have. Submission.Protocol: packages/submission/src/protocol.ts, with what its
--     tests of a report say in Parts.
--     Submission.Client: packages/submission/src/client.ts; submit is cut at its awaits (answered,
--     received, response_text, bounded_response_text).
--   Relay.Handler: apps/submission-relay/src/handler.ts. Relay.Config: config.ts of the same folder.
--   Relay.Admission: #acquireAdmission and enqueue of github-queue.ts; the callers' slots in the order
--     of their calls, and the turns that the callers take.
--   Relay.Queue: the rest of github-queue.ts, as computations that keep a log of their exchanges with
--     GitHub and may fail. Values has what is read off the answers, Reads and Enqueue the methods of
--     the same names in snake case; #enqueueUnderAdmissionLock is cut at its branches (with_pull,
--     with_ref, push, propose, after_race, after_pull). Facts says what a log shows and which request
--     may follow it, Rules has the rules of a do block for it.
--   Relay.Credentials: github-app.ts, the token cache as a machine of calls and settled mints.
--   Relay.Server: server.ts, the listener (serve, cut at its returns) and the count of its requests.
--   Relay.Exchange: a client and a relay together. Relay.Service: the handler with the GitHub queue.
--
-- Bounds: durations are capped at 3,600,000 ms by the source; the times that enter are microseconds
-- of performance.now(), rounded as Math.round does. Exit codes are natural numbers; where a theorem
-- needs it, they fit 32 bits. A sequence number is a safe integer (2^53 - 1 at most). No definition
-- runs on fuel: a run is a list of inputs, and a body a list of reads, of any length.
--
-- Parameters: scanPrivacy of packages/schema, as the number of its findings; the answers of the SDK,
-- of the bootstrap channels and of the artifact check in the child; the sizes and times of messages;
-- what the final sweep of a process group finds; in the pipeline, the
-- collaborators' answers, the signal, the collected platform, the date, and of packages/schema also
-- withReportId, validateReport and canonicalize; in the submission, JSON.parse, canonicalize,
-- validatePublishableReport, fetch, the signals, the parser of URLs, base64 and UTF-8; of the queue,
-- what GitHub answers, which may depend on all exchanges before.
--
-- Not modelled: real time (a timer is armed or not, and may fire while armed), the signals' effect on
-- processes, the removal of listeners, and the rest of the repository: the launch of the child and
-- its bootstrap, the fixture pipeline, Doctor, the model artifact, the resolver, the
-- CLI, the JavaScript packages and the site; of the relay, the signing of a mint, the timeouts and the
-- listening socket.
pub mod Base
pub mod Json
pub mod Probe
pub mod Executor
pub mod Handover
pub mod Submission
pub mod Relay
