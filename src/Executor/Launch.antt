-- ===== src/Executor/Launch.antt =====
-- packages/qvac-executor/src/executor.ts and model-grant.ts: the single-use grant of a model, and an
-- execution around the supervisor. launchResolvedSdkChild, the temporary directory, the child's
-- channel and what the supervisor's promise settles to are parameters. A grant is known by its number.
pub mod Laws
use Prim.Native.String.{String}
use qvac_atlas.Base.{
  ℕ, Bool, true, false, Option, none, some, List, [], ◌∷◌, ◌++◌, ◌==◌, length, any, if◌then◌else◌,
}
use qvac_atlas.Json.{Value, str, num, obj, fields}
use qvac_atlas.Executor.Events.{ProbeEvent}
use qvac_atlas.Executor.Report.{not_started_events}

-- ArtifactExecutionMaterial.
pub record Material : Type 0 where
  pub canonical_path : String
  pub byte_length : ℕ
  pub sha256 : String
  pub engine : String

-- `issuedGrants`, the latest first, and `consumedGrants`.
pub record Grants : Type 0 where
  pub issued : List (ℕ × Material)
  pub consumed : List ℕ

unfoldable pub issue : Material → Grants → Grants
issue m g = record g { issued = (length g.issued, m) ∷ g.issued }

-- createQvacModelExecutionGrant, with what consuming the capability gives; `none` throws.
unfoldable pub create_grant : Option Material → Grants → Grants
create_grant none g = g
create_grant (some m) g = issue m g

abbrev pub find : ℕ → List (ℕ × Material) → Option Material
find i [] = none
find i ((j, m) ∷ rest) = let found = find i rest in if i == j then some m else found

abbrev pub has : ℕ → List ℕ → Bool
has i consumed = any (λ j. i == j) consumed

-- internalConsumeIssuedModelGrant.
unfoldable pub consumable : ℕ → Grants → Option Material
consumable i g = if has i g.consumed then none else find i g.issued

abbrev pub mark : ℕ → Option Material → Grants → Grants
mark i none g = g
mark i (some m) g = record g { consumed = i ∷ g.consumed }

unfoldable pub consume : ℕ → Grants → Option Material × Grants
consume i g = (consumable i g, mark i (consumable i g) g)

-- Where an execution reads the signal.
pub data Point : Type 0 where
  at_start before_directory after_directory after_bootstrap at_failure : Point

-- launchResolvedSdkChild: it fails before or after `beforeBootstrap`, or calls
-- `afterSdkBootstrapSent`, and then succeeds or fails.
pub data Launching : Type 0 where
  fails_first fails_attached : Launching
  calls_back : Bool → Launching

-- `artifactBootstrapOverride`.
pub data Override : Type 0 where
  absent suppressed : Override
  instead : Value → Override

pub record Outside : Type 0 where
  pub aborted : Point → Bool
  pub is_windows : Bool
  pub makes_directory : Bool
  pub launching : Launching
  pub override : Override
  pub can_send : Bool
  pub supervised : Option (List ProbeEvent)  -- `none` is a rejection

pub record Executor : Type 0 where
  pub grant : ℕ
  pub used : Bool

pub data Call : Type 0 where
  make_directory remove_directory launch attach abort dispose : Call
  send : Value → Call

pub data Outcome : Type 0 where
  events : List ProbeEvent → Outcome
  rejected : Outcome

-- The calls in their order, and what the promise settles to.
pub record Executed : Type 0 where
  pub calls : List Call
  pub outcome : Outcome

abbrev pub artifact_bootstrap_message : Material → Value
artifact_bootstrap_message m = obj (
    fields (
      ("type", str "qvac-atlas-model-artifact-v1")
      ∷ ("canonicalPath", str m.canonical_path)
      ∷ ("byteLength", num m.byte_length)
      ∷ ("sha256", str m.sha256)
      ∷ ("engine", str m.engine)
      ∷ []))

-- `afterSdkBootstrapSent`: what it sends, and whether it succeeds.
abbrev pub bootstrap : Outside → Material → Override → List Call × Bool
bootstrap w m absent = (send (artifact_bootstrap_message m) ∷ [], w.can_send)
bootstrap w m (instead v) = (send v ∷ [], w.can_send)
bootstrap w m suppressed = ([], true)

abbrev pub after_bootstrap_sent : Outside → Material → List Call × Bool
after_bootstrap_sent w m =
    if w.aborted after_bootstrap then ([], false) else bootstrap w m w.override

abbrev pub settled : Option (List ProbeEvent) → Outcome
settled none = rejected
settled (some es) = events es

abbrev pub launch_failure : Outside → Outcome
launch_failure w = events (
    not_started_events
      (if w.aborted at_failure then "EXECUTOR_ABORTED" else "QVAC_CHILD_LAUNCH_FAILED"))

abbrev pub after_abort : Outside → Option (List ProbeEvent) → Outcome
after_abort w none = rejected
after_abort w (some es) = launch_failure w

-- The `catch` of a child that is attached, with the calls before.
abbrev pub fail_attached : Outside → List Call → Executed
fail_attached w before = record {
  calls = before ++ (abort ∷ []);
  outcome = after_abort w w.supervised;
}

abbrev pub called_back : Outside → Bool → List Call × Bool → Executed
called_back w succeeds (sent, true) =
    if succeeds
    then record { calls = launch ∷ attach ∷ sent; outcome = settled w.supervised }
    else fail_attached w (launch ∷ attach ∷ sent)
called_back w succeeds (sent, false) = fail_attached w (launch ∷ attach ∷ sent)

unfoldable pub launched : Outside → Material → Launching → Executed
launched w m fails_first = record { calls = launch ∷ dispose ∷ []; outcome = launch_failure w }
launched w m fails_attached = fail_attached w (launch ∷ attach ∷ [])
launched w m (calls_back succeeds) = called_back w succeeds (after_bootstrap_sent w m)

abbrev pub not_started : String → Executed
not_started code = record { calls = []; outcome = events (not_started_events code) }

-- The directory around a run, which `finally` removes.
abbrev pub within : Executed → Executed
within x = record x { calls = make_directory ∷ (x.calls ++ (remove_directory ∷ [])) }

-- From the construction of the supervisor on.
unfoldable pub run : Outside → Material → Executed
run w m =
    if w.aborted before_directory
    then not_started "EXECUTOR_ABORTED"
    else if w.makes_directory
    then within (
        if w.aborted after_directory
        then not_started "EXECUTOR_ABORTED"
        else launched w m w.launching)
    else record { calls = make_directory ∷ []; outcome = rejected }

abbrev pub with_artifact : Outside → Executor → Option Material → Executor × Executed
with_artifact w x none = (x, not_started "MODEL_EXECUTION_GRANT_INVALID")
with_artifact w x (some m) =
    if x.used
    then (x, not_started "MODEL_EXECUTION_GRANT_INVALID")
    else (record x { used = true }, run w m)

-- `execute`, with the state of the grants and of the executor.
unfoldable pub execute : Outside → Grants → Executor → Grants × (Executor × Executed)
execute w g x =
    if w.aborted at_start
    then (g, (x, not_started "EXECUTOR_ABORTED"))
    else if w.is_windows
    then (g, (x, not_started "WINDOWS_CONTAINMENT_UNAVAILABLE"))
    else ((consume x.grant g).1, with_artifact w x (consume x.grant g).0)
