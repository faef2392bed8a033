-- ===== src/Executor/Child.antt =====
-- packages/qvac-executor/src/child-runner.ts: the program of the supervised child. What the SDK,
-- the bootstrap channels and the artifact check answer is a parameter; so is whether the channel to
-- the parent is connected at each event. The calls of the source are made in its order, and each
-- can raise; the model keeps the messages that are sent.
pub mod Fate
mod Cleanup
mod Answers
mod Work
pub mod Script
pub mod Watched
use qvac_atlas.Base.{
  ℕ, ◌+◌, String, Bool, true, false, Option, none, some, List, [], ◌∷◌, ◌++◌, ◌&&◌, ◌||◌, ◌=ₜ◌, not,
  if◌then◌else◌,
}
use qvac_atlas.Json.{Value, str, bool, obj, get, record_of, is_text}
use qvac_atlas.Executor.Phase.{
  LifecyclePhase, qvac_import, worker_start, model_load, inference, clean_shutdown,
}
use qvac_atlas.Executor.Protocol.{
  ChildEvent, phase, backend, ChildPhaseState, started, succeeded, failed, Backend, cpu, gpu,
}

-- The functions that the program reads off the SDK.
pub data SdkFunction : Type 0 where
  heartbeat load_model get_loaded_model_info completion unload_model close : SdkFunction

pub record Artifact : Type 0 where
  pub engine : String
  pub canonical_path : String

-- The answers of the code outside. `none` is a rejection or an exception. A function of the SDK is
-- looked up anew at each use, so the answer may depend on how often it was looked up before.
pub record Surroundings : Type 0 where
  pub sdk : Bool  -- the SDK's bootstrap is fulfilled
  pub artifact : Option Artifact
  pub is_function : SdkFunction → ℕ → Bool
  pub heartbeats : Bool
  pub is_valid : ℕ → Bool  -- `validateArtifactExecutionMaterial` resolves
  pub loaded : Option Value
  pub info : String → Option Value
  pub completed : String → Option Value  -- what the run's `final` resolves to; `none` also where the run has none
  pub unloads : Bool
  pub closes : Bool
  pub is_blank : String → Bool  -- `text.trim().length === 0`
  pub connected : ℕ → Bool

-- `sequence`, `activePhase`, and the messages sent, in their order.
pub record Child : Type 0 where
  pub sequence : ℕ
  pub active_phase : LifecyclePhase
  pub attempts : ℕ  -- calls of `emit`
  pub sent : List ChildEvent

unfoldable pub start : Child
start = record { sequence = 0; active_phase = qvac_import; attempts = 0; sent = [] }

-- `emit`, of an event that waits for its sequence number.
unfoldable pub emit : Surroundings → (ℕ → ChildEvent) → Child → Child
emit w e c =
    if w.connected c.attempts
    then record c {
      attempts = c.attempts + 1;
      sequence = c.sequence + 1;
      sent = c.sent ++ e c.sequence ∷ [];
    }
    else record c { attempts = c.attempts + 1 }

-- `phase`.
abbrev activate : LifecyclePhase → ChildPhaseState → Child → Child
activate p started c = record c { active_phase = p }
activate p _ c = c

unfoldable pub report : Surroundings → LifecyclePhase → ChildPhaseState → Child → Child
unfolding emit
report w p s c = emit w (λ n. phase n p s) (activate p s c)

abbrev pub is_false : Value → Bool
is_false (bool b) = not b
is_false _ = false

-- `requireLoadedInfo`: whether it returns.
unfoldable pub is_loaded_info : Value → String → Artifact → Bool
unfolding record_of
is_loaded_info v model_id a = elim (record_of v) [
  | none ↦ false
  | some fs ↦
      is_text (get fs "modelId") model_id
      && is_false (get fs "isDelegated")
      && is_text (get fs "modelType") a.engine
      && is_text (get fs "path") a.canonical_path
]

-- The variables that the `finally` block reads.
pub record Tried : Type 0 where
  pub child : Child
  pub failed : Bool
  pub artifact : Option Artifact
  pub model_id : Option String
  pub path_exposed : Bool

-- `sdk` is assigned or not before anything can raise.
abbrev raised : Surroundings → Child → Option Artifact → Option String → Bool → Tried
raised w c a m exposed = record {
  child = c;
  failed = true;
  artifact = a;
  model_id = m;
  path_exposed = exposed;
}

abbrev pub content_of : Value → Option String
content_of (str s) = some s
content_of _ = none

abbrev has_content : Surroundings → Option String → Bool
has_content w none = false
has_content w (some s) = not (w.is_blank s)

-- `final.stats?.backendDevice`, where it is one of the two labels. A `stats` of null or undefined
-- has none; of a text or a number, the field is undefined.
abbrev pub device_in : Value → Option Backend
device_in (str s) = if s =ₜ "cpu" then some cpu else if s =ₜ "gpu" then some gpu else none
device_in _ = none

abbrev pub device_of : Value → Option Backend
device_of (obj fs) = device_in (get fs "backendDevice")
device_of _ = none

abbrev emit_backend : Surroundings → Option Backend → Child → Child
emit_backend w none c = c
emit_backend w (some b) c = emit w (λ n. backend n b) c

-- A completion is an object with a text that is not blank. (An array has no `contentText`.)
abbrev final_content : Option Value → Option String
final_content (some (obj fs)) = content_of (get fs "contentText")
final_content _ = none

abbrev final_device : Option Value → Option Backend
final_device (some (obj fs)) = device_of (get fs "stats")
final_device _ = none

-- The phases of the `try` block from the last backwards; each is given what it starts from.
unfoldable pub infer : Surroundings → Artifact → String → Child → Tried
unfolding report
infer w a model_id c0 =
    let c = report w inference started c0 in
    let final = if w.is_function completion 1 then w.completed model_id else none in
    if has_content w (final_content final)
    then record {
      child = report w inference succeeded (emit_backend w (final_device final) c);
      failed = false;
      artifact = some a;
      model_id = some model_id;
      path_exposed = true;
    }
    else raised w c (some a) (some model_id) true

abbrev matches : Option Value → String → Artifact → Bool
matches none m a = false
matches (some v) m a = is_loaded_info v m a

abbrev describe : Surroundings → String → Option Value
describe w m = if w.is_function get_loaded_model_info 1 then w.info m else none

-- After `loadModel`: `modelId` is assigned before its text is checked.
unfoldable pub check_loaded : Surroundings → Artifact → Option String → Child → Tried
unfolding report infer is_loaded_info
check_loaded w a none c = raised w c (some a) none true
check_loaded w a (some m) c =
    if w.is_blank m
    then raised w c (some a) (some m) true
    else if matches (describe w m) m a
    then infer w a m (report w model_load succeeded c)
    else raised w c (some a) (some m) true

abbrev loaded_text : Option Value → Option String
loaded_text (some (str s)) = some s
loaded_text _ = none

unfoldable pub load : Surroundings → Artifact → Child → Tried
unfolding report check_loaded
load w a c0 =
    let c = report w model_load started c0 in
    if w.is_valid 0
    then check_loaded w a (loaded_text w.loaded) c
    else raised w c (some a) none false

unfoldable pub start_worker : Surroundings → Artifact → Child → Tried
unfolding report load
start_worker w a c0 =
    let c = report w worker_start started c0 in
    if w.heartbeats
    then load w a (report w worker_start succeeded c)
    else raised w c (some a) none false

abbrev pub has_functions : Surroundings → Bool
has_functions w =
    w.is_function heartbeat 0
    && w.is_function load_model 0
    && w.is_function get_loaded_model_info 0
    && w.is_function completion 0
    && w.is_function unload_model 0
    && w.is_function close 0

unfoldable pub import_sdk : Surroundings → Option Artifact → Child → Tried
unfolding report start_worker
import_sdk w none c = raised w c none none false
import_sdk w (some a) c =
    if w.sdk && has_functions w
    then start_worker w a (report w qvac_import succeeded c)
    else raised w c (some a) none false

-- The `catch` block.
unfoldable pub recover : Surroundings → Tried → Tried
unfolding report
recover w t =
    if t.failed
    then record t { child = report w (t.child).active_phase ChildPhaseState.failed t.child }
    else t

abbrev pub is_some {ℓ} : {A : Type ℓ} → Option A → Bool
is_some none = false
is_some (some a) = true

-- `cleanupFailed` at the end of the `finally` block.
abbrev pub cleanup_failed : Surroundings → Tried → Bool
cleanup_failed w t =
    w.sdk && is_some t.model_id && not (w.is_function unload_model 1 && w.unloads)
    || w.sdk && not (w.is_function close 1 && w.closes)
    || t.path_exposed && is_some t.artifact && not (w.is_valid 1)

abbrev pub ending : Bool → ChildPhaseState
ending true = ChildPhaseState.failed
ending false = succeeded

pub record Ended : Type 0 where
  pub sent : List ChildEvent
  pub exit_code : ℕ

-- The `finally` block and the lines after it.
unfoldable pub finish : Surroundings → Tried → Ended
unfolding report
finish w t =
    let bad = cleanup_failed w t in
    let c = report w clean_shutdown (ending bad) (report w clean_shutdown started t.child) in
    record { sent = c.sent; exit_code = if t.failed || bad then 1 else 0 }

unfoldable pub run_child : Surroundings → Ended
unfolding start report import_sdk recover finish
run_child w = finish w (recover w (import_sdk w w.artifact (report w qvac_import started start)))
