-- ===== src/Executor/Child/Fate.antt =====
-- packages/qvac-executor/src/child-runner.ts: where the program's work ends and whether its cleanup
-- fails, said of what the SDK, the artifact check and the bootstrap answer.
use Prim.Native.String.{String}
use qvac_atlas.Base.{◌≡◌, ◌≢◌, Bool, true, false, Option, none, some}
use qvac_atlas.Json.{str, bool, obj, Fields, get}
use qvac_atlas.Executor.Protocol.{Backend, cpu, gpu}
use qvac_atlas.Executor.Child.{
  Surroundings, SdkFunction, get_loaded_model_info, completion, unload_model, close, Artifact,
}

-- What the work ended with: a phase raised, or all passed, with the backend that was named.
pub data Fate : Type 0 where
  import_raises worker_raises load_raises inference_raises : Fate
  finishes : Option Backend → Fate

-- The artifact and the SDK are there, and the SDK has the six functions.
abbrev pub Imports : Surroundings → Artifact → Type 0
Imports w a =
    (w.artifact ≡ some a) × (w.sdk ≡ true) × ((f : SdkFunction) → w.is_function f 0 ≡ true)

-- The model is loaded from an artifact that is valid.
abbrev pub Reaches : Surroundings → Artifact → Type 0
Reaches w a = Imports w a × (w.heartbeats ≡ true) × (w.is_valid 0 ≡ true)

-- The load gives a name that is not blank, and its description is of this artifact.
abbrev pub Loads : Surroundings → Artifact → String → Type 0
Loads w a m =
    (w.loaded ≡ some (str m))
    × (w.is_blank m ≡ false)
    × (w.is_function get_loaded_model_info 1 ≡ true)
    × ((fs : Fields) × (w.info m ≡ some (obj fs))
        × (get fs "modelId" ≡ str m)
        × (get fs "isDelegated" ≡ bool false)
        × (get fs "modelType" ≡ str a.engine)
        × (get fs "path" ≡ str a.canonical_path))

-- The backend that the completion's statistics name.
abbrev pub Names : Fields → Option Backend → Type 0
Names fs (some cpu) =
    (stats : Fields) × (get fs "stats" ≡ obj stats) × (get stats "backendDevice" ≡ str "cpu")
Names fs (some gpu) =
    (stats : Fields) × (get fs "stats" ≡ obj stats) × (get stats "backendDevice" ≡ str "gpu")
Names fs none =
    (stats : Fields)
    → get fs "stats" ≡ obj stats
    → (get stats "backendDevice" ≢ str "cpu") × (get stats "backendDevice" ≢ str "gpu")

-- The completion has a text that is not blank.
abbrev pub Completes : Surroundings → String → Fields → Type 0
Completes w m fs =
    (w.is_function completion 1 ≡ true)
    × (w.completed m ≡ some (obj fs))
    × ((content : String) × (get fs "contentText" ≡ str content) × (w.is_blank content ≡ false))

-- The first of the four parts of the work that does not succeed, if one does not.
abbrev pub IsFate : Surroundings → Fate → Type 0
IsFate w import_raises = (a : Artifact) → ¬ Imports w a
IsFate w worker_raises = (a : Artifact) × Imports w a × (w.heartbeats ≡ false)
IsFate w load_raises =
    (a : Artifact) × Imports w a
    × (w.heartbeats ≡ true)
    × ((m : String) → w.is_valid 0 ≡ true → ¬ Loads w a m)
IsFate w inference_raises =
    (a : Artifact) × (m : String) × Reaches w a × Loads w a m × ((fs : Fields) → ¬ Completes w m fs)
IsFate w (finishes b) =
    (a : Artifact) × (m : String) × (fs : Fields) × Reaches w a
    × Loads w a m
    × Completes w m fs
    × Names fs b

-- A model that was loaded is unloaded, an SDK is closed, and an artifact that was handed to the
-- SDK is valid afterwards.
abbrev pub Cleans : Surroundings → Type 0
Cleans w =
    ((a : Artifact) (m : String)
      → Reaches w a
      → w.loaded ≡ some (str m)
      → (w.is_function unload_model 1 ≡ true) × (w.unloads ≡ true))
    × (w.sdk ≡ true → (w.is_function close 1 ≡ true) × (w.closes ≡ true))
    × ((a : Artifact) → Reaches w a → w.is_valid 1 ≡ true)

abbrev pub IsCleaned : Surroundings → Bool → Type 0
IsCleaned w true = ¬ Cleans w
IsCleaned w false = Cleans w
