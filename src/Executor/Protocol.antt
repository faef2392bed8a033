-- ===== src/Executor/Protocol.antt =====
-- packages/qvac-executor/src/protocol.ts: `parseChildEvent`.
pub mod Laws
use qvac_atlas.Base.{ℕ, String, Bool, Option, none, some, List, [], ◌∷◌, ◌=ₜ◌, leb, if◌then◌else◌}
use qvac_atlas.Json.{Value, num, str, Fields, get, record_of}
use qvac_atlas.Json.Keys.{has_exact_keys}
use qvac_atlas.Executor.Phase.{LifecyclePhase, phase_of_label}

pub data ChildPhaseState : Type 0 where
  started succeeded failed : ChildPhaseState

pub data Backend : Type 0 where
  cpu gpu : Backend

pub data ChildEvent : Type 0 where
  phase : ℕ → LifecyclePhase → ChildPhaseState → ChildEvent
  backend : ℕ → Backend → ChildEvent

abbrev pub sequence_of : ChildEvent → ℕ
sequence_of (phase n p s) = n
sequence_of (backend n b) = n

abbrev max_safe_integer : ℕ
max_safe_integer = 9007199254740991

abbrev state_of_label : String → Option ChildPhaseState
state_of_label s =
    if s =ₜ "started"
    then some started
    else if s =ₜ "succeeded"
    then some succeeded
    else if s =ₜ "failed"
    then some failed
    else none

abbrev backend_of_label : String → Option Backend
backend_of_label s = if s =ₜ "cpu" then some cpu else if s =ₜ "gpu" then some gpu else none

abbrev as_text : Value → Option String
as_text (str s) = some s
as_text _ = none

infixl 5 ◌>>=◌
abbrev ◌>>=◌ : {A B : Type 0} → Option A → (A → Option B) → Option B
none >>= f = none
some a >>= f = f a

-- `Number.isSafeInteger(value)` and `value >= 0`.
abbrev safe_sequence : Value → Option ℕ
safe_sequence (num n) = if leb n max_safe_integer then some n else none
safe_sequence _ = none

abbrev guard : Bool → Option (Unit {0})
guard b = if b then some tt else none

infixl 5 ◌>>◌
abbrev ◌>>◌ : {B : Type 0} → Option (Unit {0}) → Option B → Option B
m >> k = m >>= λ _. k

abbrev parse_typed : String → ℕ → Fields → Option ChildEvent
parse_typed t n fs =
    if t =ₜ "phase"
    then (do
      guard (has_exact_keys fs ("type" ∷ "sequence" ∷ "phase" ∷ "state" ∷ []))
      p ← phase_of_label (← as_text (get fs "phase"))
      s ← state_of_label (← as_text (get fs "state"))
      some (phase n p s))
    else if t =ₜ "backend"
    then (do
      guard (has_exact_keys fs ("type" ∷ "sequence" ∷ "backend" ∷ []))
      b ← backend_of_label (← as_text (get fs "backend"))
      some (backend n b))
    else none

unfoldable pub parse_child_event : Value → Option ChildEvent
unfolding phase_of_label has_exact_keys record_of
parse_child_event v = do
  fs ← record_of v
  n ← safe_sequence (get fs "sequence")
  t ← as_text (get fs "type")
  parse_typed t n fs
