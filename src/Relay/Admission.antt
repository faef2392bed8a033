-- ===== src/Relay/Admission.antt =====
-- apps/submission-relay/src/github-queue.ts, #acquireAdmission and enqueue: the calls that wait for
-- their admission, one after another. A caller's slot is a promise that its release resolves, and
-- #admissionTail resolves when all slots so far have; so a caller goes on once every earlier slot is
-- released. An event is one turn of the run of one caller.
pub mod Laws
pub mod Progress
use qvac_atlas.Base.{
  ℕ, zero, suc, Bool, true, false, ◌&&◌, List, [], ◌∷◌, ◌++◌, take, all, if◌then◌else◌,
}

-- A caller that waits for its predecessor, runs, or has called `release` (which it does once).
pub data Slot : Type 0 where
  waiting inside released : Slot

-- Callers are numbered in the order of their calls. A Boolean says whether the signal is aborted.
pub data Event : Type 0 where
  call : Bool → Event
  predecessor_resolved : ℕ → Bool → Event
  abort : ℕ → Event
  settle : ℕ → Event

abbrev pub is_released : Slot → Bool
is_released released = true
is_released _ = false

-- Whether `predecessor` has resolved for a caller.
abbrev pub is_free : ℕ → List Slot → Bool
is_free i slots = all is_released (take i slots)

abbrev pub update : ℕ → (Slot → Slot) → List Slot → List Slot
update i f [] = []
update zero f (s ∷ slots) = f s ∷ slots
update (suc i) f (s ∷ slots) = s ∷ update i f slots

abbrev pub enter : Slot → Slot
enter waiting = inside
enter s = s

-- `release()` and the throw that follows.
abbrev pub give_up : Slot → Slot
give_up waiting = released
give_up s = s

-- `finally { release(); }`.
abbrev pub leave : Slot → Slot
leave inside = released
leave s = s

unfoldable pub acquire : Bool → List Slot → List Slot
acquire aborted slots = slots ++ ((if aborted then released else waiting) ∷ [])

unfoldable pub go_on : ℕ → Bool → List Slot → List Slot
go_on i aborted slots =
    if is_free i slots then update i (if aborted then give_up else enter) slots else slots

unfoldable pub step : List Slot → Event → List Slot
step slots (call aborted) = acquire aborted slots
step slots (predecessor_resolved i aborted) = go_on i aborted slots
step slots (abort i) = update i give_up slots
step slots (settle i) = update i leave slots

unfoldable pub steps : List Slot → List Event → List Slot
steps slots [] = slots
steps slots (e ∷ es) = steps (step slots e) es
