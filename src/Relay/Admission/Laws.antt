-- ===== src/Relay/Admission/Laws.antt =====
-- One caller runs at a time, in the order of the calls, and nobody waits for ever.
use qvac_atlas.Base.{
  ℕ, zero, suc, ◌≡◌, refl, ap, Bool, true, false, List, [], ◌∷◌, ◌++◌, All, All-append, if_both,
  some, get_elem?, if_split,
}
use qvac_atlas.Relay.Admission.{
  Slot, waiting, inside, released, Event, call, predecessor_resolved, abort, settle, is_free,
  update, enter, give_up, leave, acquire, go_on, step, steps,
}

abbrev is_outside : Slot → Bool
is_outside inside = false
is_outside _ = true

abbrev pub IsIdle : List Slot → Type 0
IsIdle slots = All (λ s. is_outside s ≡ true) slots

-- Released slots, then perhaps one that runs, then none that does.
abbrev pub IsOrdered : List Slot → Type 0
IsOrdered [] = Unit
IsOrdered (released ∷ slots) = IsOrdered slots
IsOrdered (waiting ∷ slots) = IsIdle slots
IsOrdered (inside ∷ slots) = IsIdle slots

IsIdle-IsOrdered : (slots : List Slot) → IsIdle slots → IsOrdered slots
IsIdle-IsOrdered [] h = tt
IsIdle-IsOrdered (released ∷ slots) (e, h) = IsIdle-IsOrdered slots h
IsIdle-IsOrdered (waiting ∷ slots) (e, h) = h
IsIdle-IsOrdered (inside ∷ slots) (e, h) = h

-- A slot that is not entered.
abbrev IsExit : (Slot → Slot) → Type 0
IsExit f = (s : Slot) → is_outside s ≡ true → is_outside (f s) ≡ true

give_up-IsExit : IsExit give_up
give_up-IsExit waiting h = refl
give_up-IsExit inside h = h
give_up-IsExit released h = refl

leave-IsExit : IsExit leave
leave-IsExit waiting h = refl
leave-IsExit inside h = refl
leave-IsExit released h = refl

update-IsIdle :
    (f : Slot → Slot) (i : ℕ) (slots : List Slot)
    → IsExit f
    → IsIdle slots
    → IsIdle (update i f slots)
update-IsIdle f i [] x h = tt
update-IsIdle f zero (s ∷ slots) x (e, h) = (x s e, h)
update-IsIdle f (suc i) (s ∷ slots) x (e, h) = (e, update-IsIdle f i slots x h)

append-IsOrdered :
    (slots : List Slot) (s : Slot)
    → is_outside s ≡ true
    → IsOrdered slots
    → IsOrdered (slots ++ (s ∷ []))
append-IsOrdered [] s e h = IsIdle-IsOrdered (s ∷ []) (e, tt)
append-IsOrdered (released ∷ slots) s e h = append-IsOrdered slots s e h
append-IsOrdered (waiting ∷ slots) s e h = All-append _ slots (s ∷ []) h (e, tt)
append-IsOrdered (inside ∷ slots) s e h = All-append _ slots (s ∷ []) h (e, tt)

give_up-IsOrdered :
    (i : ℕ) (slots : List Slot) → IsOrdered slots → IsOrdered (update i give_up slots)
give_up-IsOrdered i [] h = tt
give_up-IsOrdered zero (waiting ∷ slots) h = IsIdle-IsOrdered slots h
give_up-IsOrdered zero (inside ∷ slots) h = h
give_up-IsOrdered zero (released ∷ slots) h = h
give_up-IsOrdered (suc i) (released ∷ slots) h = give_up-IsOrdered i slots h
give_up-IsOrdered (suc i) (waiting ∷ slots) h = update-IsIdle give_up i slots give_up-IsExit h
give_up-IsOrdered (suc i) (inside ∷ slots) h = update-IsIdle give_up i slots give_up-IsExit h

leave-IsOrdered : (i : ℕ) (slots : List Slot) → IsOrdered slots → IsOrdered (update i leave slots)
leave-IsOrdered i [] h = tt
leave-IsOrdered zero (waiting ∷ slots) h = h
leave-IsOrdered zero (inside ∷ slots) h = IsIdle-IsOrdered slots h
leave-IsOrdered zero (released ∷ slots) h = h
leave-IsOrdered (suc i) (released ∷ slots) h = leave-IsOrdered i slots h
leave-IsOrdered (suc i) (waiting ∷ slots) h = update-IsIdle leave i slots leave-IsExit h
leave-IsOrdered (suc i) (inside ∷ slots) h = update-IsIdle leave i slots leave-IsExit h

enter-IsOrdered :
    (i : ℕ) (slots : List Slot)
    → is_free i slots ≡ true
    → IsOrdered slots
    → IsOrdered (update i enter slots)
enter-IsOrdered i [] e h = tt
enter-IsOrdered zero (waiting ∷ slots) e h = h
enter-IsOrdered zero (inside ∷ slots) e h = h
enter-IsOrdered zero (released ∷ slots) e h = h
enter-IsOrdered (suc i) (released ∷ slots) e h = enter-IsOrdered i slots e h
enter-IsOrdered (suc i) (waiting ∷ slots) e h = cc
enter-IsOrdered (suc i) (inside ∷ slots) e h = cc

go_on-IsOrdered :
    (i : ℕ) (aborted : Bool) (slots : List Slot)
    → IsOrdered slots
    → IsOrdered (go_on i aborted slots)
unfolding go_on
go_on-IsOrdered i true slots h = if_both IsOrdered (is_free i slots) (give_up-IsOrdered i slots h) h
go_on-IsOrdered i false slots h =
    if_split IsOrdered (is_free i slots) (λ e. enter-IsOrdered i slots e h) (λ _. h)

acquire-IsOrdered :
    (aborted : Bool) (slots : List Slot) → IsOrdered slots → IsOrdered (acquire aborted slots)
unfolding acquire
acquire-IsOrdered true slots h = append-IsOrdered slots released refl h
acquire-IsOrdered false slots h = append-IsOrdered slots waiting refl h

step-IsOrdered : (slots : List Slot) (e : Event) → IsOrdered slots → IsOrdered (step slots e)
unfolding step
step-IsOrdered slots (call aborted) h = acquire-IsOrdered aborted slots h
step-IsOrdered slots (predecessor_resolved i aborted) h = go_on-IsOrdered i aborted slots h
step-IsOrdered slots (abort i) h = give_up-IsOrdered i slots h
step-IsOrdered slots (settle i) h = leave-IsOrdered i slots h

steps-IsOrdered :
    (slots : List Slot) (es : List Event) → IsOrdered slots → IsOrdered (steps slots es)
unfolding steps
steps-IsOrdered slots [] h = h
steps-IsOrdered slots (e ∷ es) h = steps-IsOrdered (step slots e) es (step-IsOrdered slots e h)

-- What a caller that runs knows: every earlier slot is released and no other caller runs.
abbrev pub IsAlone : ℕ → List Slot → Type 0
IsAlone i slots = (is_free i slots ≡ true) × ((j : ℕ) → get_elem? slots j ≡ some inside → j ≡ i)

idle≢inside : (slots : List Slot) (j : ℕ) → IsIdle slots → ¬ (get_elem? slots j ≡ some inside)
idle≢inside [] j h e = cc
idle≢inside (waiting ∷ slots) zero h e = cc
idle≢inside (inside ∷ slots) zero (o, h) e = cc
idle≢inside (released ∷ slots) zero h e = cc
idle≢inside (s ∷ slots) (suc j) (o, h) e = idle≢inside slots j h e

only_first :
    (slots : List Slot) (j : ℕ) → IsIdle slots → get_elem? (inside ∷ slots) j ≡ some inside → j ≡ 0
only_first slots zero h e = refl
only_first slots (suc j) h e = absurd (idle≢inside slots j h e)

shifted :
    (slots : List Slot) (i j : ℕ)
    → ((k : ℕ) → get_elem? slots k ≡ some inside → k ≡ i)
    → get_elem? (released ∷ slots) j ≡ some inside
    → j ≡ suc i
shifted slots i zero only e = cc
shifted slots i (suc j) only e = ap suc (only j e)

inside-IsAlone :
    (slots : List Slot) (i : ℕ)
    → IsOrdered slots
    → get_elem? slots i ≡ some inside
    → IsAlone i slots
inside-IsAlone [] i h e = cc
inside-IsAlone (released ∷ slots) zero h e = cc
inside-IsAlone (waiting ∷ slots) zero h e = cc
inside-IsAlone (inside ∷ slots) zero h e = (refl, λ j. only_first slots j h)
inside-IsAlone (released ∷ slots) (suc i) h e =
    let (free, only) = inside-IsAlone slots i h e in (free, λ j. shifted slots i j only)
inside-IsAlone (waiting ∷ slots) (suc i) h e = absurd (idle≢inside slots i h e)
inside-IsAlone (inside ∷ slots) (suc i) h e = absurd (idle≢inside slots i h e)

-- Whatever the callers do, while one holds the admission every earlier caller has released it, and
-- no other caller holds it.
pub steps-IsAlone :
    (es : List Event) (i : ℕ) → get_elem? (steps [] es) i ≡ some inside → IsAlone i (steps [] es)
steps-IsAlone es i e = inside-IsAlone (steps [] es) i (steps-IsOrdered [] es tt) e
