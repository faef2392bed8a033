-- ===== src/Relay/Admission/Progress.antt =====
-- The admissions never lock up: the callers' turns, in order, release them all.
use qvac_atlas.Base.{
  ℕ, zero, suc, ◌≡◌, refl, sym, ap, ◌∙◌, true, false, List, [], ◌∷◌, ◌++◌, map, length,
  length-append, arith,
}
use qvac_atlas.Relay.Admission.{
  Slot, waiting, inside, released, Event, predecessor_resolved, settle, is_free, update, enter,
  leave, go_on, step, steps,
}

-- For each of n callers from the i-th on: its predecessor has resolved, then its work is settled.
abbrev pub turns : ℕ → ℕ → List Event
turns i zero = []
turns i (suc n) = predecessor_resolved i false ∷ settle i ∷ turns (suc i) n

abbrev pub released_all : List Slot → List Slot
released_all = map (λ _. released)

is_free-released_all :
    (done rest : List Slot) → is_free (length done) (released_all done ++ rest) ≡ true
is_free-released_all [] rest = refl
is_free-released_all (s ∷ done) rest = is_free-released_all done rest

update-released_all :
    (f : Slot → Slot) (done rest : List Slot) (s : Slot)
    → update (length done) f (released_all done ++ (s ∷ rest)) ≡ released_all done ++ (f s ∷ rest)
update-released_all f [] rest s = refl
update-released_all f (d ∷ done) rest s =
    ap (λ slots. released ∷ slots) (update-released_all f done rest s)

leave-enter : (s : Slot) → leave (enter s) ≡ released
leave-enter waiting = refl
leave-enter inside = refl
leave-enter released = refl

move_over :
    (done rest : List Slot) (s : Slot)
    → released_all done ++ (released ∷ rest) ≡ released_all (done ++ (s ∷ [])) ++ rest
move_over [] rest s = refl
move_over (d ∷ done) rest s = ap (λ slots. released ∷ slots) (move_over done rest s)

turn-released_all :
    (done rest : List Slot) (s : Slot)
    → update (length done) leave (go_on (length done) false (released_all done ++ (s ∷ rest)))
      ≡ released_all done ++ (released ∷ rest)
unfolding go_on
turn-released_all done rest s =
    rw
      (
        is_free-released_all done (s ∷ rest),
        update-released_all enter done rest s,
        update-released_all leave done rest (enter s),
        leave-enter s,
      )
      refl

one_more : (done : List Slot) (s : Slot) → suc (length done) ≡ length (done ++ (s ∷ []))
one_more done s = omega (arith, length-append done (s ∷ []))

steps-turns_from :
    (done rest : List Slot)
    → steps (released_all done ++ rest) (turns (length done) (length rest))
      ≡ released_all done ++ released_all rest
unfolding steps step
steps-turns_from done [] = refl
steps-turns_from done (s ∷ rest) =
    ap (λ slots. steps slots (turns (suc (length done)) (length rest)))
      (turn-released_all done rest s ∙ move_over done rest s)
    ∙ ap (λ n. steps (released_all (done ++ (s ∷ [])) ++ rest) (turns n (length rest)))
        (one_more done s)
    ∙ steps-turns_from (done ++ (s ∷ [])) rest
    ∙ sym (move_over done (released_all rest) s)

-- From any state of the admissions, the callers' turns in the order of their calls, each resumed
-- and then settled, release all of them.
pub steps-turns : (slots : List Slot) → steps slots (turns 0 (length slots)) ≡ released_all slots
steps-turns slots = steps-turns_from [] slots
