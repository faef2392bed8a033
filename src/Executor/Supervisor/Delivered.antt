-- ===== src/Executor/Supervisor/Delivered.antt =====
-- A whole run of accepted messages, from what the lifecycle makes of their events.
use qvac_atlas.Base.{
  ℕ, ◌+◌, ◌≤◌, ◌≡◌, refl, Bool, true, false, Option, none, some, List, [], ◌∷◌, ◌==◌, arith, length,
}
use mathlib.Core.Path.{subst}
use qvac_atlas.Executor.Protocol.{ChildEvent, sequence_of}
use qvac_atlas.Executor.Protocol.Laws.{message_of, parse_child_event-message_of}
use qvac_atlas.Executor.Lifecycle.{Lifecycle, advance}
use qvac_atlas.Executor.Supervisor.{Supervisor, default_executor_limits, Input, message, steps}
use qvac_atlas.Executor.Supervisor.Followed.{IsFollowed, message-IsFollowed}

-- The lifecycle after events that are numbered from `k` on and all accepted, none after its end.
abbrev may_advance : Bool → Bool → Option Lifecycle → Option Lifecycle
may_advance true false o = o
may_advance _ _ o = none

abbrev next_event : (times : ℕ → ℕ) (k : ℕ) → ChildEvent → Lifecycle → Option Lifecycle
next_event times k e l =
    may_advance (sequence_of e == k) l.lifecycle_terminal (advance e (times k) l)

abbrev pub then_follow : Option Lifecycle → (Lifecycle → Option Lifecycle) → Option Lifecycle
then_follow none f = none
then_follow (some l) f = f l

unfoldable pub follow : (ℕ → ℕ) → ℕ → List ChildEvent → Lifecycle → Option Lifecycle
unfolding advance
follow times k [] l = some l
follow times k (e ∷ es) l = then_follow (next_event times k e l) (follow times (k + 1) es)

record IsNext (times : ℕ → ℕ) (k : ℕ) (e : ChildEvent) (l m : Lifecycle) : Type 0 where
  numbered : sequence_of e ≡ k
  open_still : l.lifecycle_terminal ≡ false
  advanced : advance e (times k) l ≡ some m

may_advance-some :
    (b t : Bool) (o : Option Lifecycle) (m : Lifecycle)
    → may_advance b t o ≡ some m
    → (b ≡ true) × (t ≡ false) × (o ≡ some m)
may_advance-some true false o m h = (refl, refl, h)
may_advance-some true true o m h = cc
may_advance-some false t o m h = cc

same_number : (a b : ℕ) → (a == b) ≡ true → a ≡ b
same_number a b h = ground arith

next_event-IsNext :
    (times : ℕ → ℕ) (k : ℕ) (e : ChildEvent) (l m : Lifecycle)
    → next_event times k e l ≡ some m
    → IsNext times k e l m
next_event-IsNext times k e l m h =
    let (b, t, o) =
      may_advance-some (sequence_of e == k) l.lifecycle_terminal (advance e (times k) l) m h in
    record { numbered = same_number (sequence_of e) k b; open_still = t; advanced = o }

-- The inputs that deliver events, with the size and the time of each message.
abbrev pub deliver : (sizes times : ℕ → ℕ) → ℕ → List ChildEvent → List Input
deliver sizes times k [] = []
deliver sizes times k (e ∷ es) =
    message (message_of e) (some (sizes k)) (times k) ∷ deliver sizes times (k + 1) es

then_follow-some :
    (o : Option Lifecycle) (f : Lifecycle → Option Lifecycle) (l : Lifecycle)
    → then_follow o f ≡ some l
    → (m : Lifecycle) × (o ≡ some m) × (f m ≡ some l)
then_follow-some none f l h = cc
then_follow-some (some m) f l h = (m, refl, h)

module _ (sizes times : ℕ → ℕ) (small : (n : ℕ) → sizes n ≤ 1024) where
  -- Events that the lifecycle accepts one after the other, at most sixteen and none of a large size,
  -- are accepted by the supervisor.
  pub deliver-IsFollowed :
      (k n : ℕ) (es : List ChildEvent) (l l' : Lifecycle) (s : Supervisor)
      → IsFollowed k l s
      → n ≡ k + length es
      → n ≤ 16
      → follow times k es l ≡ some l'
      → IsFollowed n l' (steps default_executor_limits s (deliver sizes times k es))
  unfolding follow steps
  deliver-IsFollowed k n [] l l' s h count fit f =
      subst (λ i. IsFollowed i l' s) (omega (arith, count)) (subst (λ m. IsFollowed k m s) (cc) h)
  deliver-IsFollowed k n (e ∷ es) l l' s h count fit f =
      let (m, now, later) =
        then_follow-some (next_event times k e l) (follow times (k + 1) es) l' f in
      let i = next_event-IsNext times k e l m now in
      let seq : sequence_of e ≤ 9007199254740991 = omega (arith, i.numbered, count, fit) in
      deliver-IsFollowed (k + 1) n es m l' _
        (message-IsFollowed e (message_of e) (times k) (sizes k) k l m s h
          (parse_child_event-message_of e seq) i.numbered (small k) (omega (arith, count, fit))
          i.open_still i.advanced)
        (omega (arith, count)) fit later
