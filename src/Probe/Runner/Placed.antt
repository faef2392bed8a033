-- ===== src/Probe/Runner/Placed.antt =====
-- packages/probe/src/runner.ts: where the one backend event and the inference phases stand in the
-- events.
use mathlib.Core.Path.{subst}
use mathlib.Core.List.{Memᴰ}
use mathlib.Core.List.Memᴰ.{head, tail}
use qvac_atlas.Base.{
  Bool-cases, inl, inr, ℕ, suc, ◌<◌, arith, refl, sym, ap, ◌∙◌, ◌=ₜ◌, ◌≡◌, ◌⊎◌, Bool, true, false,
  ◌||◌, Option, none, some, List, [], ◌∷◌, ◌++◌, length, any, String, leb, eq_refl, text_eq-true,
  and_true,
}
use qvac_atlas.Json.{Value}
use qvac_atlas.Probe.Runner.{
  attempted, is_inference, is_backend, next_index, find_index, too_early, backends_of, phases_of,
}
use qvac_atlas.Probe.Runner.Events.{RunnerEvent, phase, backend, termination, result}

-- A list with one backend event, taken apart at it.
abbrev IsSplit : List RunnerEvent → Type 0
IsSplit es =
    (before after : List RunnerEvent) × (b : Value) × (es ≡ before ++ backend b ∷ after)
    × (backends_of es ≡ b ∷ [])
    × (backends_of before ≡ [])
    × (backends_of after ≡ [])

empty : (bs : List Value) → length bs ≡ 0 → bs ≡ []
empty [] e = refl
empty (b ∷ bs) e = absurd (omega (arith, e))

later :
    (e : RunnerEvent) (es : List RunnerEvent)
    → ((fs : List RunnerEvent) → backends_of (e ∷ fs) ≡ backends_of fs)
    → IsSplit es
    → IsSplit (e ∷ es)
later e es skip (before, after, b, placed, named, front, back) =
    (e ∷ before, after, b, ap (λ fs. e ∷ fs) placed, skip es ∙ named, skip before ∙ front, back)

pub split_one : (es : List RunnerEvent) → length (backends_of es) ≡ 1 → IsSplit es
unfolding backends_of
split_one [] e = absurd (omega (arith, e))
split_one (backend b ∷ es) e =
    let rest = empty (backends_of es) (omega (arith, e)) in
    ([], es, b, refl, ap (λ bs. b ∷ bs) rest, refl, rest)
split_one (phase n s d ∷ es) e = later _ es (λ fs. refl) (split_one es e)
split_one (termination k x s l ∷ es) e = later _ es (λ fs. refl) (split_one es e)
split_one (result w c f ∷ es) e = later _ es (λ fs. refl) (split_one es e)

-- An inference phase that passed or failed.
abbrev IsTried : List RunnerEvent → Type 0
IsTried es =
    (status : String) × (duration : Value) × Memᴰ (phase "inference" status duration) es
    × ((status ≡ "passed") ⊎ (status ≡ "failed"))

next : (e : RunnerEvent) (es : List RunnerEvent) → IsTried es → IsTried (e ∷ es)
next e es (s, d, at, h) = (s, d, tail at, h)

either : (s t u : String) → s =ₜ t || s =ₜ u ≡ true → (s ≡ t) ⊎ (s ≡ u)
either s t u e = elim (Bool-cases (s =ₜ t)) [
  | inl first ↦ inl (text_eq-true s t first)
  | inr other ↦ inr (text_eq-true s u (rw other at e))
]

pub attempted-Memᴰ : (es : List RunnerEvent) → any attempted (phases_of es) ≡ true → IsTried es
unfolding phases_of
attempted-Memᴰ [] e = cc
attempted-Memᴰ (phase n s d ∷ es) e =
    elim (Bool-cases (attempted (record { name = n; status = s; duration_ms = d }))) [
      | inl this ↦
          let (named, ended) = and_true _ _ this in
          (s, d, head (ap (λ m. phase m s d) (sym (text_eq-true _ _ named))), either _ _ _ ended)
      | inr other ↦ next _ es (attempted-Memᴰ es (rw other at e))
    ]
attempted-Memᴰ (backend b ∷ es) e = next _ es (attempted-Memᴰ es e)
attempted-Memᴰ (termination k x s l ∷ es) e = next _ es (attempted-Memᴰ es e)
attempted-Memᴰ (result w c f ∷ es) e = next _ es (attempted-Memᴰ es e)

-- The first backend event comes where the events before it end.
find_index-backend :
    (before after : List RunnerEvent) (b : Value)
    → backends_of before ≡ []
    → find_index is_backend (before ++ backend b ∷ after) ≡ some (length before)
unfolding find_index backends_of
find_index-backend [] after b e = refl
find_index-backend (backend c ∷ es) after b e = cc
find_index-backend (phase n s d ∷ es) after b e = ap next_index (find_index-backend es after b e)
find_index-backend (termination k x s l ∷ es) after b e =
    ap next_index (find_index-backend es after b e)
find_index-backend (result w c f ∷ es) after b e = ap next_index (find_index-backend es after b e)

-- A member that passes is found.
find_index-some :
    (p : RunnerEvent → Bool) (e : RunnerEvent) (es : List RunnerEvent)
    → p e ≡ true
    → Memᴰ e es
    → (i : ℕ) × (find_index p es ≡ some i)
unfolding find_index
find_index-some p e [] h at = elim at [ ]
find_index-some p e (x ∷ es) h (head same) =
    let here : p x ≡ true = ap p (sym same) ∙ h in (0, rw here refl)
find_index-some p e (x ∷ es) h (tail at) = elim (Bool-cases (p x)) [
  | inl this ↦ (0, rw this refl)
  | inr other ↦ let (i, found) = find_index-some p e es h at in (suc i, rw (other, found) refl)
]

next_index-inv :
    (o : Option ℕ) (i : ℕ) → next_index o ≡ some i → (j : ℕ) × (o ≡ some j) × (i ≡ suc j)
next_index-inv none i e = cc
next_index-inv (some j) i e = (j, refl, cc)

-- What is found within the front of a list is a member of the front.
find_index-front :
    (p : RunnerEvent → Bool) (xs ys : List RunnerEvent) (i : ℕ)
    → find_index p (xs ++ ys) ≡ some i
    → i < length xs
    → (x : RunnerEvent) × Memᴰ x xs × (p x ≡ true)
unfolding find_index
find_index-front p [] ys i e l = absurd (omega (arith, l))
find_index-front p (x ∷ xs) ys i e l = elim (Bool-cases (p x)) [
  | inl this ↦ (x, head refl, this)
  | inr other ↦
      let (j, found, same) = next_index-inv _ i (rw other at e) in
      let (y, at, h) = find_index-front p xs ys j found (omega (arith, l, same)) in (y, tail at, h)
]

is_inference-phase :
    (x : RunnerEvent)
    → is_inference x ≡ true
    → (status : String) × (duration : Value) × (x ≡ phase "inference" status duration)
is_inference-phase (phase n s d) e = (s, d, ap (λ m. phase m s d) (text_eq-true n "inference" e))
is_inference-phase (backend b) e = cc
is_inference-phase (termination k x s l) e = cc
is_inference-phase (result w c f) e = cc

pub early_inference :
    (before after : List RunnerEvent) (b : Value) (status : String) (duration : Value)
    → backends_of before ≡ []
    → Memᴰ (phase "inference" status duration) (before ++ backend b ∷ after)
    → too_early
        (find_index is_backend (before ++ backend b ∷ after))
        (find_index is_inference (before ++ backend b ∷ after))
      ≡ false
    → (s : String) × (d : Value) × Memᴰ (phase "inference" s d) before
early_inference before after b status duration front at order =
    let (i, found) =
      find_index-some is_inference _ (before ++ backend b ∷ after) (eq_refl "inference") at in
    let late : leb (length before) i ≡ false =
      rw (find_index-backend before after b front, found) at order in
    let (x, there, h) = find_index-front is_inference before _ i found (ground arith) in
    let (s, d, same) = is_inference-phase x h in (s, d, subst (λ y. Memᴰ y before) same there)
