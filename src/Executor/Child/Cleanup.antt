-- ===== src/Executor/Child/Cleanup.antt =====
-- packages/qvac-executor/src/child-runner.ts: the `finally` block finds a failed cleanup exactly
-- where one of the calls that it owes does not succeed.
use qvac_atlas.Base.{
  ◌≡◌, ◌≢◌, refl, ap, Bool, true, false, not, ◌&&◌, ◌||◌, Option, none, some, String, and_true,
}
use qvac_atlas.Json.{str}
use qvac_atlas.Executor.Child.{
  Surroundings, Artifact, Tried, is_some, cleanup_failed, unload_model, close,
}
use qvac_atlas.Executor.Child.Fate.{Reaches, Cleans, IsCleaned}

-- How far the loading came: what the `finally` block reads off the variables.
pub data Stage (w : Surroundings) (t : Tried) : Type 0 where
  early : ((a : Artifact) → ¬ Reaches w a) → t.path_exposed ≡ false → t.model_id ≡ none → Stage w t
  unnamed :
      (a : Artifact)
      → Reaches w a
      → ((m : String) → w.loaded ≢ some (str m))
      → t.path_exposed && is_some t.artifact ≡ true
      → t.model_id ≡ none
      → Stage w t
  named :
      (a : Artifact) (m : String)
      → Reaches w a
      → w.loaded ≡ some (str m)
      → t.path_exposed && is_some t.artifact ≡ true
      → is_some t.model_id ≡ true
      → Stage w t

but_not : (a b : Bool) → (a ≡ true → b ≡ true) → a && not b ≡ false
but_not true b h = ap not (h refl)
but_not false b h = refl

not_but : (a b : Bool) → a && not b ≡ false → a ≡ true → b ≡ true
not_but true true e h = refl
not_but true false e h = cc
not_but false b e h = cc

or_false : (a b : Bool) → a || b ≡ false → (a ≡ false) × (b ≡ false)
or_false false b e = (refl, e)
or_false true b e = cc

false_or : (a b : Bool) → a ≡ false → b ≡ false → a || b ≡ false
false_or a b e f = rw (e, f) refl

pub both : (a b : Bool) → a ≡ true → b ≡ true → a && b ≡ true
both a b e f = rw (e, f) refl

nothing {ℓ} : {A : Type ℓ} (o : Option A) → o ≡ none → is_some o ≢ true
nothing none e h = cc
nothing (some a) e h = cc

module _ (w : Surroundings) (t : Tried) where
  -- The three tests of the block, each as what it owes.
  abbrev Owes : Type 0
  Owes =
      (w.sdk && is_some t.model_id ≡ true → w.is_function unload_model 1 && w.unloads ≡ true)
      × (w.sdk ≡ true → w.is_function close 1 && w.closes ≡ true)
      × (t.path_exposed && is_some t.artifact ≡ true → w.is_valid 1 ≡ true)

  owed : cleanup_failed w t ≡ false → Owes
  owed e =
      let (front, valid) = or_false _ _ e in
      let (unloaded, closed) = or_false _ _ front in
      (not_but _ _ unloaded, not_but _ _ closed, not_but _ _ valid)

  paid : Owes → cleanup_failed w t ≡ false
  paid (unloads, closes, valid) =
      false_or _ _ (false_or _ _ (but_not _ _ unloads) (but_not _ _ closes)) (but_not _ _ valid)

  Owes-Cleans : Stage w t → Owes → Cleans w
  Owes-Cleans (early far _ _) (_, closes, _) = (
    λ a m reach _. absurd (far a reach),
    λ e. and_true _ _ (closes e),
    λ a reach. absurd (far a reach),
  )
  Owes-Cleans (unnamed _ _ other exposed _) (_, closes, valid) =
      (λ a m _ e. absurd (other m e), λ e. and_true _ _ (closes e), λ a _. valid exposed)
  Owes-Cleans (named _ _ ((_, sdk, _), _, _) _ exposed model) (unloads, closes, valid) = (
    λ a m _ _. and_true _ _ (unloads (both _ _ sdk model)),
    λ e. and_true _ _ (closes e),
    λ a _. valid exposed,
  )

  unloading :
      t.model_id ≡ none
      → w.sdk && is_some t.model_id ≡ true
      → w.is_function unload_model 1 && w.unloads ≡ true
  unloading e h = absurd (nothing t.model_id e (and_true _ _ h).1)

  closing :
      (w.sdk ≡ true → (w.is_function close 1 ≡ true) × (w.closes ≡ true))
      → w.sdk ≡ true
      → w.is_function close 1 && w.closes ≡ true
  closing h e = let (c, d) = h e in both _ _ c d

  Cleans-Owes : Stage w t → Cleans w → Owes
  Cleans-Owes (early _ hidden none_yet) (_, closes, _) =
      (unloading none_yet, closing closes, λ h. let (shown, _) = and_true t.path_exposed _ h in cc)
  Cleans-Owes (unnamed a reach _ _ none_yet) (_, closes, valid) =
      (unloading none_yet, closing closes, λ _. valid a reach)
  Cleans-Owes (named a m reach loaded _ _) (unloads, closes, valid) = (
    λ _. let (u, v) = unloads a m reach loaded in both _ _ u v,
    closing closes,
    λ _. valid a reach,
  )

  IsCleaned-if : (b : Bool) → (b ≡ false → Cleans w) → (Cleans w → b ≡ false) → IsCleaned w b
  IsCleaned-if true f g = λ h. let e = g h in cc
  IsCleaned-if false f g = f refl

  pub cleanup_failed-IsCleaned : Stage w t → IsCleaned w (cleanup_failed w t)
  cleanup_failed-IsCleaned s =
      IsCleaned-if _ (λ e. Owes-Cleans s (owed e)) (λ h. paid (Cleans-Owes s h))
