-- ===== src/Executor/Child/Answers.antt =====
-- packages/qvac-executor/src/child-runner.ts: the tests of the answers from outside, each as what
-- it says of the answer.
use mathlib.Core.Path.{subst}
use qvac_atlas.Base.{
  ◌≡◌, ◌≢◌, refl, sym, ap, ◌∙◌, Bool, true, false, ◌&&◌, Option, none, some, String, and_true,
  text_eq-true, text_eq, eq_refl, ◌=ₜ◌, Bool-cases, inl, inr, if◌then◌else◌,
}
use qvac_atlas.Json.{Value, str, bool, obj, Fields, get, is_text, record_of}
use qvac_atlas.Executor.Child.{
  Surroundings, SdkFunction, heartbeat, load_model, get_loaded_model_info, completion, unload_model,
  close, Artifact, has_functions, loaded_text, is_loaded_info, is_false, matches, describe,
  has_content, final_content, final_device, content_of, device_in, device_of,
}
use qvac_atlas.Executor.Child.Fate.{Loads, Completes, Names}

pub fails_test : (b : Bool) → b ≡ false → b ≢ true
fails_test b e h = cc

pub none_some : {A : Type 0} {a : A} → none ≢ some a
none_some e = cc

some_inj : {A : Type 0} {a b : A} → some a ≡ some b → a ≡ b
some_inj e = cc

str_inj : {s t : String} → str s ≡ str t → s ≡ t
str_inj e = cc

obj_inj : {s t : Fields} → obj s ≡ obj t → s ≡ t
obj_inj e = cc

six :
    (a b c d e f : Bool)
    → a && b && c && d && e && f ≡ true
    → (a ≡ true) × (b ≡ true) × (c ≡ true) × (d ≡ true) × (e ≡ true) × (f ≡ true)
six true true true true true f h = (refl, refl, refl, refl, refl, h)
six true true true true false f h = cc
six true true true false e f h = cc
six true true false d e f h = cc
six true false c d e f h = cc
six false b c d e f h = cc

module _ (w : Surroundings) where
  pub has_functions-all : has_functions w ≡ true → (f : SdkFunction) → w.is_function f 0 ≡ true
  has_functions-all e f =
      let (beats, loads, describes, completes, unloads, closes) =
        six (w.is_function heartbeat 0) (w.is_function load_model 0)
          (w.is_function get_loaded_model_info 0) (w.is_function completion 0)
          (w.is_function unload_model 0) (w.is_function close 0) e in
      elim f as (λ g. w.is_function g 0 ≡ true) [
        | heartbeat ↦ beats
        | load_model ↦ loads
        | get_loaded_model_info ↦ describes
        | completion ↦ completes
        | unload_model ↦ unloads
        | close ↦ closes
      ]

  pub all-has_functions : ((f : SdkFunction) → w.is_function f 0 ≡ true) → has_functions w ≡ true
  all-has_functions h =
      rw (h heartbeat, h load_model, h get_loaded_model_info, h completion, h unload_model, h close)
        refl

  text_of_loaded : (o : Option Value) (m : String) → loaded_text o ≡ some m → o ≡ some (str m)
  text_of_loaded (some (str s)) m e = ap (λ t. some (str t)) (some_inj e)
  text_of_loaded (some _) m e = cc
  text_of_loaded none m e = cc

  pub loaded_text-some : (m : String) → loaded_text w.loaded ≡ some m → w.loaded ≡ some (str m)
  loaded_text-some m e = text_of_loaded w.loaded m e

  pub loaded_text-none : loaded_text w.loaded ≡ none → (m : String) → w.loaded ≢ some (str m)
  loaded_text-none e m h = none_some (sym e ∙ ap loaded_text h)

is_text-str : (v : Value) (s : String) → is_text v s ≡ true → v ≡ str s
is_text-str (str t) s e = ap str (text_eq-true t s e)
is_text-str _ s e = cc

str-is_text : (v : Value) (s : String) → v ≡ str s → is_text v s ≡ true
str-is_text v s e = rw e (eq_refl s)

is_false-false : (v : Value) → is_false v ≡ true → v ≡ bool false
is_false-false (bool false) e = refl
is_false-false (bool true) e = cc
is_false-false _ e = cc

module _ (w : Surroundings) (a : Artifact) where
  -- A description of a model of that name, from the artifact.
  abbrev IsDescription : String → Option Value → Type 0
  IsDescription m o =
      (fs : Fields) × (o ≡ some (obj fs))
      × (get fs "modelId" ≡ str m)
      × (get fs "isDelegated" ≡ bool false)
      × (get fs "modelType" ≡ str a.engine)
      × (get fs "path" ≡ str a.canonical_path)

  described : (m : String) (o : Option Value) → matches o m a ≡ true → IsDescription m o
  unfolding is_loaded_info record_of
  described m none e = cc
  described m (some (obj fs)) e =
      let (e, path) = and_true _ _ e in
      let (e, type) = and_true _ _ e in
      let (id, own) = and_true _ _ e in
      (
        fs,
        refl,
        is_text-str _ _ id,
        is_false-false _ own,
        is_text-str _ _ type,
        is_text-str _ _ path,
      )
  described m (some _) e = cc

  describes : (m : String) (o : Option Value) → IsDescription m o → matches o m a ≡ true
  unfolding is_loaded_info record_of
  describes m o (fs, e, id, own, type, path) =
      rw (e, str-is_text _ _ id, own, str-is_text _ _ type, str-is_text _ _ path) refl

  pub matches-Loads :
      (m : String)
      → matches (describe w m) m a ≡ true
      → (w.is_function get_loaded_model_info 1 ≡ true) × IsDescription m (w.info m)
  matches-Loads m e = elim (Bool-cases (w.is_function get_loaded_model_info 1)) [
    | inl callable ↦ (callable, described m (w.info m) (rw callable at e))
    | inr missing ↦ let bad : false ≡ true = rw missing at e in cc
  ]

  pub blank_fails : (m n : String) → w.loaded ≡ some (str m) → w.is_blank m ≡ true → ¬ Loads w a n
  blank_fails m n e blank (loaded, filled, _, _) =
      let same : m ≡ n = str_inj (some_inj (sym e ∙ loaded)) in
      fails_test _ filled (rw⁻¹ same blank)

  pub unmatched_fails :
      (m n : String) → w.loaded ≡ some (str m) → matches (describe w m) m a ≡ false → ¬ Loads w a n
  unmatched_fails m n e bad (loaded, _, callable, known) =
      let same : n ≡ m = str_inj (some_inj (sym loaded ∙ e)) in
      let told : IsDescription m (w.info m) = subst (λ k. IsDescription k (w.info k)) same known in
      fails_test _ (rw callable at bad) (describes m (w.info m) told)

module _ (w : Surroundings) where
  content-str : (v : Value) (s : String) → content_of v ≡ some s → v ≡ str s
  content-str (str t) s e = ap str (some_inj e)
  content-str _ s e = cc

  filled_of :
      (v : Value)
      → has_content w (content_of v) ≡ true
      → (content : String) × (v ≡ str content) × (w.is_blank content ≡ false)
  filled_of (str s) e = elim (Bool-cases (w.is_blank s)) [
    | inl blank ↦ let bad : false ≡ true = rw blank at e in cc
    | inr filled ↦ (s, refl, filled)
  ]
  filled_of _ e = cc

  completed_of :
      (o : Option Value)
      → has_content w (final_content o) ≡ true
      → (fs : Fields) × (o ≡ some (obj fs))
        × ((content : String) × (get fs "contentText" ≡ str content) × (w.is_blank content ≡ false))
  completed_of (some (obj fs)) e = (fs, refl, filled_of (get fs "contentText") e)
  completed_of (some _) e = cc
  completed_of none e = cc

  device_in-Names :
      (fs stats : Fields) (v : Value)
      → get fs "stats" ≡ obj stats
      → get stats "backendDevice" ≡ v
      → Names fs (device_in v)
  device_in-Names fs stats (str s) e d = elim (Bool-cases (s =ₜ "cpu")) [
    | inl is_cpu ↦ rw is_cpu (stats, e, d ∙ ap str (text_eq-true s "cpu" is_cpu))
    | inr no_cpu ↦ elim (Bool-cases (s =ₜ "gpu")) [
      | inl is_gpu ↦ rw (no_cpu, is_gpu) (stats, e, d ∙ ap str (text_eq-true s "gpu" is_gpu))
      | inr no_gpu ↦
          rw (no_cpu, no_gpu)
            (λ other f.
              let same = obj_inj (sym f ∙ e) in
              let named : get other "backendDevice" ≡ str s =
                ap (λ k. get k "backendDevice") same ∙ d in
              (
                λ h. fails_test _ no_cpu (text_eq s "cpu" (str_inj (sym named ∙ h))),
                λ h. fails_test _ no_gpu (text_eq s "gpu" (str_inj (sym named ∙ h))),
              ))
    ]
  ]
  device_in-Names fs stats v e d = λ other f.
      let same = obj_inj (sym f ∙ e) in
      let named : get other "backendDevice" ≡ v = ap (λ k. get k "backendDevice") same ∙ d in
      (λ h. cc, λ h. cc)

  device_of-Names : (fs : Fields) (v : Value) → get fs "stats" ≡ v → Names fs (device_of v)
  device_of-Names fs (obj stats) e = device_in-Names fs stats _ e refl
  device_of-Names fs _ e = λ stats f. cc

  final_device-Names :
      (o : Option Value) (fs : Fields) → o ≡ some (obj fs) → Names fs (final_device o)
  final_device-Names o fs e = rw e (device_of-Names fs (get fs "stats") refl)

  pub has_content-Completes :
      (m : String)
      → has_content w (final_content (if w.is_function completion 1 then w.completed m else none))
        ≡ true
      → (fs : Fields) × Completes w m fs
        × Names fs (final_device (if w.is_function completion 1 then w.completed m else none))
  has_content-Completes m e = elim (Bool-cases (w.is_function completion 1)) [
    | inl callable ↦
        let (fs, known, filled) = completed_of (w.completed m) (rw callable at e) in
        (
          fs,
          (callable, known, filled),
          subst (λ b. Names fs (final_device (if b then w.completed m else none))) (sym callable)
              (final_device-Names (w.completed m) fs known),
        )
    | inr missing ↦ let bad : false ≡ true = rw missing at e in cc
  ]

  pub Completes-has_content :
      (m : String) (fs : Fields)
      → Completes w m fs
      → has_content w (final_content (if w.is_function completion 1 then w.completed m else none))
        ≡ true
  Completes-has_content m fs (callable, known, (content, said, filled)) =
      rw (callable, known, said, filled) refl
