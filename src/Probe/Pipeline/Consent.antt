-- ===== src/Probe/Pipeline/Consent.antt =====
-- The calls of a run of the pipeline, in the order of their gates.
use qvac_atlas.Base.{String, ◌≡◌, refl, true, [], ◌∷◌}
use qvac_atlas.Json.{Value, bool}
use qvac_atlas.Probe.Pipeline.Session.{
  Call, preflight, disclose_privacy, decide_fingerprint, resolve, value, Log, Outside, Run, Step,
  go, done, Part, ◌>>=◌, bind_step, reach, guarded, decided,
}
use qvac_atlas.Probe.Pipeline.Steps.{vacant, open_session}
use qvac_atlas.Probe.Pipeline.Gates.{
  allows, IsGated, Holds, bind_step-Holds, reach-Holds, decided-Holds, check_signal-Holds,
  guarded-Holds,
}

-- The log lets a call be made next.
abbrev pub Next : Outside → Call → Log → Type 0
Next w c l = allows w c l ≡ true

module _ (w : Outside) where
  -- A part that leaves the log as it is, and then the rest.
  pub after :
      {A B : Type 0} (P : Log → Type 0) (Q : B → Log → Type 0) (log : Log) (m : Step A)
      (f : A → Part B)
      → Holds w (λ _ l. l ≡ log) m
      → P log
      → ((a : A) (r : Run) → IsGated w r.log → P r.log → Holds w Q (f a r))
      → Holds w Q (bind_step m f)
  after P Q log m f h p k = bind_step-Holds w (λ _ l. l ≡ log) Q m f h (λ a r g e. k a r g (rw e p))

  pub kept :
      {A : Type 0} (P : Log → Type 0) (log : Log) (m : Step A)
      → Holds w (λ _ l. l ≡ log) m
      → P log
      → Holds w (λ _ l. P l) m
  kept P log (go a r) (g, e) p = (g, rw e p)
  kept P log (done o r) h p = h

  pub reach_then :
      {B : Type 0} (P : Log → Type 0) (Q : B → Log → Type 0) (next : String) (r : Run)
      (f : Unit {0} → Part B)
      → IsGated w r.log
      → P r.log
      → ((a : Unit {0}) (s : Run) → IsGated w s.log → P s.log → Holds w Q (f a s))
      → Holds w Q (bind_step (reach next r) f)
  reach_then P Q next r f g p k = after P Q r.log (reach next r) f (reach-Holds w next r g) p k

  vacant-Holds :
      (v : Value) (r : Run)
      → IsGated w r.log
      → Holds w (λ _ l. (l ≡ r.log) × (v ≡ bool true)) (vacant v r)
  vacant-Holds (bool true) r g = (g, (refl, refl))
  vacant-Holds _ r g = (g, tt)

  -- A guarded call, a stage, and the rest.
  pub guarded_reach :
      {B : Type 0} (c : Call) (next : String) (Q : B → Log → Type 0) (r : Run)
      (f : Unit {0} → Part B)
      → IsGated w r.log
      → Next w c r.log
      → ((v : Value) (s : Run)
          → IsGated w s.log
          → s.log ≡ (c, value v) ∷ r.log
          → Holds w Q (f tt s))
      → Holds w Q (bind_step (guarded w c r) (λ _. reach next >>= f))
  guarded_reach c next Q r f g n k =
      bind_step-Holds w (λ v l. l ≡ (c, value v) ∷ r.log) Q _ _ (guarded-Holds w c r g n)
        (λ v s gs e.
          reach_then (λ l. l ≡ (c, value v) ∷ r.log) Q next s f gs e (λ _ t gt et. k v t gt et))

  -- A decision, its consent, a stage, and the rest.
  pub decision :
      {B : Type 0} (c : Call) (next : String) (Q : B → Log → Type 0) (r : Run)
      (f : Unit {0} → Part B)
      → IsGated w r.log
      → Next w c r.log
      → ((s : Run) → IsGated w s.log → s.log ≡ (c, value (bool true)) ∷ r.log → Holds w Q (f tt s))
      → Holds w Q (bind_step (guarded w c r) (λ v. decided v >>= λ _. reach next >>= f))
  decision c next Q r f g n k =
      bind_step-Holds w (λ v l. l ≡ (c, value v) ∷ r.log) Q _ _ (guarded-Holds w c r g n)
        (λ v s gs e.
          bind_step-Holds w (λ _ l. (l ≡ s.log) × (v ≡ bool true)) Q _ _ (decided-Holds w v s gs)
            (λ _ t gt (et, ev).
              reach_then (λ l. l ≡ (c, value (bool true)) ∷ r.log) Q next t f gt
                (rw (et, e, ev) refl) (λ _ u gu eu. k u gu eu)))

  pub open_session-Holds :
      (r : Run)
      → IsGated w r.log
      → r.log ≡ []
      → Holds w (λ _ l. Next w resolve l) (open_session w r)
  unfolding open_session
  open_session-Holds r g e =
      after (λ l. l ≡ []) _ r.log _ _ (check_signal-Holds w r g) e
        (λ _ s gs es.
          bind_step-Holds w (λ v l. l ≡ (preflight, value v) ∷ s.log) _ _ _
            (guarded-Holds w preflight s gs (rw es refl))
            (λ v t gt et.
              bind_step-Holds w (λ _ l. (l ≡ t.log) × (v ≡ bool true)) _ _ _ (vacant-Holds v t gt)
                (λ _ u gu (eu, ev).
                  reach_then (λ l. l ≡ (preflight, value (bool true)) ∷ s.log) _ "output-vacant" u _
                    gu (rw (eu, et, ev) refl)
                    (λ _ x gx ex.
                      guarded_reach disclose_privacy "privacy-disclosed" _ x _ gx (rw ex refl)
                        (λ v2 y gy ey.
                          bind_step-Holds w (λ v l. l ≡ (decide_fingerprint, value v) ∷ y.log) _ _ _
                            (guarded-Holds w decide_fingerprint y gy (rw ey refl))
                            (λ d z gz ez.
                              bind_step-Holds w (λ _ l. (l ≡ z.log) × (d ≡ bool true)) _ _ _
                                (decided-Holds w d z gz)
                                (λ _ a ga (ea, ed).
                                  kept (Next w resolve) a.log _
                                    (reach-Holds w "fingerprint-consented" a ga)
                                    (rw (ea, ez, ed) refl))))))))
