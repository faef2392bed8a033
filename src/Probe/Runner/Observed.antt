-- ===== src/Probe/Runner/Observed.antt =====
-- packages/probe/src/runner.ts: what an observed backend in the evidence rests on.
use mathlib.Core.Path.{subst}
use mathlib.Core.List.{Memᴰ}
use qvac_atlas.Base.{
  Bool-cases, inl, inr, suc, ℕ, arith, ltb, refl, ap, ◌∙◌, not, if◌then◌else◌, ◌=ₜ◌, ◌≡◌, ◌⊎◌, Bool,
  true, false, List, [], ◌∷◌, ◌++◌, length, any, String,
}
use qvac_atlas.Json.{Value, null}
use qvac_atlas.Probe.Runner.{
  RunnerEvidence, PhaseEvidence, Termination, Result, Outcome, evidence, thrown, all_parsed,
  assemble, collect, observation, rejected_evidence, attempted, is_inference, is_backend,
  find_index, too_early, backends_of, phases_of, or_null,
}
use qvac_atlas.Probe.Runner.Events.{RunnerEvent, phase, backend}
use qvac_atlas.Probe.Runner.Placed.{split_one, attempted-Memᴰ, early_inference}

-- What the tests leave: the phases are all of the events', one of them an attempted inference, and
-- the one backend is what is reported.
record IsTested (es : List RunnerEvent) (ps : List PhaseEvidence) (bs : List Value)
    (e : RunnerEvidence) : Type 0 where
  inferred : any attempted ps ≡ true
  one_backend : length bs ≡ 1
  in_order : too_early (find_index is_backend es) (find_index is_inference es) ≡ false
  phases : e.phases ≡ ps
  told : e.backend_observation ≡ observation bs true

abbrev says_observed : Outcome → Bool
says_observed (evidence e) = e.backend_observation.status =ₜ "observed"
says_observed thrown = false

observed-says :
    (o : Outcome) (e : RunnerEvidence)
    → o ≡ evidence e
    → e.backend_observation.status ≡ "observed"
    → says_observed o ≡ true
observed-says o e h s = rw (h, s) refl

unseen :
    (attempt early : Bool) (e : RunnerEvidence)
    → says_observed (
        if early
        then evidence rejected_evidence
        else evidence (record e { backend_observation = observation [] attempt }))
      ≡ true
    → ⊥
unfolding rejected_evidence observation
unseen true true e h = cc
unseen true false e h = cc
unseen false true e h = cc
unseen false false e h = cc

seen :
    (tried early : Bool) (b : Value) (x e : RunnerEvidence)
    → any attempted x.phases ≡ tried
    → (if not tried
        then evidence rejected_evidence
        else if early
        then evidence rejected_evidence
        else evidence (record x { backend_observation = observation (b ∷ []) tried }))
      ≡ evidence e
    → e.backend_observation.status ≡ "observed"
    → (any attempted x.phases ≡ true)
      × (early ≡ false)
      × (e.phases ≡ x.phases)
      × (e.backend_observation ≡ observation (b ∷ []) true)
unfolding rejected_evidence observation
seen true true b x e t h o = absurd (unseen true true x (observed-says _ e h o))
seen true false b x e t h o = (t, refl, cc, cc)
seen false early b x e t h o = absurd (unseen true true x (observed-says _ e h o))

rejected_unseen {ℓ} :
    {A : Type ℓ} (e : RunnerEvidence)
    → evidence rejected_evidence ≡ evidence e
    → e.backend_observation.status ≡ "observed"
    → A
rejected_unseen e h o = absurd (unseen true true e (observed-says _ e h o))

abbrev assembled : PhaseEvidence → List PhaseEvidence → Termination → Result → RunnerEvidence
assembled p ps t r = record {
  phases = p ∷ ps;
  backend_observation = record { status = ""; backend = null; method = "" };
  termination = t;
  result = r;
}

many_unseen {ℓ} :
    {A : Type ℓ} (n : ℕ) (x : Outcome) (e : RunnerEvidence)
    → (if ltb 1 (suc (suc n)) then evidence rejected_evidence else x) ≡ evidence e
    → e.backend_observation.status ≡ "observed"
    → A
many_unseen n x e h o = elim (Bool-cases (ltb 1 (suc (suc n)))) [
  | inl more ↦ rejected_unseen e (rw more at h) o
  | inr less ↦ absurd (ground arith)
]

assemble-IsTested :
    (es : List RunnerEvent) (ps : List PhaseEvidence) (bs : List Value) (ts : List Termination)
    (rs : List Result) (e : RunnerEvidence)
    → assemble es ps bs ts rs ≡ evidence e
    → e.backend_observation.status ≡ "observed"
    → IsTested es ps bs e
unfolding assemble rejected_evidence observation
assemble-IsTested es [] bs ts rs e h o = rejected_unseen e h o
assemble-IsTested es (p ∷ ps) bs [] rs e h o = rejected_unseen e h o
assemble-IsTested es (p ∷ ps) bs (t ∷ []) [] e h o = rejected_unseen e h o
assemble-IsTested es (p ∷ ps) [] (t ∷ []) (r ∷ []) e h o = absurd (
    unseen (any attempted (p ∷ ps))
      (too_early (find_index is_backend es) (find_index is_inference es)) (assembled p ps t r)
      (observed-says _ e h o))
assemble-IsTested es (p ∷ ps) (b ∷ []) (t ∷ []) (r ∷ []) e h o =
    let (i, f, p, q) =
      seen (any attempted (p ∷ ps))
        (too_early (find_index is_backend es) (find_index is_inference es)) b (assembled p ps t r) e
        refl h o in
    record { inferred = i; one_backend = refl; in_order = f; phases = p; told = q }
assemble-IsTested es (p ∷ ps) (b ∷ c ∷ bs) (t ∷ []) (r ∷ []) e h o = many_unseen (length bs) _ e h o
assemble-IsTested es (p ∷ ps) bs (t ∷ []) (r ∷ s ∷ rs) e h o = rejected_unseen e h o
assemble-IsTested es (p ∷ ps) bs (t ∷ u ∷ ts) rs e h o = rejected_unseen e h o

-- The events are some before the one backend event, that event, and some after it; an inference
-- phase stands before it; an inference phase passed or failed; and the backend, with null for an
-- undefined one, and the phases are what the evidence reports.
pub record IsObserved (es : List RunnerEvent) (e : RunnerEvidence) : Type 0 where
  pub before : List RunnerEvent
  pub after : List RunnerEvent
  pub value : Value
  pub placed : es ≡ before ++ backend value ∷ after
  pub alone : (backends_of before ≡ []) × (backends_of after ≡ [])
  pub preceded :
      (status : String) × (duration : Value) × Memᴰ (phase "inference" status duration) before
  pub tried :
      (status : String) × (duration : Value) × Memᴰ (phase "inference" status duration) es
      × ((status ≡ "passed") ⊎ (status ≡ "failed"))
  pub reported : e.backend_observation.backend ≡ or_null value
  pub phases : e.phases ≡ phases_of es

-- Evidence that says its backend was observed comes from events with exactly one backend event,
-- which an inference phase precedes, and one of whose inference phases passed or failed; the
-- evidence reports that backend, with null for an undefined one, and all the phases.
pub collect-IsObserved :
    (es : List RunnerEvent) (e : RunnerEvidence)
    → collect (all_parsed es) ≡ evidence e
    → e.backend_observation.status ≡ "observed"
    → IsObserved es e
unfolding collect observation
collect-IsObserved es e h o =
    let t = assemble-IsTested es _ _ _ _ e h o in
    let (before, after, value, placed, named, front, back) = split_one es t.one_backend in
    let (status, duration, at, ended) = attempted-Memᴰ es t.inferred in
    let order =
      subst (λ fs. too_early (find_index is_backend fs) (find_index is_inference fs) ≡ false) placed
        t.in_order in
    let there = subst (Memᴰ (phase "inference" status duration)) placed at in
    record {
      before = before;
      after = after;
      value = value;
      placed = placed;
      alone = (front, back);
      preceded = early_inference before after value status duration front there order;
      tried = (status, duration, at, ended);
      reported = ap (λ x. x.backend) (t.told ∙ ap (λ bs. observation bs true) named);
      phases = t.phases;
    }
