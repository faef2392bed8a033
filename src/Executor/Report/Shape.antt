-- ===== src/Executor/Report/Shape.antt =====
-- The phases that a report lists: never none, at most six, each with a duration exactly where it
-- passed or failed.
use qvac_atlas.Base.{
  ℕ, ◌≤◌, ◌<◌, ◌≡◌, refl, Bool, true, false, Option, none, some, List, [], ◌∷◌, ◌++◌, arith, length,
  length-append, any, keep, leb, All, All-append, Bool-cases, Option-cases, inl, inr, if◌then◌else◌,
}
use qvac_atlas.Executor.Phase.{LifecyclePhase, index_of, is_phase, same_phase}
use qvac_atlas.Executor.Lifecycle.{
  Lifecycle, PhaseEvent, PhaseStatus, passed, failed, unknown, skipped, elapsed, recorded, is_none,
}
use qvac_atlas.Executor.Report.{
  Interruption, Exit, ensure_terminal_phase, reported_phases, unless_recorded, with_phase, ended,
  failure_phase, left_open, at_end, Override, protocol, timeout,
}

-- A passed or failed phase has a duration of at most an hour, any other has none.
abbrev pub Timed : PhaseStatus → Option ℕ → Type 0
Timed passed (some d) = d ≤ 3600000
Timed failed (some d) = d ≤ 3600000
Timed unknown none = Unit {0}
Timed skipped none = Unit {0}
Timed _ _ = ⊥

abbrev pub AllTimed : List PhaseEvent → Type 0
AllTimed = All (λ e. Timed e.status e.duration_ms)

-- What holds of the phases of a supervised child before the end of its run.
pub record IsSound (l : Lifecycle) : Type 0 where
  pub timed : AllTimed l.phases
  pub short : length l.phases ≤ 5
  pub covered :
      (f : LifecyclePhase)
      → l.first_failure ≡ some f
      → any (λ e. leb (index_of e.name) (index_of f)) l.phases ≡ true

any-append {ℓ} :
    {A : Type ℓ} (p : A → Bool) (xs ys : List A) → any p xs ≡ true → any p (xs ++ ys) ≡ true
any-append p [] ys h = cc
any-append p (x ∷ xs) ys h = elim (Bool-cases (p x)) [
  | inl e ↦ rw e
  | inr e ↦ rw e (any-append p xs ys (rw e at h))
]

any_last {ℓ} :
    {A : Type ℓ} (p : A → Bool) (xs : List A) (y : A) → p y ≡ true → any p (xs ++ y ∷ []) ≡ true
any_last p [] y h = rw h
any_last p (x ∷ xs) y h = ground (arith, any_last p xs y h)

elapsed-le : (now since : ℕ) → elapsed now since ≤ 3600000
unfolding elapsed
elapsed-le now since = omega arith

any_pos {ℓ} : {A : Type ℓ} (p : A → Bool) (xs : List A) → any p xs ≡ true → 0 < length xs
any_pos p [] h = cc
any_pos p (x ∷ xs) h = omega arith

abbrev unknown_at : LifecyclePhase → PhaseEvent
unknown_at p = record { name = p; status = unknown; duration_ms = none }

abbrev failed_at : LifecyclePhase → ℕ → PhaseEvent
failed_at p d = record { name = p; status = failed; duration_ms = some d }

same_index : (p f : LifecyclePhase) → some p ≡ some f → leb (index_of p) (index_of f) ≡ true
same_index p f e = ground arith

-- How `#ensureTerminalPhase` can leave the phases.
data Ended (l l' : Lifecycle) : Type 0 where
  recorded_already : (p : LifecyclePhase) → recorded p l.phases ≡ true → l' ≡ l → Ended l l'
  failed_already : is_none l.first_failure ≡ false → l' ≡ l → Ended l l'
  unfinished : (p : LifecyclePhase) → l' ≡ with_phase p unknown none l → Ended l l'
  put_down :
      (p : LifecyclePhase) (d : ℕ)
      → d ≤ 3600000
      → l' ≡ record l {
        phases = l.phases ++ record { name = p; status = failed; duration_ms = some d } ∷ [];
        first_failure = some p;
      }
      → Ended l l'

unless_recorded-Ended : (p : LifecyclePhase) (l : Lifecycle) → Ended l (unless_recorded p l)
unless_recorded-Ended p l = elim (Bool-cases (recorded p l.phases)) [
  | inl e ↦ recorded_already p e (rw e)
  | inr e ↦ unfinished p (rw e)
]

-- How long the phase that a failed run is put down to took.
abbrev down_for : Interruption → Exit → Lifecycle → LifecyclePhase → ℕ
down_for i x l p =
    if is_phase l.open_phase p
    then elapsed x.now l.open_phase_started_at
    else elapsed x.now x.attached_at

down_for-le :
    (i : Interruption) (x : Exit) (l : Lifecycle) (p : LifecyclePhase) → down_for i x l p ≤ 3600000
down_for-le i x l p =
    ground (arith, elapsed-le x.now l.open_phase_started_at, elapsed-le x.now x.attached_at)

ended-Ended :
    (i : Interruption) (x : Exit) (l : Lifecycle) (p : LifecyclePhase) → Ended l (ended i x l p)
ended-Ended i x l p = elim (Bool-cases (left_open i x l)) [
  | inl open_end ↦ rw open_end (unless_recorded-Ended p l)
  | inr closed ↦ rw closed (elim (Bool-cases (recorded p l.phases)) [
    | inl e ↦ rw e (recorded_already p e refl)
    | inr e ↦ elim (Bool-cases (is_none l.first_failure)) [
      | inl n ↦ rw (e, n) (put_down p (down_for i x l p) (down_for-le i x l p) refl)
      | inr n ↦ rw (e, n) (failed_already n refl)
    ]
  ])
]

at_end-Ended :
    (o : Option Override) (i : Interruption) (x : Exit) (l : Lifecycle) → Ended l (at_end o i x l)
at_end-Ended (some protocol) i x l = unless_recorded-Ended _ l
at_end-Ended (some timeout) i x l = ended-Ended i x l (failure_phase i l)
at_end-Ended none i x l = ended-Ended i x l (failure_phase i l)

ensure-Ended : (i : Interruption) (x : Exit) (l : Lifecycle) → Ended l (ensure_terminal_phase i x l)
unfolding ensure_terminal_phase
ensure-Ended i x l = at_end-Ended i.override i x l

-- The phases of the report: sound ones, and one more at most.
pub record IsReady (l : Lifecycle) : Type 0 where
  pub timed : AllTimed l.phases
  pub short : length l.phases ≤ 6
  pub some_phase : l.first_failure ≡ none → 0 < length l.phases
  pub covered :
      (f : LifecyclePhase)
      → l.first_failure ≡ some f
      → any (λ e. leb (index_of e.name) (index_of f)) l.phases ≡ true

Ended-IsReady : (l l' : Lifecycle) → IsSound l → Ended l l' → IsReady l'
Ended-IsReady l l' h (recorded_already p r e) = rw e (record {
  timed = h.timed;
  short = omega (arith, h.short);
  some_phase = λ _. any_pos (λ q. same_phase q.name p) l.phases r;
  covered = h.covered;
})
Ended-IsReady l l' h (failed_already r e) = rw e (record {
  timed = h.timed;
  short = omega (arith, h.short);
  some_phase = λ n. ground arith;
  covered = h.covered;
})
Ended-IsReady l l' h (unfinished p e) = rw e (record {
  timed = All-append (λ q. Timed q.status q.duration_ms) l.phases _ h.timed (tt, tt);
  short = omega (arith, h.short, length-append l.phases (unknown_at p ∷ []));
  some_phase = λ _. omega (arith, length-append l.phases (unknown_at p ∷ []));
  covered = λ f n.
      any-append (λ q. leb (index_of q.name) (index_of f)) l.phases (unknown_at p ∷ [])
        (h.covered f n);
})
Ended-IsReady l l' h (put_down p d le e) = rw e (record {
  timed = All-append (λ q. Timed q.status q.duration_ms) l.phases _ h.timed (le, tt);
  short = omega (arith, h.short, length-append l.phases (failed_at p d ∷ []));
  some_phase = λ n. cc;
  covered = λ f n.
      any_last (λ q. leb (index_of q.name) (index_of f)) l.phases (failed_at p d)
        (same_index p f n);
})

-- `ensure_terminal_phase` readies the phases for the report.
pub ensure-IsReady :
    (i : Interruption) (x : Exit) (l : Lifecycle)
    → IsSound l
    → IsReady (ensure_terminal_phase i x l)
ensure-IsReady i x l h = Ended-IsReady l _ h (ensure-Ended i x l)

module _ {ℓ} {A : Type ℓ} (p : A → Bool) where
  keep_pos : (xs : List A) → any p xs ≡ true → 0 < length (keep p xs)
  keep_pos [] h = cc
  keep_pos (x ∷ xs) h = ground (arith, keep_pos xs)

  length-keep : (xs : List A) → length (keep p xs) ≤ length xs
  length-keep [] = omega arith
  length-keep (x ∷ xs) = ground (arith, length-keep xs)

  keep-All : (P : A → Type 0) (xs : List A) → All P xs → All P (keep p xs)
  keep-All P [] h = tt
  keep-All P (x ∷ xs) (q, h) = elim (Bool-cases (p x)) [
    | inl e ↦ rw e (q, keep-All P xs h)
    | inr e ↦ rw e (keep-All P xs h)
  ]

-- The reported phases: at least one and at most six, each with its duration.
pub record IsPresentable (ps : List PhaseEvent) : Type 0 where
  pub timed : AllTimed ps
  pub short : length ps ≤ 6
  pub some_phase : 0 < length ps

pub reported_phases-IsPresentable : (l : Lifecycle) → IsReady l → IsPresentable (reported_phases l)
unfolding reported_phases
reported_phases-IsPresentable l h = elim (Option-cases l.first_failure) [
  | inl e ↦ rw e (record { timed = h.timed; short = h.short; some_phase = h.some_phase e })
  | inr (f, e) ↦ rw e (record {
    timed = keep-All _ _ l.phases h.timed;
    short = omega (arith, h.short, length-keep (λ q. leb (index_of q.name) (index_of f)) l.phases);
    some_phase = keep_pos _ l.phases (h.covered f e);
  })
]
