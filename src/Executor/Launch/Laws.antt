-- ===== src/Executor/Launch/Laws.antt =====
-- A grant is good for one launch, and what an execution starts it also ends.
use qvac_atlas.Base.{
  ℕ, ◌≡◌, refl, sym, ap, ◌∙◌, ◌⊎◌, inl, inr, Bool, true, false, Option, none, some, Bool-cases,
  List, [], ◌∷◌, ◌++◌, ◌==◌, any, if_split, if_both, arith, if◌then◌else◌,
}
use Prim.Native.String.{String}
use qvac_atlas.Executor.Launch.{
  Material, Grants, has, consumable, mark, consume, Outside, at_start, before_directory,
  after_directory, Executor, Call, make_directory, remove_directory, launch, attach, abort, dispose,
  Launching, fails_first, fails_attached, calls_back, Outcome, Executed, after_bootstrap_sent,
  settled, called_back, launched, not_started, within, run, with_artifact, execute,
}

abbrev pub is_launch : Call → Bool
is_launch launch = true
is_launch _ = false

abbrev pub does_launch : Executed → Bool
does_launch x = any is_launch x.calls

-- Executions that share their grants, and the grants of those that launch a child.
abbrev pub launches : List (Outside × Executor) → Grants → List ℕ
launches [] g = []
launches ((w, x) ∷ runs) g =
    let rest = launches runs (execute w g x).0 in
    if does_launch (execute w g x).1.1 then x.grant ∷ rest else rest

abbrev pub IsDistinct : List ℕ → Type 0
IsDistinct [] = Unit {0}
IsDistinct (i ∷ is) = (has i is ≡ false) × IsDistinct is

-- The state and the calls after an execution, in two parts.
abbrev Result : Type 0
Result = Grants × (Executor × Executed)

mark-has :
    (i j : ℕ) (o : Option Material) (g : Grants)
    → has i g.consumed ≡ true
    → has i (mark j o g).consumed ≡ true
mark-has i j none g h = h
mark-has i j (some m) g h = ground arith

-- An execution ends before the grant is consumed, or after.
execute-cases :
    (P : Result → Type 0) (w : Outside) (g : Grants) (x : Executor)
    → ((code : String) → P (g, (x, not_started code)))
    → P (mark x.grant (consumable x.grant g) g, with_artifact w x (consumable x.grant g))
    → P (execute w g x)
unfolding execute consume
execute-cases P w g x early late =
    if_both P (w.aborted at_start) (early _) (if_both P w.is_windows (early _) late)

execute-has :
    (w : Outside) (g : Grants) (x : Executor) (i : ℕ)
    → has i g.consumed ≡ true
    → has i (execute w g x).0.consumed ≡ true
execute-has w g x i h =
    execute-cases (λ r. has i r.0.consumed ≡ true) w g x (λ _. h)
      (mark-has i x.grant (consumable x.grant g) g h)

consumable-has : (i : ℕ) (g : Grants) → has i g.consumed ≡ true → consumable i g ≡ none
unfolding consumable
consumable-has i g h = rw h refl

consumed-calls :
    (w : Outside) (g : Grants) (x : Executor)
    → has x.grant g.consumed ≡ true
    → (execute w g x).1.1.calls ≡ []
consumed-calls w g x h =
    execute-cases (λ r. r.1.1.calls ≡ []) w g x (λ _. refl)
      (ap (λ o. (with_artifact w x o).1.calls) (consumable-has x.grant g h))

mark-launch :
    (w : Outside) (g : Grants) (x : Executor) (o : Option Material)
    → does_launch (with_artifact w x o).1 ≡ true
    → has x.grant (mark x.grant o g).consumed ≡ true
mark-launch w g x none e = cc
mark-launch w g x (some m) e = ground arith

launch-has :
    (w : Outside) (g : Grants) (x : Executor)
    → does_launch (execute w g x).1.1 ≡ true
    → has x.grant (execute w g x).0.consumed ≡ true
launch-has w g x =
    execute-cases (λ r. does_launch r.1.1 ≡ true → has x.grant r.0.consumed ≡ true) w g x
      (λ _ e. cc) (mark-launch w g x (consumable x.grant g))

eq_of_test : (m n : ℕ) → m == n ≡ true → m ≡ n
eq_of_test m n e = ground arith

launched_again :
    (w : Outside) (g : Grants) (x : Executor)
    → has x.grant g.consumed ≡ true
    → ¬ (does_launch (execute w g x).1.1 ≡ true)
launched_again w g x h e = cc (sym (ap (any is_launch) (consumed-calls w g x h)) ∙ e)

other_grant : (i j : ℕ) (ids : List ℕ) → ¬ (i ≡ j) → has i ids ≡ false → has i (j ∷ ids) ≡ false
other_grant i j ids n h = elim (Bool-cases (i == j)) [
  | inl e ↦ absurd (n (eq_of_test i j e))
  | inr e ↦ rw (e, h) refl
]

launches-has :
    (runs : List (Outside × Executor)) (g : Grants) (i : ℕ)
    → has i g.consumed ≡ true
    → has i (launches runs g) ≡ false
launches-has [] g i h = refl
launches-has ((w, x) ∷ runs) g i h =
    if_split (λ ids. has i ids ≡ false) (does_launch (execute w g x).1.1)
      (λ e.
        other_grant i x.grant (launches runs (execute w g x).0)
          (λ same. launched_again w g x (rw (sym same) h) e)
          (launches-has runs (execute w g x).0 i (execute-has w g x i h)))
      (λ _. launches-has runs (execute w g x).0 i (execute-has w g x i h))

-- Whatever executors share the grants, and however their executions end, each grant launches at
-- most one child.
pub launches-IsDistinct :
    (runs : List (Outside × Executor)) (g : Grants) → IsDistinct (launches runs g)
launches-IsDistinct [] g = tt
launches-IsDistinct ((w, x) ∷ runs) g =
    if_split IsDistinct (does_launch (execute w g x).1.1)
      (λ e. (
        launches-has runs (execute w g x).0 x.grant (launch-has w g x e),
        launches-IsDistinct runs (execute w g x).0,
      ))
      (λ _. launches-IsDistinct runs (execute w g x).0)

-- What a launch has started: disposed of at once, or attached, and then the outcome is the
-- supervisor's, or the supervisor was aborted last.
abbrev pub IsTended : Outside → Outcome → List Call → Type 0
IsTended w o body =
    (body ≡ [])
    ⊎ (body ≡ launch ∷ dispose ∷ [])
    ⊎ ((sent : List Call) × (((body ≡ launch ∷ attach ∷ sent) × (o ≡ settled w.supervised))
          ⊎ (body ≡ launch ∷ attach ∷ (sent ++ (abort ∷ [])))))

-- No call, a directory that could not be made, or a directory that is removed at last around a launch
-- that is tended.
abbrev pub IsContained : Outside → Executed → Type 0
IsContained w x =
    (x.calls ≡ [])
    ⊎ ((x.calls ≡ make_directory ∷ []) × (x.outcome ≡ Outcome.rejected))
    ⊎ ((body : List Call) × (x.calls ≡ make_directory ∷ (body ++ (remove_directory ∷ [])))
        × IsTended w x.outcome body)

called_back-IsTended :
    (w : Outside) (b : Bool) (sent : List Call) (ok : Bool)
    → IsTended w (called_back w b (sent, ok)).outcome (called_back w b (sent, ok)).calls
called_back-IsTended w true sent true = inr (inr (sent, inl (refl, refl)))
called_back-IsTended w false sent true = inr (inr (sent, inr refl))
called_back-IsTended w b sent false = inr (inr (sent, inr refl))

launched-IsTended :
    (w : Outside) (m : Material) (l : Launching)
    → IsTended w (launched w m l).outcome (launched w m l).calls
unfolding launched
launched-IsTended w m fails_first = inr (inl refl)
launched-IsTended w m fails_attached = inr (inr ([], inr refl))
launched-IsTended w m (calls_back b) =
    called_back-IsTended w b (after_bootstrap_sent w m).0 (after_bootstrap_sent w m).1

run-IsContained : (w : Outside) (m : Material) → IsContained w (run w m)
unfolding run
run-IsContained w m = if_both (IsContained w) (w.aborted before_directory) (inl refl) (
    if_both (IsContained w) w.makes_directory
      (if_both (λ x. IsContained w (within x)) (w.aborted after_directory)
        (inr (inr ([], refl, inl refl)))
        (inr (inr ((launched w m w.launching).calls, refl, launched-IsTended w m w.launching))))
      (inr (inl (refl, refl))))

with_artifact-IsContained :
    (w : Outside) (x : Executor) (o : Option Material) → IsContained w (with_artifact w x o).1
with_artifact-IsContained w x none = inl refl
with_artifact-IsContained w x (some m) =
    if_both {A = Executor × Executed} (λ r. IsContained w r.1) x.used (inl refl)
      (run-IsContained w m)

-- An execution ends without any call; or the temporary directory cannot be made; or the directory
-- is removed at the end, and before that nothing is launched, or the supervisor is disposed of, or
-- the child is attached, and then the outcome is the supervisor's or the supervisor is aborted.
pub execute-IsContained :
    (w : Outside) (g : Grants) (x : Executor) → IsContained w (execute w g x).1.1
execute-IsContained w g x =
    execute-cases (λ r. IsContained w r.1.1) w g x (λ _. inl refl)
      (with_artifact-IsContained w x (consumable x.grant g))
