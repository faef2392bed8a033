-- ===== src/Relay/Queue/Order.antt =====
-- The requests that create something come in one order, and each at most once.
use Prim.Native.String.{String}
use mathlib.Core.Path.{subst}
use qvac_atlas.Base.{◌≡◌, ap, sym, some, List, [], ◌∷◌, map}
use qvac_atlas.Submission.Protocol.{AdmittedSubmission}
use qvac_atlas.Relay.Queue.GitHub.{
  Request, post_blob, post_tree, post_commit, post_ref, post_pull, Log, Outside, Step, go, stop,
}
use qvac_atlas.Relay.Queue.Enqueue.{enqueue_under_admission_lock}
use qvac_atlas.Relay.Queue.Rules.{Holds, went, ended}
use qvac_atlas.Relay.Queue.Pushed.{enqueue-Holds}
use qvac_atlas.Relay.Queue.Facts.{writes, IsAllowed, IsBeforePull, IsGated}

pub data Kind : Type 0 where
  other blob tree commit ref pull : Kind

abbrev pub kind_of : Request → Kind
kind_of (post_blob t) = blob
kind_of (post_tree b p t) = tree
kind_of (post_commit m p t) = commit
kind_of (post_ref b c) = ref
kind_of (post_pull b t) = pull
kind_of _ = other

-- What has been created, the latest first.
abbrev pub IsInOrder : List Kind → Type 0
IsInOrder [] = Unit {0}
IsInOrder (blob ∷ []) = Unit {0}
IsInOrder (tree ∷ blob ∷ []) = Unit {0}
IsInOrder (commit ∷ tree ∷ blob ∷ []) = Unit {0}
IsInOrder (ref ∷ commit ∷ tree ∷ blob ∷ []) = Unit {0}
IsInOrder (pull ∷ []) = Unit {0}
IsInOrder (pull ∷ ref ∷ commit ∷ tree ∷ blob ∷ []) = Unit {0}
IsInOrder _ = ⊥

abbrev pub kinds : Log → List Kind
kinds log = map kind_of (writes log)

module _ (w : Outside) (s : AdmittedSubmission) where
  tree-kinds :
      (b p t : String) (log : Log)
      → IsAllowed w s (post_tree b p t) log
      → IsGated w s log
      → kinds log ≡ blob ∷ []
  tree-kinds b p t ((post_blob text, some r) ∷ log) h ((_, _, _, _, quiet), g) =
      ap (λ ws. blob ∷ map kind_of ws) quiet
  tree-kinds b p t _ h g = absurd h

  commit-kinds :
      (m p t : String) (log : Log)
      → IsAllowed w s (post_commit m p t) log
      → IsGated w s log
      → kinds log ≡ tree ∷ blob ∷ []
  commit-kinds m p t ((post_tree b q u, some r) ∷ log) h (a, g) =
      ap (λ ks. tree ∷ ks) (tree-kinds b q u log a g)
  commit-kinds m p t _ h g = absurd h

  ref-kinds :
      (b c : String) (log : Log)
      → IsAllowed w s (post_ref b c) log
      → IsGated w s log
      → kinds log ≡ commit ∷ tree ∷ blob ∷ []
  ref-kinds b c ((post_commit m p t, some r) ∷ log) h (a, g) =
      ap (λ ks. commit ∷ ks) (commit-kinds m p t log a g)
  ref-kinds b c _ h g = absurd h

  under_pull : (ks : List Kind) → IsInOrder (ref ∷ ks) → IsInOrder (pull ∷ ref ∷ ks)
  under_pull (commit ∷ tree ∷ blob ∷ []) h = tt
  under_pull _ h = absurd h

  pull-kinds :
      (ws : List Request)
      → IsBeforePull w s ws
      → IsInOrder (map kind_of ws)
      → IsInOrder (pull ∷ map kind_of ws)
  pull-kinds [] h i = tt
  pull-kinds (post_ref b c ∷ ws) h i = under_pull (map kind_of ws) i
  pull-kinds _ h i = absurd h

  pub IsGated-IsInOrder : (log : Log) → IsGated w s log → IsInOrder (kinds log)
  IsGated-IsInOrder [] g = tt
  IsGated-IsInOrder ((post_blob t, o) ∷ log) ((_, _, _, _, quiet), g) =
      subst (λ ws. IsInOrder (blob ∷ map kind_of ws)) (sym quiet) tt
  IsGated-IsInOrder ((post_tree b p t, o) ∷ log) (a, g) =
      subst (λ ks. IsInOrder (tree ∷ ks)) (sym (tree-kinds b p t log a g)) tt
  IsGated-IsInOrder ((post_commit m p t, o) ∷ log) (a, g) =
      subst (λ ks. IsInOrder (commit ∷ ks)) (sym (commit-kinds m p t log a g)) tt
  IsGated-IsInOrder ((post_ref b c, o) ∷ log) (a, g) =
      subst (λ ks. IsInOrder (ref ∷ ks)) (sym (ref-kinds b c log a g)) tt
  IsGated-IsInOrder ((post_pull b t, o) ∷ log) ((_, _, _, _, before), g) =
      pull-kinds (writes log) before (IsGated-IsInOrder log g)
  IsGated-IsInOrder ((_, o) ∷ log) (a, g) = IsGated-IsInOrder log g

-- The log that a computation has left.
abbrev pub log_of : {A : Type 0} → Step A → Log
log_of (go a log) = log
log_of (stop log) = log

Holds-IsGated :
    (w : Outside) (s : AdmittedSubmission) {A : Type 0} {P : A → Log → Type 0} {log : Log}
    {m : Step A}
    → Holds w s log P m
    → IsGated w s (log_of m)
Holds-IsGated w s (went g x p) = g
Holds-IsGated w s (ended g) = g

-- However an enqueueing ends, it has created only a blob, then a tree, a commit and a ref, and at
-- last a pull request, each once and none before the one that precedes it; or a pull request alone.
pub enqueue-IsInOrder :
    (w : Outside) (s : AdmittedSubmission)
    → IsInOrder (kinds (log_of (enqueue_under_admission_lock w s [])))
enqueue-IsInOrder w s = IsGated-IsInOrder w s _ (Holds-IsGated w s (enqueue-Holds w s))
