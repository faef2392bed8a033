-- ===== src/Relay/Queue/Pushed.antt =====
-- An enqueueing as a whole, from an empty log.
use Prim.Native.String.{String}
use mathlib.Core.Path.{subst}
use qvac_atlas.Base.{◌≡◌, refl, ◌∙◌, inl, inr, Bool, true, false, Option, none, some, [], ◌∷◌}
use qvac_atlas.Submission.Client.{Response}
use qvac_atlas.Submission.Protocol.{AdmittedSubmission}
use qvac_atlas.Relay.Queue.GitHub.{
  Request, get_ref, get_contents, post_commit, post_ref, Log, Outside, Git, bind_git,
}
use qvac_atlas.Relay.Queue.Enqueue.{
  create_object, create_queue_commit, branch_of, path_of, own_ref, push_to, push, with_ref,
  with_pull, unless_contained, enqueue_under_admission_lock,
}
use qvac_atlas.Relay.Queue.Facts.{
  IsStatus, writes, Made, IsReady, HasRoom, IsOpen, IsOn, IsBeforePull, IsAllowed, IsGated,
  IsQueued,
}
use qvac_atlas.Relay.Queue.Rules.{
  Extends, Extends-trans, IsStatus-mono, IsReady-mono, IsOpen-mono, HasRoom-mono, Holds, Holds-bind,
  Holds-pure, Holds-lift, Holds-weaken,
}
use qvac_atlas.Relay.Queue.Checked.{
  Reading, IsPull, IsRef, IsContained, verify_readiness-Holds, find_pull_request-Holds,
  ref_sha-Holds, base_contains-Holds, assert_capacity-Holds, commit_object-Holds,
}
use qvac_atlas.Relay.Queue.Whole.{
  IsMade, made, create_object-Holds, IsSent, sent, IsSent-IsStatus, create_ref-Holds,
  verified-Holds, propose-Holds,
}

module _ (w : Outside) (s : AdmittedSubmission) where
  made-Holds :
      {B : Type 0} {Q : B → Log → Type 0} (q : Request) (log : Log) (id : String) (l : Log)
      (m : Git B)
      → IsMade w q log id l
      → IsGated w s l
      → ((r : Response)
          → Made w r id
          → IsGated w s ((q, some r) ∷ log)
          → Holds w s ((q, some r) ∷ log) Q (m ((q, some r) ∷ log)))
      → Holds w s l Q (m l)
  made-Holds q log id _ m (made r h) g k = k r h g

  Holds-object :
      {B : Type 0} {Q : B → Log → Type 0} (log : Log) (q : Request) (f : String → Git B)
      → IsGated w s log
      → IsAllowed w s q log
      → ((id : String) (r : Response)
          → Made w r id
          → IsGated w s ((q, some r) ∷ log)
          → Holds w s ((q, some r) ∷ log) Q (f id ((q, some r) ∷ log)))
      → Holds w s log Q (bind_git (create_object w q) f log)
  Holds-object log q f g allowed k =
      Holds-bind log (create_object w q) f (create_object-Holds w s q log g allowed)
        (λ id l h _ p. made-Holds q log id l (f id) p h (k id))

  committed :
      (m p t commit : String) (log l : Log)
      → IsMade w (post_commit m p t) log commit l
      → IsAllowed w s (post_ref (branch_of s) commit) l
  committed m p t commit log _ (made r h) = (h, refl)

  create_queue_commit-Holds :
      (base : String) (log : Log)
      → IsGated w s log
      → IsOpen w s log
      → IsStatus log (get_ref (branch_of s)) 404
      → HasRoom w log
      → writes log ≡ []
      → Holds w s log
          (λ commit l. IsAllowed w s (post_ref (branch_of s) commit) l)
          (create_queue_commit w base (path_of s).path s log)
  unfolding create_queue_commit
  create_queue_commit-Holds base log g free missing room quiet =
      Holds-bind log _ _ (commit_object-Holds w s base log g) (λ c l1 g1 x1 (_, q1).
        Holds-object l1 _ _ g1
          (
            refl,
            IsOpen-mono w s x1 free,
            IsStatus-mono x1 missing,
            HasRoom-mono w x1 room,
            q1 ∙ quiet,
          )
          (λ blob r2 h2 g2.
            Holds-object _ _ _ g2 (h2, refl)
              (λ tree r3 h3 g3.
                Holds-weaken (create_object-Holds w s _ _ g3 h3)
                  (λ commit l x p. committed _ _ _ commit _ l p))))

  -- The ref that is proposed.
  abbrev IsOwn : Bool → Option String → Log → Type 0
  IsOwn b none l = Unit {0}
  IsOwn b (some commit) l =
      IsOn w s l commit × (b ≡ true → IsStatus l (post_ref (branch_of s) commit) 201)

  ref-IsOwn : (o : Option String) (l : Log) → IsRef w (branch_of s) o l → IsOwn false o l
  ref-IsOwn none l h = tt
  ref-IsOwn (some commit) l h = (inr h, λ e. cc)

  own_ref-Holds :
      (b : Bool) (commit : String) (log : Log)
      → IsGated w s log
      → (b ≡ true → IsStatus log (post_ref (branch_of s) commit) 201)
      → Holds w s log (Reading log (IsOwn b)) (own_ref w (branch_of s) commit b log)
  own_ref-Holds true commit log g h = Holds-pure _ _ g ((inl (h refl), h), refl)
  own_ref-Holds false commit log g h =
      Holds-weaken (ref_sha-Holds w s (branch_of s) log g) (λ o l x (r, q). (ref-IsOwn o l r, q))

  sent-IsBeforePull :
      (branch commit : String) (log : Log) (b : Bool) (l : Log)
      → IsSent (post_ref branch commit) log b l
      → IsBeforePull w s (writes l)
  sent-IsBeforePull branch commit log b _ (sent r e) = tt

  push_to-Holds :
      (base : String) (b : Bool) (log : Log)
      → IsGated w s log
      → IsOpen w s log
      → IsStatus log (get_ref (branch_of s)) 404
      → HasRoom w log
      → writes log ≡ []
      → IsContained w (path_of s).path s.exact_json base b log
      → Holds w s log (IsQueued w s) (push_to w s base b log)
  push_to-Holds base true log g free missing room quiet (v, t, stored) =
      Holds-pure _ _ g (inl (base, v, t, stored))
  push_to-Holds base false log g free missing room quiet _ =
      Holds-bind log _ _ (create_queue_commit-Holds base log g free missing room quiet)
        (λ commit l1 g1 x1 allowed.
          Holds-bind l1 _ _ (create_ref-Holds w s (branch_of s) commit l1 g1 allowed)
            (λ b l2 g2 x2 p.
              Holds-bind l2 _ _ (own_ref-Holds b commit l2 g2 (IsSent-IsStatus _ l1 b l2 p))
                (λ o l3 g3 x3 (own, q3). Holds-lift l3 o _ g3 (λ ref e.
                  let (on, made_ref) = subst (λ x. IsOwn b x l3) e own in
                  propose-Holds w s b ref l3 g3 (
                    IsOpen-mono w s (Extends-trans x1 (Extends-trans x2 x3)) free,
                    on,
                    made_ref,
                    rw q3 (sent-IsBeforePull (branch_of s) commit l1 b l2 p),
                  )))))

  push-Holds :
      (log : Log)
      → IsGated w s log
      → IsOpen w s log
      → IsStatus log (get_ref (branch_of s)) 404
      → writes log ≡ []
      → Holds w s log (IsQueued w s) (push w s log)
  unfolding push
  push-Holds log g free missing quiet =
      Holds-bind log _ _ (assert_capacity-Holds w s log g) (λ _ l1 g1 x1 (room, q1).
        Holds-bind l1 _ _ (ref_sha-Holds w s w.base_branch l1 g1) (λ o l2 g2 x2 (_, q2).
          Holds-lift l2 o _ g2 (λ base e.
            Holds-bind l2 _ _ (base_contains-Holds w s (path_of s).path s.exact_json base l2 g2)
              (λ b l3 g3 x3 (contained, q3).
                let x : Extends log l3 = Extends-trans x1 (Extends-trans x2 x3) in
                push_to-Holds base b l3 g3 (IsOpen-mono w s x free) (IsStatus-mono x missing)
                  (HasRoom-mono w (Extends-trans x2 x3) room) (q3 ∙ q2 ∙ q1 ∙ quiet) contained))))

  with_ref-Holds :
      (o : Option String) (log : Log)
      → IsGated w s log
      → IsOpen w s log
      → writes log ≡ []
      → IsRef w (branch_of s) o log
      → Holds w s log (IsQueued w s) (with_ref w s o log)
  with_ref-Holds none log g free quiet missing = push-Holds log g free missing quiet
  with_ref-Holds (some commit) log g free quiet told =
      propose-Holds w s false commit log g (free, inr told, (λ e. cc), rw quiet tt)

  with_pull-Holds :
      (o : Option String) (log : Log)
      → IsGated w s log
      → IsReady w log
      → IsStatus log (get_contents (path_of s).path w.base_branch) 404
      → writes log ≡ []
      → IsPull w (branch_of s) o log
      → Holds w s log (IsQueued w s) (with_pull w s o log)
  with_pull-Holds (some commit) log g ready missing quiet _ = verified-Holds w s commit log g
  with_pull-Holds none log g ready missing quiet none_yet =
      Holds-bind log _ _ (ref_sha-Holds w s (branch_of s) log g) (λ o l1 g1 x1 (told, q1).
        with_ref-Holds o l1 g1 (IsOpen-mono w s x1 (ready, missing, none_yet)) (q1 ∙ quiet) told)

  unless_contained-Holds :
      (b : Bool) (log : Log)
      → IsGated w s log
      → IsReady w log
      → writes log ≡ []
      → IsContained w (path_of s).path s.exact_json w.base_branch b log
      → Holds w s log (IsQueued w s) (unless_contained w s b log)
  unless_contained-Holds true log g ready quiet (v, t, stored) =
      Holds-pure _ _ g (inl (w.base_branch, v, t, stored))
  unless_contained-Holds false log g ready quiet missing =
      Holds-bind log _ _ (find_pull_request-Holds w s (branch_of s) log g) (λ o l1 g1 x1 (pull, q1).
        with_pull-Holds o l1 g1 (IsReady-mono w x1 ready) (IsStatus-mono x1 missing) (q1 ∙ quiet)
          pull)

  -- Whatever GitHub answers and however an enqueueing ends, every write of it is allowed: the blob
  -- only after the repository is told ready, the path free, no pull request and no branch for the
  -- report, and room in the queue; the tree, the commit and the ref right after the answer that
  -- made the object they name; the pull request only for a branch that is told at a verified
  -- commit. If it ends with queued, the run has made the ref and the pull request; if with already
  -- queued, a file or a verified commit holds the exact text.
  pub enqueue-Holds : Holds w s [] (IsQueued w s) (enqueue_under_admission_lock w s [])
  unfolding enqueue_under_admission_lock
  enqueue-Holds = Holds-bind [] _ _ (verify_readiness-Holds w s [] tt) (λ _ l1 g1 x1 (ready, q1).
      Holds-bind l1 _ _ (base_contains-Holds w s (path_of s).path s.exact_json w.base_branch l1 g1)
        (λ b l2 g2 x2 (contained, q2).
          unless_contained-Holds b l2 g2 (IsReady-mono w x2 ready) (q2 ∙ q1) contained))
