-- ===== src/Relay/Queue/Whole.antt =====
-- Every write of an enqueueing is allowed by what GitHub has answered, and its status stands for what
-- the repository holds.
use Prim.Native.String.{String}
use qvac_atlas.Base.{◌≡◌, refl, ◌∙◌, inr, Bool, true, false, Option, none, some, ◌∷◌, ◌==◌}
use qvac_atlas.Submission.Client.{Response}
use qvac_atlas.Submission.Protocol.{AdmittedSubmission}
use qvac_atlas.Relay.Queue.GitHub.{Request, post_ref, post_pull, Log, Outside}
use qvac_atlas.Relay.Queue.Enqueue.{
  create_object, created, create_ref, create_pull_request, branch_of, path_of, title_of, verified,
  after_refusal, after_pull, after_race, propose,
}
use qvac_atlas.Relay.Queue.Facts.{
  last, IsStatus, writes, Made, IsVerified, IsOpen, IsOn, IsBeforePull, IsAllowed, IsGated,
  IsQueued,
}
use qvac_atlas.Relay.Queue.Rules.{
  Extends, same, more, Extends-trans, IsStatus-mono, IsVerified-mono, IsOpen-mono, IsOn-mono, Holds,
  Holds-bind, Holds-if, Holds-pure, Holds-check, Holds-end, Holds-request, Holds-json, eq_of_test,
}
use qvac_atlas.Relay.Queue.Checked.{find_pull_request-Holds, verify_queue_commit-Holds}

-- The last exchange has created an object.
pub data IsMade (w : Outside) (q : Request) (log : Log) (id : String) : Log → Type 0 where
  made : (r : Response) → Made w r id → IsMade w q log id ((q, some r) ∷ log)

-- A request was answered last, with 201 if it is said to have created something.
pub data IsSent (q : Request) (log : Log) (b : Bool) : Log → Type 0 where
  sent : (r : Response) → (b ≡ true → r.status ≡ 201) → IsSent q log b ((q, some r) ∷ log)

pub IsSent-IsStatus :
    (q : Request) (log : Log) (b : Bool) (l : Log)
    → IsSent q log b l
    → (b ≡ true → IsStatus l q 201)
IsSent-IsStatus q log b _ (sent r e) t = (r, last, e t)

IsSent-Extends : (q : Request) (log : Log) (b : Bool) (l : Log) → IsSent q log b l → Extends log l
IsSent-Extends q log b _ (sent r e) = more same

module _ (w : Outside) (s : AdmittedSubmission) where
  pub create_object-Holds :
      (q : Request) (log : Log)
      → IsGated w s log
      → IsAllowed w s q log
      → Holds w s log (IsMade w q log) (create_object w q log)
  unfolding create_object
  create_object-Holds q log g allowed =
      Holds-json log q _ _ g allowed
        (λ v r e f h. Holds-end _ _ h (λ id known. made r (e, (v, f, known))))

  pub verified-Holds :
      (commit : String) (log : Log)
      → IsGated w s log
      → Holds w s log (IsQueued w s) (verified w s commit log)
  unfolding verified
  verified-Holds commit log g =
      Holds-bind log _ _ (verify_queue_commit-Holds w s commit (path_of s) s.exact_json log g)
        (λ _ l h x (v, q). Holds-pure _ _ h (inr (commit, v)))

  after_refusal-Holds :
      (o : Option String) (log : Log)
      → IsGated w s log
      → Holds w s log (IsQueued w s) (after_refusal w s o log)
  after_refusal-Holds none log g = Holds-check log false _ g (λ e. cc)
  after_refusal-Holds (some commit) log g = verified-Holds commit log g

  -- A branch at a commit that is checked, and what the queue status will be.
  abbrev IsChecked : Bool → String → Log → Type 0
  IsChecked b commit l =
      IsVerified w l commit (path_of s) s.exact_json
      × (b ≡ true → IsStatus l (post_ref (branch_of s) commit) 201)

  -- What a branch at a commit is proposed with.
  abbrev pub IsProposable : Bool → String → Log → Type 0
  IsProposable b commit l =
      IsOpen w s l
      × IsOn w s l commit
      × (b ≡ true → IsStatus l (post_ref (branch_of s) commit) 201)
      × IsBeforePull w s (writes l)

  IsProposable-mono :
      (b : Bool) (commit : String) (a l : Log)
      → Extends a l
      → writes l ≡ writes a
      → IsProposable b commit a
      → IsProposable b commit l
  IsProposable-mono b commit a l x q (free, on, r, quiet) =
      (IsOpen-mono w s x free, IsOn-mono w s commit x on, λ t. IsStatus-mono x (r t), rw q quiet)

  after_pull-Holds :
      (b made_pull : Bool) (commit : String) (log : Log)
      → IsGated w s log
      → IsChecked b commit log
      → (made_pull ≡ true → IsStatus log (post_pull (branch_of s) (title_of s)) 201)
      → Holds w s log (IsQueued w s) (after_pull w s b made_pull log)
  after_pull-Holds true true commit log g (v, r) p = Holds-pure _ _ g (commit, v, r refl, p refl)
  after_pull-Holds false true commit log g (v, r) p = Holds-pure _ _ g (inr (commit, v))
  after_pull-Holds b false commit log g c p =
      Holds-bind log _ _ (find_pull_request-Holds w s (branch_of s) log g)
        (λ o l h x _. after_refusal-Holds o l h)

  created-Holds :
      (q : Request) (log : Log) (r : Response)
      → IsGated w s ((q, some r) ∷ log)
      → Holds w s ((q, some r) ∷ log) (IsSent q log) (created r ((q, some r) ∷ log))
  created-Holds q log r g =
      Holds-if _ (r.status == 201) _ _ (λ e. Holds-pure _ _ g (sent r (λ _. eq_of_test _ _ e)))
        (λ _.
          Holds-if _ (r.status == 422) _ _ (λ _. Holds-pure _ _ g (sent r (λ e. cc)))
            (λ _. Holds-check _ _ _ g (λ e. cc)))

  pub create_ref-Holds :
      (branch commit : String) (log : Log)
      → IsGated w s log
      → IsAllowed w s (post_ref branch commit) log
      → Holds w s log (IsSent (post_ref branch commit) log) (create_ref w branch commit log)
  unfolding create_ref
  create_ref-Holds branch commit log g allowed =
      Holds-request log _ _ g allowed (λ r h. created-Holds _ log r h)

  create_pull_request-Holds :
      (branch : String) (log : Log)
      → IsGated w s log
      → IsAllowed w s (post_pull branch (title_of s)) log
      → Holds w s log
          (IsSent (post_pull branch (title_of s)) log)
          (create_pull_request w branch s log)
  unfolding create_pull_request
  create_pull_request-Holds branch log g allowed =
      Holds-request log _ _ g allowed (λ r h. created-Holds _ log r h)

  after_race-Holds :
      (b : Bool) (commit : String) (o : Option String) (log : Log)
      → IsGated w s log
      → IsProposable b commit log
      → IsVerified w log commit (path_of s) s.exact_json
      → Holds w s log (IsQueued w s) (after_race w s b o log)
  after_race-Holds b commit (some other) log g c v = verified-Holds other log g
  after_race-Holds b commit none log g (free, on, r, quiet) v =
      Holds-bind log _ _
        (create_pull_request-Holds (branch_of s) log g (refl, refl, free, (commit, on, v), quiet))
        (λ made_pull l h x p.
          after_pull-Holds b made_pull commit l h
            (IsVerified-mono w commit (path_of s) s.exact_json x v, λ t. IsStatus-mono x (r t))
            (IsSent-IsStatus _ log made_pull l p))

  pub propose-Holds :
      (b : Bool) (commit : String) (log : Log)
      → IsGated w s log
      → IsProposable b commit log
      → Holds w s log (IsQueued w s) (propose w s b commit log)
  unfolding propose
  propose-Holds b commit log g c =
      Holds-bind log _ _ (verify_queue_commit-Holds w s commit (path_of s) s.exact_json log g)
        (λ _ l1 g1 x1 (v, q1).
          Holds-bind l1 _ _ (find_pull_request-Holds w s (branch_of s) l1 g1) (λ o l2 g2 x2 (_, q2).
            after_race-Holds b commit o l2 g2
              (IsProposable-mono b commit log l2 (Extends-trans x1 x2) (q2 ∙ q1) c)
              (IsVerified-mono w commit (path_of s) s.exact_json x2 v)))
