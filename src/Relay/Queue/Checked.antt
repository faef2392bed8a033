-- ===== src/Relay/Queue/Checked.antt =====
-- What the operations that read have established when they return, and that they write nothing.
use Prim.Native.String.{String}
use qvac_atlas.Base.{
  ℕ, ◌<◌, ◌≡◌, refl, ap, ◌∙◌, Bool, true, false, not, ◌||◌, Option, none, some, List, [], ◌∷◌, ◌==◌,
  leb, text_eq-true, arith,
}
use qvac_atlas.Json.{Value}
use qvac_atlas.Submission.Client.{Response}
use qvac_atlas.Submission.Protocol.{AdmittedSubmission}
use qvac_atlas.Relay.Queue.GitHub.{
  get_ref, get_contents, get_pulls_of, get_commit, get_blob, Log, Outside, bounded_json,
}
use qvac_atlas.Relay.Queue.Values.{at, sha, pull_of, commit_of, text_of_blob, text_of_file}
use qvac_atlas.Relay.Queue.Reads.{
  verify_readiness, ref_sha, commit_object, blob_text, path_blob_sha, QueuePath,
  verify_queue_commit, base_contains, assert_capacity, find_pull_request,
}
use qvac_atlas.Relay.Queue.Facts.{
  last, before, IsStatus, writes, Told, IsAt, IsVerified, IsReady, HasNoPull, HasRoom, IsGated,
}
use qvac_atlas.Relay.Queue.Rules.{
  Holds-weaken, Holds-if, Extends-trans, same, more, Told-mono, IsAt-mono, Holds, Holds-bind,
  Holds-pure, Holds-lift, Holds-check, Holds-end, Holds-request, check-Holds, Holds-json,
  eq_of_test,
}

-- A computation that writes nothing.
abbrev pub Reading : {A : Type 0} → Log → (A → Log → Type 0) → A → Log → Type 0
Reading log P a l = P a l × (writes l ≡ writes log)

-- An optional head of a pull request.
abbrev pub IsPull : Outside → String → Option String → Log → Type 0
IsPull w branch none l = HasNoPull w l branch
IsPull w branch (some commit) l = Unit {0}

-- A ref is missing, or told with a commit.
abbrev pub IsRef : Outside → String → Option String → Log → Type 0
IsRef w branch none l = IsStatus l (get_ref branch) 404
IsRef w branch (some commit) l =
    (v : Value) × Told w l (get_ref branch) 200 v × (sha (at (at v "object") "sha") ≡ some commit)

abbrev pub IsContained : Outside → String → String → String → Bool → Log → Type 0
IsContained w path exact ref true l =
    (v : Value) × Told w l (get_contents path ref) 200 v × (text_of_file w v ≡ some exact)
IsContained w path exact ref false l = IsStatus l (get_contents path ref) 404

below : (limit m n : ℕ) → not (leb limit m || leb limit n) ≡ true → (m < limit) × (n < limit)
below limit m n e = (ground arith, ground arith)

module _ (w : Outside) (s : AdmittedSubmission) where
  pub verify_readiness-Holds :
      (log : Log)
      → IsGated w s log
      → Holds w s log (Reading log (λ _ l. IsReady w l)) (verify_readiness w log)
  unfolding verify_readiness
  verify_readiness-Holds log g =
      Holds-json log _ _ _ g tt
        (λ v r e f h. check-Holds _ _ h (λ ready. ((v, (r, last, e, f), ready), refl)))

  pub find_pull_request-Holds :
      (branch : String) (log : Log)
      → IsGated w s log
      → Holds w s log (Reading log (IsPull w branch)) (find_pull_request w branch log)
  unfolding find_pull_request
  find_pull_request-Holds branch log g =
      Holds-json log _ _ _ g tt
        (λ v r e f h. Holds-end _ _ h (λ o told. (pull_fact o v r e f told, refl)))
    where
      pull_fact :
          (o : Option String) (v : Value) (r : Response)
          → r.status ≡ 200
          → bounded_json w r ≡ some v
          → pull_of w branch v ≡ some o
          → IsPull w branch o ((get_pulls_of branch, some r) ∷ log)
      pull_fact none v r e f told = (v, (r, last, e, f), told)
      pull_fact (some commit) v r e f told = tt

  pub ref_sha-Holds :
      (branch : String) (log : Log)
      → IsGated w s log
      → Holds w s log (Reading log (IsRef w branch)) (ref_sha w branch log)
  unfolding ref_sha
  ref_sha-Holds branch log g = Holds-request log _ _ g tt (λ r h.
      Holds-if _ (r.status == 404) _ _ (λ e. Holds-pure _ _ h ((r, last, eq_of_test _ _ e), refl))
        (λ _. Holds-check _ _ _ h (λ e. Holds-lift _ _ _ h (λ v f.
          Holds-lift _ _ _ h (λ commit known.
            Holds-pure _ _ h ((v, (r, last, eq_of_test _ _ e, f), known), refl))))))

  pub base_contains-Holds :
      (path exact ref : String) (log : Log)
      → IsGated w s log
      → Holds w s log
          (Reading log (IsContained w path exact ref))
          (base_contains w path exact ref log)
  unfolding base_contains
  base_contains-Holds path exact ref log g = Holds-request log _ _ g tt (λ r h.
      Holds-if _ (r.status == 404) _ _ (λ e. Holds-pure _ _ h ((r, last, eq_of_test _ _ e), refl))
        (λ _. Holds-check _ _ _ h (λ e. Holds-lift _ _ _ h (λ v f.
          Holds-lift _ _ _ h (λ stored known. Holds-check _ _ _ h (λ equal. Holds-pure _ _ h (
            (v, (r, last, eq_of_test _ _ e, f), known ∙ ap some (text_eq-true _ _ equal)),
            refl,
          )))))))

  pub assert_capacity-Holds :
      (log : Log)
      → IsGated w s log
      → Holds w s log (Reading log (λ _ l. HasRoom w l)) (assert_capacity w log)
  unfolding assert_capacity
  assert_capacity-Holds log g = Holds-json log _ _ _ g tt (λ v1 r1 e1 f1 g1.
      Holds-json _ _ _ _ g1 tt (λ v2 r2 e2 f2 g2. Holds-lift _ _ _ g2 (λ pulls a1.
        Holds-lift _ _ _ g2 (λ entries a2. Holds-lift _ _ _ g2 (λ seen a3.
          check-Holds _ _ g2 (λ fits.
            let (more_pulls, more_refs) = below w.max_pending _ _ fits in
            (
              (
                (v1, pulls, (r1, before last, e1, f1), a1, more_pulls),
                (v2, entries, seen, (r2, last, e2, f2), a2, a3, more_refs),
              ),
              refl,
            )))))))

  path_blob_sha-Holds :
      (segments : List String) (tree : String) (log : Log)
      → IsGated w s log
      → Holds w s log
          (Reading log (λ blob l. IsAt w l tree segments blob))
          (path_blob_sha w tree segments log)
  unfolding path_blob_sha
  path_blob_sha-Holds [] tree log g = Holds-pure _ _ g (refl, refl)
  path_blob_sha-Holds (segment ∷ segments) tree log g = Holds-json log _ _ _ g tt (λ v r e f h.
      Holds-lift _ _ _ h (λ next entry.
        Holds-weaken (path_blob_sha-Holds segments next _ h)
          (λ blob l x (at, quiet). ((v, next, Told-mono w x (r, last, e, f), entry, at), quiet))))

  pub commit_object-Holds :
      (commit : String) (log : Log)
      → IsGated w s log
      → Holds w s log
          (Reading log
            (λ c l. (v : Value) × Told w l (get_commit commit) 200 v × (commit_of v ≡ some c)))
          (commit_object w commit log)
  unfolding commit_object
  commit_object-Holds commit log g =
      Holds-json log _ _ _ g tt
        (λ v r e f h. Holds-end _ _ h (λ c known. ((v, (r, last, e, f), known), refl)))

  blob_text-Holds :
      (blob : String) (log : Log)
      → IsGated w s log
      → Holds w s log
          (Reading log
            (λ t l. (v : Value) × Told w l (get_blob blob) 200 v × (text_of_blob w v ≡ some t)))
          (blob_text w blob log)
  unfolding blob_text
  blob_text-Holds blob log g =
      Holds-json log _ _ _ g tt
        (λ v r e f h. Holds-end _ _ h (λ t known. ((v, (r, last, e, f), known), refl)))

  pub verify_queue_commit-Holds :
      (commit : String) (p : QueuePath) (exact : String) (log : Log)
      → IsGated w s log
      → Holds w s log
          (Reading log (λ _ l. IsVerified w l commit p exact))
          (verify_queue_commit w commit p exact log)
  unfolding verify_queue_commit
  verify_queue_commit-Holds commit p exact log g =
      Holds-bind log _ _ (commit_object-Holds commit log g) (λ c l1 g1 x1 ((v, t, e), q1).
        Holds-lift _ _ _ g1 (λ parent only. Holds-json _ _ _ _ g1 tt (λ diff r e2 f2 g2.
          Holds-check _ _ _ g2 (λ single.
            Holds-bind _ _ _ (path_blob_sha-Holds p.segments c.tree_sha _ g2)
              (λ blob l3 g3 x3 (at, q3).
                Holds-bind _ _ _ (blob_text-Holds blob l3 g3) (λ stored l4 g4 x4 ((u, t4, e4), q4).
                  check-Holds _ _ g4 (λ equal. (
                    (
                      v,
                      c,
                      parent,
                      blob,
                      Told-mono w (Extends-trans (Extends-trans (more same) x3) x4) t,
                      e,
                      only,
                      (diff, Told-mono w (Extends-trans x3 x4) (r, last, e2, f2), single),
                      IsAt-mono w c.tree_sha p.segments blob x4 at,
                      (u, t4, e4 ∙ ap some (text_eq-true _ _ equal)),
                    ),
                    q4 ∙ q3 ∙ q1,
                  ))))))))
