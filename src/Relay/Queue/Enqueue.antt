-- ===== src/Relay/Queue/Enqueue.antt =====
-- apps/submission-relay/src/github-queue.ts: the operations that write to the repository, and
-- #enqueueUnderAdmissionLock.
use Prim.Native.String
use Prim.Native.String.{String}
use qvac_atlas.Base.{
  Bool, true, false, Option, none, some, [], ◌∷◌, ◌==◌, take_chars, if◌then◌else◌,
}
use qvac_atlas.Submission.Client.{Response}
use qvac_atlas.Submission.Protocol.{AdmittedSubmission}
use qvac_atlas.Relay.Queue.GitHub.{
  Request, post_blob, post_tree, post_commit, post_ref, post_pull, Outside, Git, ◌>>=◌, ◌>>◌, pure,
  lift, check, request, json,
}
use qvac_atlas.Relay.Queue.Values.{at, sha}
use qvac_atlas.Relay.Queue.Reads.{
  verify_readiness, ref_sha, commit_object, QueuePath, verify_queue_commit, base_contains,
  assert_capacity, find_pull_request,
}

pub data QueueStatus : Type 0 where
  queued already_queued : QueueStatus

unfoldable pub create_object : Outside → Request → Git String
create_object w q = do v ← json w q 201; lift (sha (at v "sha"))

abbrev pub message_of : AdmittedSubmission → String
message_of s = String.◌++◌ "Queue anonymous Atlas report " s.report_id

abbrev pub title_of : AdmittedSubmission → String
title_of s = String.◌++◌ "Anonymous Atlas report " (take_chars 12 s.digest)

unfoldable pub create_queue_commit : Outside → String → String → AdmittedSubmission → Git String
create_queue_commit w base_sha path s = do
  base ← commit_object w base_sha
  blob ← create_object w (post_blob s.exact_json)
  tree ← create_object w (post_tree base.tree_sha path blob)
  create_object w (post_commit (message_of s) base_sha tree)

-- 201 is success, 422 is not, and any other status is an error.
abbrev pub created : Response → Git Bool
created r =
    if r.status == 201
    then pure true
    else if r.status == 422
    then pure false
    else check false >>= λ _. pure false

unfoldable pub create_ref : Outside → String → String → Git Bool
create_ref w branch commit_sha = do r ← request w (post_ref branch commit_sha); created r

unfoldable pub create_pull_request : Outside → String → AdmittedSubmission → Git Bool
create_pull_request w branch s = do r ← request w (post_pull branch (title_of s)); created r

abbrev pub branch_of : AdmittedSubmission → String
branch_of s = String.◌++◌ "atlas-anonymous/sha256-" s.digest

abbrev pub file_of : AdmittedSubmission → String
file_of s = String.◌++◌ "sha256-" (String.◌++◌ s.digest ".json")

-- The path and its segments; a digest has no "/".
abbrev pub path_of : AdmittedSubmission → QueuePath
path_of s = record {
  path = String.◌++◌ "submissions/v1/" (file_of s);
  segments = "submissions" ∷ "v1" ∷ file_of s ∷ [];
}

-- A commit that is on the branch, or that the raced branch has.
abbrev pub own_ref : Outside → String → String → Bool → Git (Option String)
own_ref w branch commit true = pure (some commit)
own_ref w branch commit false = ref_sha w branch

unfoldable pub verified : Outside → AdmittedSubmission → String → Git QueueStatus
verified w s commit = do verify_queue_commit w commit (path_of s) s.exact_json; pure already_queued

abbrev pub after_refusal : Outside → AdmittedSubmission → Option String → Git QueueStatus
after_refusal w s none = check false >>= λ _. pure already_queued
after_refusal w s (some commit) = verified w s commit

abbrev pub after_pull : Outside → AdmittedSubmission → Bool → Bool → Git QueueStatus
after_pull w s ref_created true = pure (if ref_created then queued else already_queued)
after_pull w s ref_created false = do
  final ← find_pull_request w (branch_of s)
  after_refusal w s final

abbrev pub after_race : Outside → AdmittedSubmission → Bool → Option String → Git QueueStatus
after_race w s ref_created (some commit) = verified w s commit
after_race w s ref_created none = do
  done ← create_pull_request w (branch_of s) s
  after_pull w s ref_created done

-- From the check of the branch's commit on.
unfoldable pub propose : Outside → AdmittedSubmission → Bool → String → Git QueueStatus
propose w s ref_created commit = do
  verify_queue_commit w commit (path_of s) s.exact_json
  raced ← find_pull_request w (branch_of s)
  after_race w s ref_created raced

abbrev pub push_to : Outside → AdmittedSubmission → String → Bool → Git QueueStatus
push_to w s base true = pure already_queued
push_to w s base false = do
  commit ← create_queue_commit w base (path_of s).path s
  made ← create_ref w (branch_of s) commit
  own ← own_ref w (branch_of s) commit made
  ref ← lift own
  propose w s made ref

-- With no branch yet: the capacity, the base, a commit and a branch.
unfoldable pub push : Outside → AdmittedSubmission → Git QueueStatus
push w s = do
  assert_capacity w
  found ← ref_sha w w.base_branch
  base ← lift found
  contained ← base_contains w (path_of s).path s.exact_json base
  push_to w s base contained

abbrev pub with_ref : Outside → AdmittedSubmission → Option String → Git QueueStatus
with_ref w s none = push w s
with_ref w s (some commit) = propose w s false commit

abbrev pub with_pull : Outside → AdmittedSubmission → Option String → Git QueueStatus
with_pull w s (some commit) = verified w s commit
with_pull w s none = do existing ← ref_sha w (branch_of s); with_ref w s existing

abbrev pub unless_contained : Outside → AdmittedSubmission → Bool → Git QueueStatus
unless_contained w s true = pure already_queued
unless_contained w s false = do pull ← find_pull_request w (branch_of s); with_pull w s pull

unfoldable pub enqueue_under_admission_lock : Outside → AdmittedSubmission → Git QueueStatus
enqueue_under_admission_lock w s = do
  verify_readiness w
  contained ← base_contains w (path_of s).path s.exact_json w.base_branch
  unless_contained w s contained
