-- ===== src/Relay/Queue/Reads.antt =====
-- apps/submission-relay/src/github-queue.ts: the operations that only read the repository.
use Prim.Native.String.{String}
use qvac_atlas.Base.{
  Bool, true, false, not, ◌||◌, Option, none, some, List, [], ◌∷◌, ◌==◌, ◌=ₜ◌, leb, length,
  if◌then◌else◌,
}
use qvac_atlas.Submission.Client.{Response}
use qvac_atlas.Relay.Queue.GitHub.{
  get_repository, get_open_pulls, get_queue_refs, get_ref, get_commit, get_blob, get_tree,
  get_pulls_of, get_compare, get_contents, Outside, Git, ◌>>=◌, ◌>>◌, pure, lift, check, request,
  bounded_json, json,
}
use qvac_atlas.Relay.Queue.Values.{
  at, array, sha, is_ready, Commit, commit_of, text_of_blob, entry_sha, is_single_addition,
  text_of_file, distinct_refs, pull_of, the_only,
}

unfoldable pub verify_readiness : Outside → Git (Unit {0})
verify_readiness w = do v ← json w get_repository 200; check (is_ready w v)

abbrev pub found_ref : Outside → Response → Git (Option String)
found_ref w r = if r.status == 404 then pure none else do
  check (r.status == 200)
  v ← lift (bounded_json w r)
  s ← lift (sha (at (at v "object") "sha"))
  pure (some s)

unfoldable pub ref_sha : Outside → String → Git (Option String)
ref_sha w branch = do r ← request w (get_ref branch); found_ref w r

unfoldable pub commit_object : Outside → String → Git Commit
commit_object w commit_sha = do v ← json w (get_commit commit_sha) 200; lift (commit_of v)

unfoldable pub blob_text : Outside → String → Git String
blob_text w blob_sha = do v ← json w (get_blob blob_sha) 200; lift (text_of_blob w v)

abbrev pub is_last : List String → Bool
is_last [] = true
is_last (s ∷ ss) = false

-- The path is given as its segments.
unfoldable pub path_blob_sha : Outside → String → List String → Git String
path_blob_sha w tree [] = pure tree
path_blob_sha w tree (segment ∷ segments) = do
  v ← json w (get_tree tree) 200
  next ← lift (entry_sha v segment (is_last segments))
  path_blob_sha w next segments

-- A path of the queue, with its segments.
pub record QueuePath : Type 0 where
  pub path : String
  pub segments : List String

unfoldable pub verify_queue_commit : Outside → String → QueuePath → String → Git (Unit {0})
verify_queue_commit w commit_sha p exact = do
  commit ← commit_object w commit_sha
  parent ← lift (the_only commit.parent_shas)
  comparison ← json w (get_compare parent commit_sha) 200
  check (is_single_addition commit_sha p.path comparison)
  blob ← path_blob_sha w commit.tree_sha p.segments
  stored ← blob_text w blob
  check (stored =ₜ exact)

abbrev pub found_file : Outside → String → Response → Git Bool
found_file w exact r = if r.status == 404 then pure false else do
  check (r.status == 200)
  v ← lift (bounded_json w r)
  stored ← lift (text_of_file w v)
  check (stored =ₜ exact)
  pure true

unfoldable pub base_contains : Outside → String → String → String → Git Bool
base_contains w path exact ref = do r ← request w (get_contents path ref); found_file w exact r

unfoldable pub assert_capacity : Outside → Git (Unit {0})
assert_capacity w = do
  pulls ← json w get_open_pulls 200
  refs ← json w get_queue_refs 200
  pending ← lift (array pulls)
  entries ← lift (array refs)
  seen ← lift (distinct_refs [] entries)
  check (not (leb w.max_pending (length pending) || leb w.max_pending (length seen)))

unfoldable pub find_pull_request : Outside → String → Git (Option String)
find_pull_request w branch = do v ← json w (get_pulls_of branch) 200; lift (pull_of w branch v)
