-- ===== src/Relay/Queue/Facts.antt =====
-- What a log of exchanges with GitHub shows, and when the queue may write.
use Prim.Native.String.{String}
use qvac_atlas.Base.{ℕ, ◌<◌, ◌≡◌, ◌⊎◌, true, Option, none, some, List, [], ◌∷◌, length}
use qvac_atlas.Json.{Value}
use qvac_atlas.Submission.Client.{Response}
use qvac_atlas.Submission.Protocol.{AdmittedSubmission}
use qvac_atlas.Relay.Queue.GitHub.{
  Request, get_repository, get_open_pulls, get_queue_refs, get_ref, get_commit, get_blob, get_tree,
  get_pulls_of, get_compare, get_contents, post_blob, post_tree, post_commit, post_ref, post_pull,
  Log, Outside, bounded_json,
}
use qvac_atlas.Relay.Queue.Values.{
  at, array, sha, is_ready, Commit, commit_of, text_of_blob, entry_sha, is_single_addition,
  text_of_file, distinct_refs, pull_of, the_only,
}
use qvac_atlas.Relay.Queue.Reads.{is_last, QueuePath}
use qvac_atlas.Relay.Queue.Enqueue.{
  QueueStatus, queued, already_queued, branch_of, path_of, title_of,
}

-- A request in the log, with its response.
pub data Answered : Log → Request → Response → Type 0 where
  last : {q : Request} {r : Response} {log : Log} → Answered ((q, some r) ∷ log) q r
  before :
      {q : Request} {r : Response} {log : Log} {e : Request × Option Response}
      → Answered log q r
      → Answered (e ∷ log) q r

abbrev pub IsStatus : Log → Request → ℕ → Type 0
IsStatus log q n = (r : Response) × Answered log q r × (r.status ≡ n)

-- The requests that create something, the latest first.
abbrev pub writes : Log → List Request
writes [] = []
writes ((post_blob t, o) ∷ log) = post_blob t ∷ writes log
writes ((post_tree b p t, o) ∷ log) = post_tree b p t ∷ writes log
writes ((post_commit m p t, o) ∷ log) = post_commit m p t ∷ writes log
writes ((post_ref b c, o) ∷ log) = post_ref b c ∷ writes log
writes ((post_pull b t, o) ∷ log) = post_pull b t ∷ writes log
writes ((_, o) ∷ log) = writes log

module _ (w : Outside) where
  -- GitHub answered a request with a status and a value.
  abbrev pub Told : Log → Request → ℕ → Value → Type 0
  Told log q n v = (r : Response) × Answered log q r × (r.status ≡ n) × (bounded_json w r ≡ some v)

  -- A response that has created an object.
  abbrev pub Made : Response → String → Type 0
  Made r id =
      (r.status ≡ 201) × ((v : Value) × (bounded_json w r ≡ some v) × (sha (at v "sha") ≡ some id))

  -- The segments lead from a tree to a blob.
  abbrev pub IsAt : Log → String → List String → String → Type 0
  IsAt log tree [] blob = tree ≡ blob
  IsAt log tree (segment ∷ segments) blob =
      (v : Value) × (next : String) × Told log (get_tree tree) 200 v
      × (entry_sha v segment (is_last segments) ≡ some next)
      × IsAt log next segments blob

  -- A commit with one parent, ahead of it by one added file, which holds the text.
  abbrev pub IsVerified : Log → String → QueuePath → String → Type 0
  IsVerified log commit p exact =
      ((v : Value) × (c : Commit) × (parent blob : String) × Told log (get_commit commit) 200 v
        × (commit_of v ≡ some c)
        × (the_only c.parent_shas ≡ some parent)
        × ((diff : Value) × Told log (get_compare parent commit) 200 diff
            × (is_single_addition commit p.path diff ≡ true))
        × IsAt log c.tree_sha p.segments blob
        × ((stored : Value) × Told log (get_blob blob) 200 stored
            × (text_of_blob w stored ≡ some exact)))

  -- The repository is the configured one, private and writable.
  abbrev pub IsReady : Log → Type 0
  IsReady log = (v : Value) × Told log get_repository 200 v × (is_ready w v ≡ true)

  -- Fewer open pull requests and fewer refs than the limit.
  abbrev pub HasRoom : Log → Type 0
  HasRoom log =
      ((v : Value) × (pulls : List Value) × Told log get_open_pulls 200 v
        × (array v ≡ some pulls)
        × (length pulls < w.max_pending))
      × ((v : Value) × (entries : List Value) × (seen : List String) × Told log get_queue_refs 200 v
          × (array v ≡ some entries)
          × (distinct_refs [] entries ≡ some seen)
          × (length seen < w.max_pending))

  abbrev pub HasNoPull : Log → String → Type 0
  HasNoPull log branch =
      (v : Value) × Told log (get_pulls_of branch) 200 v × (pull_of w branch v ≡ some none)

  -- A file with the text at the path.
  abbrev pub IsStored : Log → String → String → Type 0
  IsStored log path exact =
      (ref : String) × (v : Value) × Told log (get_contents path ref) 200 v
      × (text_of_file w v ≡ some exact)

  module _ (s : AdmittedSubmission) where
    -- Ready, with nothing queued for the report on the base branch and no pull request for it.
    abbrev pub IsOpen : Log → Type 0
    IsOpen log =
        IsReady log
        × IsStatus log (get_contents (path_of s).path w.base_branch) 404
        × HasNoPull log (branch_of s)

    -- The branch of the report is at a commit.
    abbrev pub IsOn : Log → String → Type 0
    IsOn log commit =
        IsStatus log (post_ref (branch_of s) commit) 201
        ⊎ ((v : Value) × Told log (get_ref (branch_of s)) 200 v
            × (sha (at (at v "object") "sha") ≡ some commit))

    -- What has been written when a pull request is made: nothing, or a ref at last.
    abbrev pub IsBeforePull : List Request → Type 0
    IsBeforePull [] = Unit {0}
    IsBeforePull (post_ref branch commit ∷ _) = Unit {0}
    IsBeforePull _ = ⊥

    -- Whether a request may follow a log: a request that reads, always.
    abbrev pub IsAllowed : Request → Log → Type 0
    IsAllowed (post_blob text) log =
        (text ≡ s.exact_json)
        × IsOpen log
        × IsStatus log (get_ref (branch_of s)) 404
        × HasRoom log
        × (writes log ≡ [])
    IsAllowed (post_tree base path blob) ((post_blob text, some r) ∷ log) =
        Made r blob × (path ≡ (path_of s).path)
    IsAllowed (post_tree base path blob) _ = ⊥
    IsAllowed (post_commit message parent tree) ((post_tree b p t, some r) ∷ log) = Made r tree
    IsAllowed (post_commit message parent tree) _ = ⊥
    IsAllowed (post_ref branch commit) ((post_commit m p t, some r) ∷ log) =
        Made r commit × (branch ≡ branch_of s)
    IsAllowed (post_ref branch commit) _ = ⊥
    IsAllowed (post_pull branch title) log =
        (branch ≡ branch_of s)
        × (title ≡ title_of s)
        × IsOpen log
        × ((commit : String) × IsOn log commit × IsVerified log commit (path_of s) s.exact_json)
        × IsBeforePull (writes log)
    IsAllowed _ log = Unit {0}

    abbrev pub IsGated : Log → Type 0
    IsGated [] = Unit {0}
    IsGated ((q, o) ∷ log) = IsAllowed q log × IsGated log

    -- What each status stands for.
    abbrev pub IsQueued : QueueStatus → Log → Type 0
    IsQueued queued log =
        (commit : String) × IsVerified log commit (path_of s) s.exact_json
        × IsStatus log (post_ref (branch_of s) commit) 201
        × IsStatus log (post_pull (branch_of s) (title_of s)) 201
    IsQueued already_queued log =
        IsStored log (path_of s).path s.exact_json
        ⊎ ((commit : String) × IsVerified log commit (path_of s) s.exact_json)
