-- ===== src/Relay/Queue/GitHub.antt =====
-- apps/submission-relay/src/github-queue.ts: requests to GitHub, as a computation that keeps a log of
-- them and may fail. GitHub answers by `answer`, from the exchanges so far; `none` is a request that
-- fails (no token, no connection, or the signal is aborted). A request stands for its URL and body.
use Prim.Native.String.{String}
use qvac_atlas.Base.{ℕ, Bool, Option, none, some, List, ◌∷◌, ◌==◌, and_then, if◌then◌else◌}
use qvac_atlas.Json.{Value}
use qvac_atlas.Submission.Stream.{
  Bytes, Read, Drained, whole, too_long, failed, drain, declares_more,
}
use qvac_atlas.Submission.Client.{Response}

pub data Request : Type 0 where
  get_repository get_open_pulls get_queue_refs : Request
  get_ref get_commit get_blob get_tree get_pulls_of : String → Request
  get_compare get_contents : String → String → Request
  post_blob : String → Request
  post_tree post_commit : String → String → String → Request
  post_ref post_pull : String → String → Request

-- The exchanges so far; the latest first.
abbrev pub Log : Type 0
Log = List (Request × Option Response)

-- The options of the queue, and what the code outside of it does.
pub record Outside : Type 0 where
  pub owner : String
  pub repository : String
  pub repository_id : ℕ
  pub base_branch : String
  pub max_pending : ℕ
  pub answer : Log → Request → Option Response
  pub decode : Bytes → Option String
  pub parse : String → Option Value
  pub from_base64 : String → Bytes
  pub to_base64 : Bytes → String

pub data Step (A : Type 0) : Type 0 where
  go : A → Log → Step A
  stop : Log → Step A

abbrev pub Git : Type 0 → Type 0
Git A = Log → Step A

abbrev pub bind_step : {A B : Type 0} → Step A → (A → Git B) → Step B
bind_step (go a log) f = f a log
bind_step (stop log) f = stop log

unfoldable pub bind_git : {A B : Type 0} → Git A → (A → Git B) → Git B
bind_git m f = λ log. bind_step (m log) f

infixl 5 ◌>>=◌ ◌>>◌
abbrev pub ◌>>=◌ : {A B : Type 0} → Git A → (A → Git B) → Git B
m >>= f = bind_git m f

abbrev pub ◌>>◌ : {A B : Type 0} → Git A → Git B → Git B
m >> n = bind_git m (λ _. n)

unfoldable pub pure : {A : Type 0} → A → Git A
pure a = λ log. go a log

-- A value, or GitHubQueueError.
unfoldable pub lift : {A : Type 0} → Option A → Git A
lift (some a) = λ log. go a log
lift none = λ log. stop log

unfoldable pub check : Bool → Git (Unit {0})
check b = λ log. if b then go tt log else stop log

abbrev pub replied : {A : Type 0} → Option A → Log → Step A
replied (some a) log = go a log
replied none log = stop log

-- `#request`.
unfoldable pub request : Outside → Request → Git Response
request w q = λ log. replied (w.answer log q) ((q, w.answer log q) ∷ log)

abbrev pub max_github_response_bytes : ℕ
max_github_response_bytes = 262144

abbrev pub parsed : Outside → Drained → Option Value
parsed w (whole bytes) = and_then (w.decode bytes) w.parse
parsed w too_long = none
parsed w failed = none

abbrev pub body_json : Outside → Option (List Read) → Option Value
body_json w none = none
body_json w (some reads) = parsed w (drain max_github_response_bytes reads)

unfoldable pub bounded_json : Outside → Response → Option Value
bounded_json w r =
    if declares_more max_github_response_bytes r.content_length then none else body_json w r.body

-- `#json`.
unfoldable pub json : Outside → Request → ℕ → Git Value
json w q expected = do r ← request w q; check (r.status == expected); lift (bounded_json w r)
