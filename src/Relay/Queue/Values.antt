-- ===== src/Relay/Queue/Values.antt =====
-- apps/submission-relay/src/github-queue.ts: what the queue reads off GitHub's answers.
use Prim.Native.String
use Prim.Native.String.{String}
use qvac_atlas.Base.{
  ℕ, Bool, true, false, not, ◌&&◌, Option, none, some, List, [], ◌∷◌, ◌==◌, ◌=ₜ◌, length, all, keep,
  codes, is_hex, is_space, take_chars, drop_chars, one_of, and_then, if◌then◌else◌,
}
use Prim.Native.Char.{code}
use qvac_atlas.Json.{
  Value, str, num, bool, arr, undefined, items, Fields, get, record_of, is_text, Coerced, text,
  to_string,
}
use qvac_atlas.Submission.Stream.{Bytes}
use qvac_atlas.Relay.Config.{is_base64}
use qvac_atlas.Relay.Queue.GitHub.{Outside}

-- `record(value)?.key`.
abbrev read : Option Fields → String → Value
read (some fs) k = get fs k
read none k = undefined

unfoldable pub at : Value → String → Value
unfolding record_of
at v k = read (record_of v) k

abbrev pub is_bool : Value → Bool → Bool
is_bool (bool true) b = b
is_bool (bool false) b = not b
is_bool _ b = false

abbrev pub is_num : Value → ℕ → Bool
is_num (num n) m = n == m
is_num _ m = false

abbrev pub array : Value → Option (List Value)
array (arr vs) = some (items vs)
array _ = none

-- SHA.
unfoldable pub is_sha : String → Bool
is_sha s = length (codes s) == 40 && all is_hex (codes s)

abbrev sha_text : String → Option String
sha_text s = if is_sha s then some s else none

unfoldable pub sha : Value → Option String
sha (str s) = sha_text s
sha _ = none

abbrev compact : String → String
compact String.[] = String.[]
compact (String.◌∷◌ c s) =
    let rest = compact s in if is_space (code c) then rest else String.◌∷◌ c rest

abbrev from_canonical : Outside → String → Option Bytes
from_canonical w s =
    if is_base64 (codes s) && w.to_base64 (w.from_base64 s) =ₜ s
    then some (w.from_base64 s)
    else none

unfoldable pub decode_base64 : Outside → Value → Option Bytes
decode_base64 w (str s) = from_canonical w (compact s)
decode_base64 w _ = none

unfoldable pub is_ready : Outside → Value → Bool
is_ready w v =
    is_num (at v "id") w.repository_id
    && is_text (at v "full_name") (String.◌++◌ w.owner (String.◌++◌ "/" w.repository))
    && is_bool (at v "private") true
    && is_text (at v "visibility") "private"
    && is_bool (at v "archived") false
    && is_bool (at v "disabled") false
    && is_text (at v "default_branch") w.base_branch
    && is_bool (at (at v "permissions") "push") true

abbrev shas : List Value → Option (List String)
shas [] = some []
shas (v ∷ vs) = and_then (sha (at v "sha")) (λ s. and_then (shas vs) (λ ss. some (s ∷ ss)))

pub record Commit : Type 0 where
  pub parent_shas : List String
  pub tree_sha : String

unfoldable pub commit_of : Value → Option Commit
commit_of v = and_then (array (at v "parents")) (λ vs. and_then (shas vs) (λ parents.
    and_then (sha (at (at v "tree") "sha"))
      (λ tree. some (record { parent_shas = parents; tree_sha = tree }))))

-- The decoded text of a blob's answer.
unfoldable pub text_of_blob : Outside → Value → Option String
text_of_blob w v =
    if is_text (at v "encoding") "base64"
    then and_then (decode_base64 w (at v "content")) w.decode
    else none

abbrev pub the_only : {A : Type 0} → List A → Option A
the_only (a ∷ []) = some a
the_only _ = none

abbrev mode_of : Bool → String
mode_of final = if final then "100644" else "040000"

abbrev type_of : Bool → String
type_of final = if final then "blob" else "tree"

-- The entry of one segment in the answer for a tree.
unfoldable pub entry_sha : Value → String → Bool → Option String
entry_sha v segment final =
    if not (is_bool (at v "truncated") false)
    then none
    else and_then (array (at v "tree")) (λ vs.
      and_then (the_only (keep (λ e. is_text (at e "path") segment) vs)) (λ e.
        if is_text (at e "mode") (mode_of final) && is_text (at e "type") (type_of final)
        then sha (at e "sha")
        else none))

abbrev single : Value → (Value → Bool) → Bool
single (arr vs) p = elim (the_only (items vs)) [ some v ↦ p v | none ↦ false ]
single _ p = false

-- One commit ahead, which is this one, and one added file, which is this one.
unfoldable pub is_single_addition : String → String → Value → Bool
is_single_addition commit path v =
    is_text (at v "status") "ahead"
    && is_num (at v "ahead_by") 1
    && is_num (at v "total_commits") 1
    && single (at v "commits") (λ c. is_text (at c "sha") commit)
    && single (at v "files")
        (λ f. is_text (at f "filename") path && is_text (at f "status") "added")

-- The text of a file's answer.
unfoldable pub text_of_file : Outside → Value → Option String
text_of_file w v = if is_text (at v "type") "file" then text_of_blob w v else none

abbrev queue_prefix : String
queue_prefix = "refs/heads/atlas-anonymous/sha256-"

abbrev is_queue_ref : String → Bool
is_queue_ref s =
    take_chars 34 s =ₜ queue_prefix
    && length (codes s) == 98
    && all is_hex (codes (drop_chars 34 s))

abbrev ref_text : Value → Option String
ref_text (str s) = if is_queue_ref s then some s else none
ref_text _ = none

-- The refs of the queue, each once, or an error.
unfoldable pub distinct_refs : List String → List Value → Option (List String)
distinct_refs seen [] = some seen
distinct_refs seen (v ∷ vs) = and_then (ref_text (at v "ref")) (λ r.
    if one_of seen r
    then none
    else and_then (sha (at (at v "object") "sha")) (λ _. distinct_refs (r ∷ seen) vs))

abbrev is_listed : Coerced → Bool
is_listed (text s) = one_of ("open" ∷ "closed" ∷ []) s
is_listed _ = false

abbrev pull_head : Outside → String → List Value → Option (Option String)
pull_head w branch [] = some none
pull_head w branch (v ∷ []) =
    if is_text (at (at v "head") "ref") branch
      && is_text (at (at v "base") "ref") w.base_branch
      && is_listed (to_string (at v "state"))
    then and_then (sha (at (at v "head") "sha")) (λ s. some (some s))
    else none
pull_head w branch _ = none

-- The head of the only pull request of a branch, if there is one.
unfoldable pub pull_of : Outside → String → Value → Option (Option String)
unfolding to_string
pull_of w branch v = and_then (array v) (pull_head w branch)
