-- ===== src/Relay/Sample.antt =====
-- A sample repository that is empty, and a sample configuration; for the tests.
use Prim.Native.String.{String}
use qvac_atlas.Base.{ℕ, true, false, Option, none, some, List, [], ◌∷◌, ◌=ₜ◌, ◌==◌, if◌then◌else◌}
use qvac_atlas.Json.{Value, str, num, bool, obj, arr, of_items, fields}
use qvac_atlas.Submission.Stream.{Bytes, chunk}
use qvac_atlas.Submission.Client.{Response}
use qvac_atlas.Submission.Sample.{exact}
use qvac_atlas.Relay.Queue.GitHub.{
  Request, get_repository, get_open_pulls, get_queue_refs, get_ref, get_commit, get_blob, get_tree,
  get_pulls_of, get_compare, get_contents, post_blob, post_tree, post_commit, post_ref, post_pull,
  Outside,
}

abbrev sha_a : String
sha_a = "aaaaaaaaaaaaaaaaaaaaaaaaaaaaaaaaaaaaaaaa"

abbrev sha_b : String
sha_b = "bbbbbbbbbbbbbbbbbbbbbbbbbbbbbbbbbbbbbbbb"

abbrev pub list : List Value → Value
list vs = arr (of_items vs)

abbrev repository : Value
repository = obj (
    fields (
      ("id", num 7)
      ∷ ("full_name", str "owner/queue")
      ∷ ("private", bool true)
      ∷ ("visibility", str "private")
      ∷ ("archived", bool false)
      ∷ ("disabled", bool false)
      ∷ ("default_branch", str "main")
      ∷ ("permissions", obj (fields (("push", bool true) ∷ [])))
      ∷ []))

abbrev object : String → Value
object sha = obj (fields (("sha", str sha) ∷ []))

abbrev commit : Value
commit = obj (fields (("parents", list (object sha_a ∷ [])) ∷ ("tree", object sha_b) ∷ []))

abbrev comparison : Value
comparison = obj (
    fields (
      ("status", str "ahead")
      ∷ ("ahead_by", num 1)
      ∷ ("total_commits", num 1)
      ∷ ("commits", list (object sha_b ∷ []))
      ∷ (
        "files",
        list (
            obj (
              fields (
                (
                  "filename",
                  str
                      "submissions/v1/sha256-0123456789abcdef0123456789abcdef0123456789abcdef0123456789abcdef.json",
                )
                ∷ ("status", str "added")
                ∷ []))
            ∷ []),
      )
      ∷ []))

abbrev entry : String → String → String → Value
entry path mode type = obj (
    fields (("path", str path) ∷ ("mode", str mode) ∷ ("type", str type) ∷ ("sha", str sha_b) ∷ []))

abbrev tree : Value
tree = obj (
    fields (
      ("truncated", bool false)
      ∷ (
        "tree",
        list (
            entry "submissions" "040000" "tree"
            ∷ entry "v1" "040000" "tree"
            ∷ entry "sha256-0123456789abcdef0123456789abcdef0123456789abcdef0123456789abcdef.json"
                "100644" "blob"
            ∷ []),
      )
      ∷ []))

abbrev blob : Value
blob = obj (fields (("encoding", str "base64") ∷ ("content", str "QUJD") ∷ []))

-- A value by the first byte of its body.
abbrev parse : String → Option Value
parse s =
    if s =ₜ "repository"
    then some repository
    else if s =ₜ "none"
    then some (list [])
    else if s =ₜ "ref"
    then some (obj (fields (("object", object sha_a) ∷ [])))
    else if s =ₜ "commit"
    then some commit
    else if s =ₜ "comparison"
    then some comparison
    else if s =ₜ "tree"
    then some tree
    else if s =ₜ "blob"
    then some blob
    else if s =ₜ "made"
    then some (object sha_b)
    else none

abbrev names : List (ℕ × String)
names =
    (0, "repository")
    ∷ (1, "none")
    ∷ (2, "ref")
    ∷ (3, "commit")
    ∷ (4, "comparison")
    ∷ (5, "tree")
    ∷ (6, "blob")
    ∷ (7, "made")
    ∷ (9, exact)
    ∷ []

abbrev find : ℕ → List (ℕ × String) → Option String
find n [] = none
find n ((m, s) ∷ rest) = let found = find n rest in if n == m then some s else found

-- A text of one byte by its number, and the sample's own text.
abbrev decode : Bytes → Option String
decode (n ∷ []) = find n names
decode _ = some exact

abbrev reply : ℕ → ℕ → Option Response
reply status n = some (record {
  status = status;
  content_type = none;
  content_length = none;
  body = some (chunk (n ∷ []) ∷ []);
})

-- A repository without pull requests, with the main branch only, that takes every write.
abbrev answer : Request → Option Response
answer get_repository = reply 200 0
answer get_open_pulls = reply 200 1
answer get_queue_refs = reply 200 1
answer (get_ref branch) = if branch =ₜ "main" then reply 200 2 else reply 404 1
answer (get_commit sha) = reply 200 3
answer (get_compare base head) = reply 200 4
answer (get_tree sha) = reply 200 5
answer (get_blob sha) = reply 200 6
answer (get_contents path ref) = reply 404 1
answer (get_pulls_of branch) = reply 200 1
answer (post_blob text) = reply 201 7
answer (post_tree base path sha) = reply 201 7
answer (post_commit message parent sha) = reply 201 7
answer (post_ref branch sha) = reply 201 7
answer (post_pull branch title) = reply 201 7

abbrev pub github : Outside
github = record {
  owner = "owner";
  repository = "queue";
  repository_id = 7;
  base_branch = "main";
  max_pending = 2;
  answer = λ log q. answer q;
  decode = decode;
  parse = parse;
  from_base64 = λ s. 9 ∷ [];
  to_base64 = λ bytes. "QUJD";
}
