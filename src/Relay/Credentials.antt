-- ===== src/Relay/Credentials.antt =====
-- apps/submission-relay/src/github-app.ts: the token of the GitHub app, kept and renewed. The clock's
-- readings, in milliseconds, Date.parse, JSON.parse, the UTF-8 decoder and GitHub's answer to a mint
-- are parameters; `none` is an exception or NaN. The signing of the request is not modelled.
pub mod Laws
use Prim.Native.String.{String}
use qvac_atlas.Base.{
  ℕ, ◌+◌, Bool, true, false, not, ◌&&◌, ◌||◌, Option, none, some, List, [], ◌∷◌, ◌++◌, map, ◌==◌,
  ltb, length, any, codes, and_then, Result, ok, err, bind_result, or_raise, require, if◌then◌else◌,
}
use qvac_atlas.Json.{Value, str, Fields, get, record_of, is_text}
use qvac_atlas.Json.Keys.{has_exact_keys}
use qvac_atlas.Submission.Stream.{
  Bytes, Read, Drained, whole, too_long, failed, drain, declares_more,
}
use qvac_atlas.Submission.Client.{Response}
use qvac_atlas.Relay.Config.{utf16_length, is_blank_or_control}

pub record Outside : Type 0 where
  pub decode : Bytes → Option String
  pub parse : String → Option Value
  pub parse_date : String → Option ℕ

-- A token with the time at which it expires.
pub record Minted : Type 0 where
  pub token : String
  pub expires_at : ℕ

abbrev pub max_token_response_bytes : ℕ
max_token_response_bytes = 16384

abbrev pub parsed : Outside → Drained → Option Value
parsed w (whole bytes) = and_then (w.decode bytes) w.parse
parsed w too_long = none
parsed w failed = none

abbrev pub body_json : Outside → Option (List Read) → Option Value
body_json w none = none
body_json w (some reads) = parsed w (drain max_token_response_bytes reads)

unfoldable pub bounded_json : Outside → Response → Option Value
bounded_json w r =
    if declares_more max_token_response_bytes r.content_length then none else body_json w r.body

abbrev pub text_of : Value → Option String
text_of (str s) = some s
text_of _ = none

unfoldable pub is_token : String → Bool
is_token s =
    not (ltb (utf16_length (codes s)) 20)
    && not (ltb 4096 (utf16_length (codes s)))
    && not (any is_blank_or_control (codes s))

-- The three permissions that the relay asks for, and no other.
unfoldable pub is_scoped : Fields → Bool
is_scoped permissions =
    has_exact_keys permissions ("contents" ∷ "metadata" ∷ "pull_requests" ∷ [])
    && is_text (get permissions "contents") "write"
    && is_text (get permissions "metadata") "read"
    && is_text (get permissions "pull_requests") "write"

-- Five minutes and sixty-five minutes.
abbrev pub shortest : ℕ
shortest = 300000

abbrev pub longest : ℕ
longest = 3900000

-- The tests of the expiry, with the two readings of the clock.
abbrev pub is_timely : ℕ → ℕ → ℕ → Bool
is_timely expires first second =
    not (ltb expires (first + shortest)) && not (ltb (second + longest) expires)

pub data CredentialError : Type 0 where
  unavailable : CredentialError

unfoldable pub token_of : Outside → Value → ℕ → ℕ → Result CredentialError Minted
token_of w v first second = bind_result (or_raise (record_of v) unavailable) (λ fs.
    bind_result (or_raise (record_of (get fs "permissions")) unavailable) (λ permissions.
      bind_result (or_raise (text_of (get fs "expires_at")) unavailable) (λ date.
        bind_result (or_raise (w.parse_date date) unavailable) (λ expires.
          bind_result (or_raise (text_of (get fs "token")) unavailable) (λ token.
            bind_result (require (is_token token) unavailable) (λ _.
              bind_result (require (is_text (get fs "repository_selection") "selected") unavailable)
                (λ _. bind_result (require (is_scoped permissions) unavailable) (λ _.
                  bind_result (require (is_timely expires first second) unavailable)
                    (λ _. ok (record { token = token; expires_at = expires }))))))))))

-- `#mint`, with the answer to its request.
unfoldable pub mint : Outside → Option Response → ℕ → ℕ → Result CredentialError Minted
mint w answer first second = bind_result (or_raise answer unavailable) (λ r.
    bind_result (require (r.status == 201) unavailable)
      (λ _. bind_result (or_raise (bounded_json w r) unavailable) (λ v. token_of w v first second)))

-- A token given to a caller at a time.
pub record Given : Type 0 where
  pub caller : ℕ
  pub time : ℕ
  pub minted : Minted

-- `#cached`, `#minting` as the callers that await it, what was given, and who was refused.
pub record State : Type 0 where
  pub cached : Option Minted
  pub minting : Option (List ℕ)
  pub given : List Given
  pub refused : List ℕ

pub data Event : Type 0 where
  ask : ℕ → ℕ → Event  -- a caller, and the time
  settle : Option Response → ℕ → ℕ → Event  -- the mint's answer, and the clock's readings

unfoldable pub start : State
start = record { cached = none; minting = none; given = []; refused = [] }

abbrev pub fresh : Option Minted → ℕ → Option Minted
fresh none now = none
fresh (some m) now = if ltb (now + shortest) m.expires_at then some m else none

abbrev pub joined : Option (List ℕ) → ℕ → List ℕ
joined none i = i ∷ []
joined (some callers) i = callers ++ (i ∷ [])

abbrev pub give : ℕ → Minted → ℕ → Given
give now m i = record { caller = i; time = now; minted = m }

-- `token`, up to its `await`.
abbrev pub asked : State → ℕ → ℕ → Option Minted → State
asked s i now (some m) = record s { given = give now m i ∷ s.given }
asked s i now none = record s { minting = some (joined s.minting i) }

-- The mint has settled: `#minting` is cleared, and each caller that awaited it goes on.
abbrev pub resumed : State → List ℕ → ℕ → Result CredentialError Minted → State
resumed s callers now (ok m) = record s {
  cached = some m;
  minting = none;
  given = map (give now m) callers ++ s.given;
}
resumed s callers now (err e) = record s { minting = none; refused = callers ++ s.refused }

abbrev pub settled : Outside → State → Option (List ℕ) → Option Response → ℕ → ℕ → State
settled w s none answer first second = s
settled w s (some callers) answer first second =
    resumed s callers first (mint w answer first second)

unfoldable pub step : Outside → State → Event → State
step w s (ask i now) = asked s i now (fresh s.cached now)
step w s (settle answer first second) = settled w s s.minting answer first second

unfoldable pub steps : Outside → State → List Event → State
steps w s [] = s
steps w s (e ∷ es) = steps w (step w s e) es
