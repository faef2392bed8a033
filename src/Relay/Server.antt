-- ===== src/Relay/Server.antt =====
-- apps/submission-relay/src/server.ts: the HTTP server before the handler. The lower-casing of a host,
-- the parser of URLs, the constructor of a Request and UTF-8 are parameters; `none` is an exception.
-- The answer's writing, the timeouts and the listening socket are not modelled.
pub mod Laws
use Prim.Native.String.{String}
use qvac_atlas.Base.{
  ℕ, zero, suc, ◌+◌, ◌-◌, Bool, true, false, not, ◌&&◌, ◌||◌, Option, none, some, List, [], ◌∷◌,
  ◌++◌, ◌==◌, ◌=ₜ◌, leb, length, get_elem?, codes, and_then, if◌then◌else◌,
}
use qvac_atlas.Submission.Stream.{Bytes, Read, chunk, Drained, whole, too_long, failed, drain}
use qvac_atlas.Submission.Protocol.{Codec, AdmittedSubmission, max_report_bytes}
use qvac_atlas.Submission.Client.{Url}
use qvac_atlas.Relay.Handler.{Request, Relay, Answer, json_error, accepted, Handled, handle}

-- An IncomingMessage.
pub record Incoming : Type 0 where
  pub host : Option String
  pub url : Option String
  pub method : Option String
  pub has_content_encoding : Bool
  pub content_type : Option String
  pub content_length : Option String
  pub body : List Read

pub record Outside : Type 0 where
  pub lower_case : String → String
  pub expected_host : String
  pub encode : String → Bytes
  -- the parsed URL of a Request that can be made of a URL, a method and whether there is a body
  pub build : String → String → Bool → Option Url

-- What is written: the health answer, or the handler's or the server's own.
pub data Reply : Type 0 where
  healthy : Reply
  fixed : ℕ → String → Reply
  handled : Handled → Reply

-- `url.startsWith("/") && !url.startsWith("//")`.
abbrev pub is_path : List ℕ → Bool
is_path [] = false
is_path (c ∷ []) = c == 47
is_path (c ∷ d ∷ cs) = c == 47 && not (d == 47)

abbrev pub is_host : Outside → Option String → Bool
is_host w none = false
is_host w (some host) = w.lower_case host =ₜ w.expected_host

-- The handler's request; an empty body is none.
abbrev pub request_of : Outside → Incoming → Url → String → Bytes → String → Request
request_of w r url method bytes text = record {
  url = some url;
  method = method;
  has_content_encoding = r.has_content_encoding;
  content_type = r.content_type;
  content_length = r.content_length;
  body = if length bytes == 0 then none else some (chunk (w.encode text) ∷ []);
}

abbrev pub forward :
    Codec → Relay → Outside → Incoming → String → Option Url → Bytes → String → Reply
forward c relay w r method none bytes text = fixed 400 "bad-request"
forward c relay w r method (some url) bytes text =
    handled (handle c relay (request_of w r url method bytes text))

abbrev pub decoded :
    Codec → Relay → Outside → Incoming → String → String → Bytes → Option String → Reply
decoded c relay w r url method bytes none = fixed 400 "bad-request"
decoded c relay w r url method bytes (some text) =
    forward c relay w r method (w.build url method (not (length bytes == 0))) bytes text

-- `readBody`, and what follows it.
abbrev pub read : Codec → Relay → Outside → Incoming → String → String → Drained → Reply
read c relay w r url method (whole bytes) =
    decoded c relay w r url method bytes (relay.decode bytes)
read c relay w r url method too_long = fixed 413 "submission-too-large"
read c relay w r url method failed = fixed 400 "bad-request"

abbrev pub route : Codec → Relay → Outside → Incoming → Option String → Option String → Reply
route c relay w r (some url) (some method) =
    if not (is_path (codes url))
    then fixed 400 "bad-request"
    else if method =ₜ "GET" && url =ₜ "/healthz"
    then healthy
    else read c relay w r url method (drain max_report_bytes r.body)
route c relay w r _ _ = fixed 400 "bad-request"

-- The server's listener, for a request that is let in.
unfoldable pub serve : Codec → Relay → Outside → Incoming → Reply
serve c relay w r =
    if not (is_host w r.host) then fixed 400 "bad-host" else route c relay w r r.url r.method

-- The requests in the order of their arrival, and `active`.
pub data Place : Type 0 where
  turned_away running ended : Place

pub record Load : Type 0 where
  pub active : ℕ
  pub places : List Place

pub data Event : Type 0 where
  arrive : Event
  finish : ℕ → Event

abbrev pub admit : ℕ → Load → Load
admit limit l =
    if leb limit l.active
    then record l { places = l.places ++ (turned_away ∷ []) }
    else record { active = l.active + 1; places = l.places ++ (running ∷ []) }

abbrev pub end_at : ℕ → List Place → List Place
end_at i [] = []
end_at zero (p ∷ ps) = ended ∷ ps
end_at (suc i) (p ∷ ps) = p ∷ end_at i ps

abbrev pub leave : Option Place → ℕ → Load → Load
leave (some running) i l = record { active = l.active - 1; places = end_at i l.places }
leave _ i l = l

-- `finally { active -= 1; }` of a request that runs.
unfoldable pub step : ℕ → Load → Event → Load
step limit l arrive = admit limit l
step limit l (finish i) = leave (get_elem? l.places i) i l

unfoldable pub steps : ℕ → Load → List Event → Load
steps limit l [] = l
steps limit l (e ∷ es) = steps limit (step limit l e) es
