-- ===== src/Relay/Handler/Laws.antt =====
-- What the relay answers, and what reaches its queue.
use Prim.Native.String.{String}
use qvac_atlas.Base.{
  ◌<◌, ◌≡◌, refl, ◌⊎◌, inl, inr, true, false, ◌&&◌, Option, none, some, List, [], ◌∷◌, map, length,
  ◌==◌, ◌=ₜ◌, if_split, if_not, if_both, text_eq-true, and_true, any, Result, ok, err, Ensures,
  holds, rejected, bind_result, Ensures-bind, Ensures-weaken, or_raise-Ensures, result-Ensures,
}
use qvac_atlas.Submission.Stream.{
  Bytes, Read, chunk, Drained, whole, too_long, failed, drain, declares_more,
}
use qvac_atlas.Submission.Stream.Laws.{IsWhole, drain-IsWhole, drain-concat, within-over, concat}
use qvac_atlas.Submission.Protocol.{
  Codec, Thrown, protocol, body_size, AdmittedSubmission, admit_exact_submission, serialize_receipt,
  max_report_bytes, submission_path,
}
use qvac_atlas.Submission.Client.{Url, is_json_type}
use qvac_atlas.Json.{str}
use qvac_atlas.Relay.Handler.{
  Request, Relay, Answer, accepted, status_of, Handled, decoded_body, read_body, bounded_body,
  refuse, served, queued_as, is_body_size, submit_admitted, admit_body, handle_at, handle,
}

-- A request that is to be read: a plain JSON post to the path of submissions.
abbrev pub IsPost : Request → Type 0
IsPost r =
    ((u : Url) × (r.url ≡ some u) × (u.pathname ≡ submission_path) × (u.search ≡ ""))
    × (r.method ≡ "POST")
    × (r.has_content_encoding ≡ false)
    × (is_json_type r.content_type ≡ true)

-- The text of its body: all of a stream within the limit, decoded.
abbrev pub IsBody : Relay → Request → String → Type 0
IsBody w r text =
    (reads : List Read) × (bytes : Bytes) × (r.body ≡ some reads)
    × IsWhole max_report_bytes reads bytes
    × (w.decode bytes ≡ some text)

-- The answer after a call of the queue.
abbrev pub IsAnswered : Codec → Relay → AdmittedSubmission → Answer → Type 0
IsAnswered c w s answer =
    (status_of answer ≡ 503)
    ⊎ ((status text : String) × (w.enqueue s ≡ some status)
        × (serialize_receipt c (record { status = str status; submission_id = s.report_id })
            ≡ ok text)
        × (answer ≡ accepted text))

-- Refused without a call of the queue, or one admitted submission queued and answered for.
abbrev pub IsHandled : Codec → Relay → Request → Handled → Type 0
IsHandled c w r h =
    ((h.enqueued ≡ [])
      × (any (λ n. status_of h.answer == n) (400 ∷ 404 ∷ 405 ∷ 413 ∷ 415 ∷ []) ≡ true))
    ⊎ ((text : String) × (s : AdmittedSubmission) × IsPost r
        × IsBody w r text
        × (admit_exact_submission c text ≡ ok s)
        × (h.enqueued ≡ s ∷ [])
        × IsAnswered c w s h.answer)

decoded_body-Ensures :
    (w : Relay) (d : Drained)
    → Ensures
        (λ text. (bytes : Bytes) × (d ≡ whole bytes) × (w.decode bytes ≡ some text))
        (decoded_body w.decode d)
decoded_body-Ensures w (whole bytes) =
    Ensures-weaken (or_raise-Ensures _ _) (λ text e. (bytes, refl, e))
decoded_body-Ensures w too_long = rejected
decoded_body-Ensures w failed = rejected

read_body-Ensures :
    (w : Relay) (r : Request) (o : Option (List Read))
    → r.body ≡ o
    → Ensures (IsBody w r) (read_body w.decode o)
read_body-Ensures w r none e = rejected
read_body-Ensures w r (some reads) e =
    Ensures-weaken (decoded_body-Ensures w (drain max_report_bytes reads))
      (λ text (bytes, d, t). (reads, bytes, e, drain-IsWhole _ _ _ d, t))

bounded_body-Ensures : (w : Relay) (r : Request) → Ensures (IsBody w r) (bounded_body w r)
unfolding bounded_body
bounded_body-Ensures w r =
    if_both (Ensures (IsBody w r)) (declares_more max_report_bytes r.content_length) rejected
      (read_body-Ensures w r r.body refl)

admit_body-Ensures :
    (c : Codec) (w : Relay) (r : Request)
    → Ensures
        (λ s. (text : String) × IsBody w r text × (admit_exact_submission c text ≡ ok s))
        (admit_body c w r)
unfolding admit_body
admit_body-Ensures c w r = Ensures-bind (bounded_body-Ensures w r) (λ text b.
    Ensures-weaken (result-Ensures (admit_exact_submission c text)) (λ s e. (text, b, e)))

served-IsAnswered :
    (c : Codec) (w : Relay) (s : AdmittedSubmission) (status : String) (r : Result Thrown String)
    → w.enqueue s ≡ some status
    → serialize_receipt c (record { status = str status; submission_id = s.report_id }) ≡ r
    → IsAnswered c w s (served r)
served-IsAnswered c w s status (ok text) q e = inr (status, text, q, e, refl)
served-IsAnswered c w s status (err x) q e = inl refl

queued_as-IsAnswered :
    (c : Codec) (w : Relay) (s : AdmittedSubmission) (o : Option String)
    → w.enqueue s ≡ o
    → IsAnswered c w s (queued_as c s o)
queued_as-IsAnswered c w s none q = inl refl
queued_as-IsAnswered c w s (some status) q = served-IsAnswered c w s status _ q refl

submit_admitted-IsHandled :
    (c : Codec) (w : Relay) (r : Request) (a : Result Thrown AdmittedSubmission)
    → IsPost r
    → Ensures (λ s. (text : String) × IsBody w r text × (admit_exact_submission c text ≡ ok s)) a
    → IsHandled c w r (submit_admitted c w a)
submit_admitted-IsHandled c w r (ok s) p (holds (text, b, e)) =
    inr (text, s, p, b, e, refl, queued_as-IsAnswered c w s _ refl)
submit_admitted-IsHandled c w r (err e) p h =
    if_both (IsHandled c w r) (is_body_size e) (inl (refl, refl)) (inl (refl, refl))

handle_at-IsHandled :
    (c : Codec) (w : Relay) (r : Request) (o : Option Url)
    → r.url ≡ o
    → IsHandled c w r (handle_at c w r o)
handle_at-IsHandled c w r none e = inl (refl, refl)
handle_at-IsHandled c w r (some u) e =
    if_not (IsHandled c w r) (u.pathname =ₜ submission_path && u.search =ₜ "") (inl (refl, refl))
      (λ at. if_not (IsHandled c w r) (r.method =ₜ "POST") (inl (refl, refl)) (λ post.
        if_split (IsHandled c w r) r.has_content_encoding (λ _. inl (refl, refl))
          (λ plain.
            if_not (IsHandled c w r) (is_json_type r.content_type) (inl (refl, refl)) (λ json.
              let (path, search) = and_true _ _ at in
              submit_admitted-IsHandled c w r _
                (
                  (u, e, text_eq-true _ _ path, text_eq-true _ _ search),
                  text_eq-true _ _ post,
                  plain,
                  json,
                )
                (admit_body-Ensures c w r)))))

-- A request is refused with 400, 404, 405, 413 or 415 without a call of the queue; or it is a JSON
-- post to the path of submissions whose whole body, within the limit, is an admitted submission,
-- which alone is put to the queue, and the answer is 503 or the receipt with the queue's status.
pub handle-IsHandled : (c : Codec) (w : Relay) (r : Request) → IsHandled c w r (handle c w r)
unfolding handle
handle-IsHandled c w r = handle_at-IsHandled c w r r.url refl

too_large-answer :
    (c : Codec) (w : Relay) (r : Request) (cs : List Bytes)
    → r.body ≡ some (map chunk cs)
    → max_report_bytes < length (concat cs)
    → admit_body c w r ≡ err (protocol body_size)
unfolding admit_body bounded_body bind_result
too_large-answer c w r cs b l =
    if_both (λ x. bind_result x (admit_exact_submission c) ≡ err (protocol body_size))
      (declares_more max_report_bytes r.content_length) refl
      (rw (b, drain-concat max_report_bytes cs, within-over max_report_bytes (concat cs) l) refl)

-- A post of more than 65,536 bytes is answered with 413, however it is cut into chunks and whatever
-- length it declares, and is not queued.
pub handle-concat :
    (c : Codec) (w : Relay) (r : Request) (cs : List Bytes)
    → IsPost r
    → r.body ≡ some (map chunk cs)
    → max_report_bytes < length (concat cs)
    → handle c w r ≡ refuse 413 "submission-too-large" []
unfolding handle
handle-concat c w r cs ((u, e1, e2, e3), e4, e5, e6) b l =
    simp (e1, e2, e3, e4, e5, e6, too_large-answer c w r cs b l)
