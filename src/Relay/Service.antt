-- ===== src/Relay/Service.antt =====
-- The relay's handler with its queue: apps/submission-relay as a whole.
use Prim.Native.String.{String}
use mathlib.Core.Path.{subst}
use mathlib.Core.Option.{some_inj}
use qvac_atlas.Base.{
  ℕ, ◌≡◌, refl, sym, inl, inr, Option, none, some, [], ◌∷◌, arith, any, ◌==◌, true, ok,
}
use qvac_atlas.Json.{str}
use qvac_atlas.Submission.Protocol.{
  Codec, AdmittedSubmission, admit_exact_submission, serialize_receipt,
}
use qvac_atlas.Relay.Handler.{Request, Relay, Answer, accepted, status_of, handle}
use qvac_atlas.Relay.Handler.Laws.{IsPost, IsBody, handle-IsHandled}
use qvac_atlas.Relay.Queue.GitHub.{Log, Outside, Step, go, stop}
use qvac_atlas.Relay.Queue.Enqueue.{
  QueueStatus, queued, already_queued, enqueue_under_admission_lock,
}
use qvac_atlas.Relay.Queue.Facts.{IsQueued, IsGated}
use qvac_atlas.Relay.Queue.Rules.{Holds, went, ended}
use qvac_atlas.Relay.Queue.Pushed.{enqueue-Holds}

abbrev pub label : QueueStatus → String
label queued = "queued"
label already_queued = "already-queued"

abbrev pub settled : Step QueueStatus → Option String
settled (go status log) = some (label status)
settled (stop log) = none

-- The handler's queue is the repository.
abbrev pub relay : Outside → Relay
relay w = record { decode = w.decode; enqueue = λ s. settled (enqueue_under_admission_lock w s []) }

-- An answer of status 202: the request is a post whose body is an admitted submission, the queue
-- holds it, and the receipt names it.
abbrev pub IsServed : Codec → Outside → Request → Answer → Type 0
IsServed c w r answer =
    (text receipt : String) × (s : AdmittedSubmission) × (status : QueueStatus) × (log : Log)
    × IsPost r
    × IsBody (relay w) r text
    × (admit_exact_submission c text ≡ ok s)
    × (enqueue_under_admission_lock w s [] ≡ go status log)
    × IsGated w s log
    × IsQueued w s status log
    × (serialize_receipt c (record { status = str (label status); submission_id = s.report_id })
        ≡ ok receipt)
    × (answer ≡ accepted receipt)

went-IsQueued :
    (w : Outside) (s : AdmittedSubmission) (m : Step QueueStatus) (t : String)
    → Holds w s [] (IsQueued w s) m
    → settled m ≡ some t
    → (status : QueueStatus) × (log : Log) × (m ≡ go status log)
      × (label status ≡ t)
      × IsGated w s log
      × IsQueued w s status log
went-IsQueued w s _ t (went {a} {l} g x q) e = (a, l, refl, some_inj.0 e, g, q)
went-IsQueued w s _ t (ended g) e = cc

refused≢accepted :
    (n : ℕ) → any (λ m. n == m) (400 ∷ 404 ∷ 405 ∷ 413 ∷ 415 ∷ []) ≡ true → ¬ (n ≡ 202)
refused≢accepted n e h = ground arith

-- If the relay with the GitHub queue answers with 202, the request is a JSON post to the path of
-- submissions whose whole body, of at most 65,536 bytes, is an admitted submission; the enqueueing
-- ended with a status, and every write of it was allowed by what GitHub had answered before; the
-- status stands for what the repository holds; and the answer is the receipt with this status and
-- the report id.
pub handle-IsServed :
    (c : Codec) (w : Outside) (r : Request)
    → status_of (handle c (relay w) r).answer ≡ 202
    → IsServed c w r (handle c (relay w) r).answer
handle-IsServed c w r e = elim (handle-IsHandled c (relay w) r) [
  | inl (_, refused) ↦ absurd (refused≢accepted _ refused e)
  | inr (text, s, post, body, admitted, _, inl unavailable) ↦ absurd (omega (arith, unavailable, e))
  | inr (text, s, post, body, admitted, _, inr (t, receipt, q, served, answer)) ↦
      let (status, log, run, named, gated, holds) = went-IsQueued w s _ t (enqueue-Holds w s) q in
      (
        text,
        receipt,
        s,
        status,
        log,
        post,
        body,
        admitted,
        run,
        gated,
        holds,
        subst
            (λ l.
              serialize_receipt c (record { status = str l; submission_id = s.report_id })
              ≡ ok receipt)
            (sym named) served,
        answer,
      )
]
