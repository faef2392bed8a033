-- ===== src/Submission/Client/Laws.antt =====
-- What leaves the client, and what a receipt that it returns stands for.
use Prim.Native.String.{String}
use qvac_atlas.Base.{
  ℕ, ◌≤◌, ◌≡◌, refl, true, inl, inr, Option, none, some, List, ◌⊎◌, if_both, All, length, ◌==◌,
  arith, Result, ok, err, Ensures, holds, rejected, Ensures-bind, Ensures-weaken, map_error-Ensures,
  or_raise-Ensures, Ensures-require, Ensures-raise, Ensures-ok,
}
use qvac_atlas.Json.{Value}
use qvac_atlas.Submission.Stream.{
  Bytes, Read, Drained, whole, too_long, failed, drain, declares_more,
}
use qvac_atlas.Submission.Stream.Laws.{IsWhole, drain-IsWhole}
use qvac_atlas.Submission.Protocol.{
  Codec, Thrown, protocol, foreign, AdmittedSubmission, SubmissionReceipt, admit_exact_submission,
  parse_receipt, max_response_bytes,
}
use qvac_atlas.Submission.Client.{
  Response, Network, Posted, Raised, decoded, body_text, bounded_response_text, response_text,
  received, answered, AnonymousSubmissionClient, Submitted, post, unsent, submit_admitted, submit,
}

-- The text of a response: empty, or all of a stream of at most 512 bytes, decoded.
abbrev pub IsText : Network → Response → String → Type 0
IsText w r text =
    ((r.body ≡ none) × (text ≡ ""))
    ⊎ ((reads : List Read) × (bytes : Bytes) × (r.body ≡ some reads)
        × IsWhole max_response_bytes reads bytes
        × (w.decode bytes ≡ some text))

-- A 202 answer to a post of the text, whose receipt names the report of the text.
abbrev pub IsReceipted :
    Codec → Network → AnonymousSubmissionClient → String → SubmissionReceipt → Type 0
IsReceipted c w k exact receipt =
    (s : AdmittedSubmission) × (r : Response) × (text : String) × (v : Value)
    × (admit_exact_submission c exact ≡ ok s)
    × (w.fetch (post k exact) ≡ some r)
    × (r.status ≡ 202)
    × IsText w r text
    × (c.parse text ≡ some v)
    × (parse_receipt v s.report_id ≡ ok receipt)

-- What is sent: nothing, or one post of the text, which is admitted.
abbrev pub IsSparing : Codec → AnonymousSubmissionClient → String → List Posted → Type 0
IsSparing c k exact sent =
    (length sent ≤ 1)
    × All
        (λ p.
          (p ≡ post k exact) × ((s : AdmittedSubmission) × (admit_exact_submission c exact ≡ ok s)))
        sent

eq_of_test : (m n : ℕ) → m == n ≡ true → m ≡ n
eq_of_test m n e = ground arith

decoded-Ensures :
    (w : Network) (d : Drained)
    → Ensures
        (λ text. (bytes : Bytes) × (d ≡ whole bytes) × (w.decode bytes ≡ some text))
        (decoded w.decode d)
decoded-Ensures w (whole bytes) = Ensures-weaken (or_raise-Ensures _ _) (λ text e. (bytes, refl, e))
decoded-Ensures w too_long = rejected
decoded-Ensures w failed = rejected

body_text-Ensures :
    (w : Network) (r : Response) (o : Option (List Read))
    → r.body ≡ o
    → Ensures (IsText w r) (body_text w o)
body_text-Ensures w r none e = holds (inl (e, refl))
body_text-Ensures w r (some reads) e =
    Ensures-weaken (decoded-Ensures w (drain max_response_bytes reads))
      (λ text (bytes, d, t). inr (reads, bytes, e, drain-IsWhole _ _ _ d, t))

bounded_response_text-Ensures :
    (w : Network) (r : Response) → Ensures (IsText w r) (bounded_response_text w r)
unfolding bounded_response_text
bounded_response_text-Ensures w r =
    if_both (Ensures (IsText w r)) (declares_more max_response_bytes r.content_length) rejected
      (body_text-Ensures w r r.body refl)

response_text-Ensures : (w : Network) (r : Response) → Ensures (IsText w r) (response_text w r)
unfolding response_text
response_text-Ensures w r =
    Ensures-weaken (map_error-Ensures _ _)
      (λ text e. Ensures-ok (bounded_response_text-Ensures w r) e)

received-Ensures :
    (c : Codec) (w : Network) (s : AdmittedSubmission) (r : Response)
    → Ensures
        (λ receipt.
          (r.status ≡ 202)
          × ((text : String) × (v : Value) × IsText w r text
              × (c.parse text ≡ some v)
              × (parse_receipt v s.report_id ≡ ok receipt)))
        (received c w s r)
unfolding received
received-Ensures c w s r = Ensures-require _ _ _ (λ e1. Ensures-require _ _ _ (λ e2.
    Ensures-bind (response_text-Ensures w r) (λ text e3. Ensures-raise _ _ _ (λ v e4.
      Ensures-weaken (map_error-Ensures _ _)
        (λ receipt e5. (eq_of_test _ _ e1, (text, v, e3, e4, e5)))))))

answered-Ensures :
    (c : Codec) (w : Network) (k : AnonymousSubmissionClient) (exact : String)
    (s : AdmittedSubmission) (o : Option Response)
    → admit_exact_submission c exact ≡ ok s
    → w.fetch (post k exact) ≡ o
    → Ensures (IsReceipted c w k exact) (answered c w s o)
unfolding answered
answered-Ensures c w k exact s none e f = rejected
answered-Ensures c w k exact s (some r) e f =
    Ensures-weaken (received-Ensures c w s r)
      (λ receipt (e1, (text, v, e2, e3, e4)). (s, r, text, v, e, f, e1, e2, e3, e4))

abbrev IsFine : Codec → Network → AnonymousSubmissionClient → String → Submitted → Type 0
IsFine c w k exact t = IsSparing c k exact t.sent × Ensures (IsReceipted c w k exact) t.result

unsent-IsFine :
    (c : Codec) (w : Network) (k : AnonymousSubmissionClient) (exact : String) (e : Raised)
    → IsFine c w k exact (unsent e)
unsent-IsFine c w k exact e = ((omega arith, tt), rejected)

submit_admitted-IsFine :
    (c : Codec) (w : Network) (k : AnonymousSubmissionClient) (exact : String)
    (r : Result Thrown AdmittedSubmission)
    → admit_exact_submission c exact ≡ r
    → IsFine c w k exact (submit_admitted c w k exact r)
submit_admitted-IsFine c w k exact (err (protocol e)) h = unsent-IsFine c w k exact _
submit_admitted-IsFine c w k exact (err foreign) h = unsent-IsFine c w k exact _
submit_admitted-IsFine c w k exact (ok s) h =
    if_both (IsFine c w k exact) w.aborted_before (unsent-IsFine c w k exact _)
      ((omega arith, ((refl, (s, h)), tt)), answered-Ensures c w k exact s _ h refl)

-- The client sends nothing, or one post of the given text, which is then admitted; and a receipt
-- that it returns was parsed, for the report of that text, from the body of a 202 answer to this
-- post, which is empty or all of a stream of at most 512 bytes.
pub submit-IsReceipted :
    (c : Codec) (w : Network) (k : AnonymousSubmissionClient) (exact : String)
    → IsSparing c k exact (submit c w k exact).sent
      × Ensures (IsReceipted c w k exact) (submit c w k exact).result
unfolding submit
submit-IsReceipted c w k exact = submit_admitted-IsFine c w k exact _ refl
