-- ===== src/Relay/Exchange.antt =====
-- A client of packages/submission and a relay of apps/submission-relay that exchange bodies as
-- bytes, cut into any chunks.
use Prim.Native.String
use Prim.Native.String.{String}
use qvac_atlas.Base.{
  ℕ, ◌≤◌, ◌≡◌, ap, ◌∙◌, true, false, Option, none, some, List, map, length, one_of, ok, bind_result,
  or_raise, require, Ensures-ok,
}
use qvac_atlas.Json.{Value, str}
use qvac_atlas.Submission.Stream.{Bytes, Read, chunk, whole, drain, declares_more}
use qvac_atlas.Submission.Stream.Laws.{concat, drain-concat, within-whole}
use qvac_atlas.Submission.Protocol.{
  Codec, AdmittedSubmission, SubmissionReceipt, admit_exact_submission, serialize_receipt,
  parse_receipt, receipt_json, queue_statuses, max_report_bytes, max_response_bytes,
  submission_path,
}
use qvac_atlas.Submission.Protocol.Parts.{IsReportId-is_report_id}
use qvac_atlas.Submission.Protocol.Laws.{
  admit-IsAdmissible, serialize_receipt-canonicalize, parse_receipt-receipt_json,
}
use qvac_atlas.Submission.Client.{
  Url, Response, Network, Posted, AnonymousSubmissionClient, post, submit, submit_admitted,
  answered, received, response_text, bounded_response_text, is_json_type,
}
use qvac_atlas.Relay.Handler.{
  Request, Relay, Answer, json_error, accepted, status_of, handle, handle_at, admit_body,
  bounded_body,
}

-- How texts become bytes and chunks on the way, and what a URL is parsed to.
pub record Wire : Type 0 where
  pub encode : String → Bytes
  pub cut : Bytes → List Bytes
  pub parse_url : String → Option Url
  pub error_text : String → String

-- A text that arrives: its chunks make up its bytes, and its bytes its text.
pub record IsCarried (x : Wire) (decode : Bytes → Option String) (text : String) : Type 0 where
  pub rejoined : concat (x.cut (x.encode text)) ≡ x.encode text
  pub decoded : decode (x.encode text) ≡ some text
  pub counted : length (x.encode text) ≡ String.len text

module _ (x : Wire) where
  abbrev pub carried : String → Option (List Read)
  carried text = some (map chunk (x.cut (x.encode text)))

  abbrev pub request_of : Posted → Request
  request_of p = record {
    url = x.parse_url p.url;
    method = "POST";
    has_content_encoding = false;
    content_type = some "application/json";
    content_length = none;
    body = carried p.body;
  }

  abbrev pub text_of : Answer → String
  text_of (accepted text) = text
  text_of (json_error n code headers) = x.error_text code

  abbrev pub response_of : Answer → Response
  response_of a = record {
    status = status_of a;
    content_type = some "application/json; charset=utf-8";
    content_length = none;
    body = carried (text_of a);
  }

  abbrev pub network : Codec → Relay → Network
  network c w = record {
    fetch = λ p. some (response_of (handle c w (request_of p)).answer);
    decode = w.decode;
    aborted_before = false;
    aborted_after = false;
    timed_out_after = false;
  }

module _ (x : Wire) (c : Codec) (w : Relay) where
  drain-carried :
      (limit : ℕ) (text : String)
      → IsCarried x w.decode text
      → String.len text ≤ limit
      → drain limit (map chunk (x.cut (x.encode text))) ≡ whole (x.encode text)
  drain-carried limit text t h =
      drain-concat limit _ ∙ rw t.rejoined (within-whole limit (x.encode text) (rw t.counted h))

  admit_body-carried :
      (p : Posted) (s : AdmittedSubmission)
      → IsCarried x w.decode p.body
      → String.len p.body ≤ max_report_bytes
      → admit_exact_submission c p.body ≡ ok s
      → admit_body c w (request_of x p) ≡ ok s
  unfolding admit_body bounded_body declares_more bind_result or_raise
  admit_body-carried p s t h e = simp (drain-carried max_report_bytes p.body t h, t.decoded, e)

  handle-carried :
      (p : Posted) (s : AdmittedSubmission) (status text : String) (u : Url)
      → x.parse_url p.url ≡ some u
      → u.pathname ≡ submission_path
      → u.search ≡ ""
      → admit_body c w (request_of x p) ≡ ok s
      → w.enqueue s ≡ some status
      → serialize_receipt c (record { status = str status; submission_id = s.report_id }) ≡ ok text
      → (handle c w (request_of x p)).answer ≡ accepted text
  unfolding handle is_json_type
  handle-carried p s status text u e1 e2 e3 e4 e5 e6 =
      ap (λ o. (handle_at c w (request_of x p) o).answer) e1 ∙ simp (e2, e3, e4, e5, e6)

  received-carried :
      (s : AdmittedSubmission) (text : String) (v : Value) (receipt : SubmissionReceipt)
      → IsCarried x w.decode text
      → String.len text ≤ max_response_bytes
      → c.parse text ≡ some v
      → parse_receipt v s.report_id ≡ ok receipt
      → received c (network x c w) s (response_of x (accepted text)) ≡ ok receipt
  unfolding received is_json_type response_text bounded_response_text declares_more bind_result
      or_raise require
  received-carried s text v receipt t h e1 e2 =
      simp (drain-carried max_response_bytes text t h, t.decoded, e1, e2)

  -- The client gets the receipt with the relay's status and the id of its report, if the report is
  -- admitted, the relay's queue accepts it, both texts survive the wire, the codec parses the
  -- receipt it has printed, and the receipt is short enough.
  pub submit-handle :
      (k : AnonymousSubmissionClient) (exact json status : String) (s : AdmittedSubmission)
      (u : Url)
      → IsCarried x w.decode exact
      → IsCarried x w.decode (String.◌++◌ json "\n")
      → admit_exact_submission c exact ≡ ok s
      → x.parse_url (post k exact).url ≡ some u
      → u.pathname ≡ submission_path
      → u.search ≡ ""
      → w.enqueue s ≡ some status
      → one_of queue_statuses status ≡ true
      → c.canonicalize (receipt_json (record { status = str status; submission_id = s.report_id }))
        ≡ some json
      → c.parse (String.◌++◌ json "\n")
        ≡ some (receipt_json (record { status = str status; submission_id = s.report_id }))
      → String.len (String.◌++◌ json "\n") ≤ max_response_bytes
      → (submit c (network x c w) k exact).result
        ≡ ok (record { status = str status; submission_id = s.report_id })
  unfolding submit answered
  submit-handle k exact json status s u there back e1 e2 e3 e4 e5 listed canonical parsed short =
      let ((_, fits), _, _, _, _, _, _, id, _) = Ensures-ok (admit-IsAdmissible c exact) e1 in
      let (known, _) = IsReportId-is_report_id s.report_id s.digest id in
      let served =
        serialize_receipt-canonicalize status s.report_id listed c json known canonical in
      let read = admit_body-carried (post k exact) s there fits e1 in
      ap (λ r. (submit_admitted c (network x c w) k exact r).result) e1
      ∙ ap (λ a. received c (network x c w) s (response_of x a))
          (handle-carried (post k exact) s status _ u e2 e3 e4 read e5 served)
      ∙ received-carried s _ _ _ back short parsed
          (parse_receipt-receipt_json status s.report_id listed)
