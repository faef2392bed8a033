-- ===== src/Submission/Tests.antt =====
-- Runs of the submission protocol and its client at concrete inputs.
use qvac_atlas.Base.{
  ◌≡◌, refl, ◌↔◌, false, none, some, [], ◌∷◌, ◌++◌, map, arith, codes, ok, Ensures, bind_result,
  or_raise, require,
}
use qvac_atlas.Json.{record_of, to_string}
use qvac_atlas.Json.Keys.{has_exact_keys}
use qvac_atlas.Submission.Stream.{
  chunk, whole, too_long, assemble, drain, drain_from, declares_more,
}
use qvac_atlas.Submission.Stream.Laws.{drain-concat, drain-AreFilled}
use qvac_atlas.Submission.Protocol.{
  is_report_id, is_submission_eligible_report, is_genuine, report_id_of, admit_exact_submission,
  parse_receipt,
}
use qvac_atlas.Submission.Protocol.Laws.{IsAdmissible, admit_lem}
use qvac_atlas.Submission.Client.{
  Network, is_pinned, pinned_origin, is_json_type, bounded_response_text, response_text, received,
  answered, submit, create_anonymous_submission_client,
}
use qvac_atlas.Submission.Client.Laws.{IsSparing, IsReceipted, submit-IsReceipted}
use qvac_atlas.Submission.Sample.{exact, submission, receipt, codec, decode, url, client}

abbrev network : Network
network = record {
  fetch = λ p. some (record {
    status = 202;
    content_type = some "application/json; charset=utf-8";
    content_length = none;
    body = some (chunk (codes "rece") ∷ chunk (codes "ipt\n") ∷ []);
  });
  decode = decode;
  aborted_before = false;
  aborted_after = false;
  timed_out_after = false;
}

drain-concat_example :
    drain 4 (map chunk ((1 ∷ 2 ∷ []) ∷ [] ∷ (3 ∷ 4 ∷ []) ∷ [])) ≡ whole (1 ∷ 2 ∷ 3 ∷ 4 ∷ [])
drain-concat_example = drain-concat 4 ((1 ∷ 2 ∷ []) ∷ [] ∷ (3 ∷ 4 ∷ []) ∷ [])

drain-AreFilled_example :
    drain 1 (map chunk ((1 ∷ []) ∷ (2 ∷ []) ∷ []) ++ (chunk (3 ∷ []) ∷ [])) ≡ too_long
drain-AreFilled_example =
    drain-AreFilled 1 ((1 ∷ []) ∷ (2 ∷ []) ∷ []) (chunk (3 ∷ []) ∷ [])
      (omega arith, (omega arith, tt)) (omega arith)

admit_lem_example :
    (admit_exact_submission codec exact ≡ ok submission) ↔ IsAdmissible codec exact submission
admit_lem_example = admit_lem codec exact submission

submit-IsReceipted_example :
    IsSparing codec client exact (submit codec network client exact).sent
    × Ensures (IsReceipted codec network client exact) (submit codec network client exact).result
submit-IsReceipted_example = submit-IsReceipted codec network client exact

create_client :
    create_anonymous_submission_client
      (λ _. some (record url { pathname = "/" }))
      "https://relay.example"
      none
    ≡ ok client
unfolding create_anonymous_submission_client pinned_origin is_pinned bind_result or_raise require
create_client = refl

submit_sample : (submit codec network client exact).result ≡ ok receipt
unfolding submit answered received is_json_type response_text bounded_response_text declares_more
    drain drain_from assemble bind_result or_raise require admit_exact_submission record_of
    is_submission_eligible_report is_genuine report_id_of is_report_id has_exact_keys parse_receipt
    to_string
submit_sample = refl
