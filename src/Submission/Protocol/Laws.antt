-- ===== src/Submission/Protocol/Laws.antt =====
-- What admission asks of a submission, and the receipt that comes back.
use Prim.Native.String
use Prim.Native.String.{String}
use qvac_atlas.Base.{
  ℕ, ◌≤◌, ◌<◌, ◌≡◌, refl, true, not, ◌&&◌, some, ltb, text_eq, text_eq-true, eq_refl, arith, one_of,
  ok, bind_result, or_raise, require, Ensures, holds, rejected, Ensures-bind, Ensures-ok, ◌↔◌,
  Ensures-require, Ensures-raise,
}
use qvac_atlas.Json.{Value, str, obj, null, Fields, get, record_of, to_string}
use qvac_atlas.Json.Keys.{has_exact_keys}
use qvac_atlas.Submission.Protocol.{
  Codec, Thrown, protocol, report_id, AdmittedSubmission, SubmissionReceipt, max_report_bytes,
  is_report_id, report_id_of, string_of, admit_exact_submission, queue_statuses, receipt_json,
  serialize_receipt, parse_receipt,
}
use qvac_atlas.Submission.Protocol.Parts.{
  IsCandidate, IsReportId, eligible-IsCandidate, IsCandidate-eligible, is_genuine-probe,
  probe-is_genuine, is_report_id-IsReportId, IsReportId-is_report_id,
}

-- What makes a text a submission with the given parts.
abbrev pub IsAdmissible : Codec → String → AdmittedSubmission → Type 0
IsAdmissible c exact s =
    ((0 < String.len exact) × (String.len exact ≤ 65536))
    × (c.parse exact ≡ some (obj s.report))
    × ((json : String) × (c.canonicalize (obj s.report) ≡ some json)
        × (exact ≡ String.◌++◌ json "\n"))
    × (c.validate_publishable (obj s.report) ≡ some true)
    × ((profile : Fields) × (get s.report "profile" ≡ obj profile) × IsCandidate profile)
    × ((provenance : Fields) × (get s.report "provenance" ≡ obj provenance)
        × (get provenance "kind" ≡ str "probe")
        × (get provenance "fixture_id" ≡ null))
    × (get s.report "report_id" ≡ str s.report_id)
    × IsReportId s.report_id s.digest
    × (s.exact_json ≡ exact)

pub record_of-Ensures :
    (v : Value) (t : Thrown) → Ensures (λ fs. v ≡ obj fs) (or_raise (record_of v) t)
unfolding record_of or_raise
record_of-Ensures (obj fs) t = holds refl
record_of-Ensures _ t = rejected

string_of-Ensures :
    (v : Value) → Ensures (λ s. v ≡ str s) (or_raise (string_of v) (protocol report_id))
unfolding or_raise
string_of-Ensures (str s) = holds refl
string_of-Ensures _ = rejected

report_id_of-Ensures :
    (v : Value) → Ensures (λ s. (v ≡ str s) × (is_report_id s ≡ true)) (report_id_of v)
unfolding report_id_of
report_id_of-Ensures v =
    Ensures-bind (string_of-Ensures v) (λ s e. Ensures-require _ _ _ (λ t. holds (e, t)))

report_id_of-str :
    (v : Value) (s : String) → v ≡ str s → is_report_id s ≡ true → report_id_of v ≡ ok s
unfolding report_id_of bind_result or_raise require
report_id_of-str v s e t = rw (e, t) refl

size_bounds :
    (n : ℕ) → ltb 0 n && not (ltb max_report_bytes n) ≡ true → (0 < n) × (n ≤ max_report_bytes)
size_bounds n e = (ground arith, ground arith)

size_bounds-true :
    (n : ℕ) → 0 < n → n ≤ max_report_bytes → ltb 0 n && not (ltb max_report_bytes n) ≡ true
size_bounds-true n l m = ground arith

pub admit-IsAdmissible :
    (c : Codec) (exact : String) → Ensures (IsAdmissible c exact) (admit_exact_submission c exact)
unfolding admit_exact_submission
admit-IsAdmissible c exact = Ensures-require _ _ _ (λ size. Ensures-raise _ _ _ (λ parsed e1.
    Ensures-bind (record_of-Ensures parsed _) (λ report e2. Ensures-raise _ _ _ (λ json e3.
      Ensures-require _ _ _ (λ e4. Ensures-raise _ _ _ (λ valid e5. Ensures-require _ _ _ (λ e6.
        Ensures-require _ _ _ (λ e7. Ensures-require _ _ _ (λ e8.
          Ensures-bind (report_id_of-Ensures _) (λ id (known, valid_id). holds (
            size_bounds _ size,
            cc,
            (json, cc, text_eq-true _ _ e4),
            cc,
            eligible-IsCandidate report (cc),
            is_genuine-probe report e8,
            known,
            is_report_id-IsReportId id valid_id,
            refl,
          )))))))))))

pub IsAdmissible-admit :
    (c : Codec) (exact : String) (s : AdmittedSubmission)
    → IsAdmissible c exact s
    → admit_exact_submission c exact ≡ ok s
unfolding admit_exact_submission record_of bind_result or_raise require
IsAdmissible-admit c exact s
      (
        (l, m),
        e1,
        (json, e2, e3),
        e4,
        (profile, e5, candidate),
        (p, e6, kind, fixture),
        e7,
        id,
        e9,
      ) =
    let (valid, digest) = IsReportId-is_report_id s.report_id s.digest id in
    rw
      (
        size_bounds-true (String.len exact) l m,
        e1,
        e2,
        text_eq _ _ e3,
        e4,
        IsCandidate-eligible s.report profile e5 candidate,
        probe-is_genuine s.report p e6 kind fixture,
        report_id_of-str _ _ e7 valid,
      )
      (cc (e9, digest))

-- A submission is admitted exactly if its text has from 1 to 65,536 bytes, parses to a record, is
-- the record's canonical form and a line break, and the record is publishable, has a profile with
-- the candidate's four fields and no other, a provenance of kind "probe" whose fixture is null, and
-- as report id "sha256:" with 64 hexadecimal digits, which are the submission's digest.
pub admit_lem :
    (c : Codec) (exact : String) (s : AdmittedSubmission)
    → (admit_exact_submission c exact ≡ ok s) ↔ IsAdmissible c exact s
admit_lem c exact s =
    ((λ e. Ensures-ok (admit-IsAdmissible c exact) e), IsAdmissible-admit c exact s)

module _ (status id : String) (listed : one_of queue_statuses status ≡ true) where
  abbrev receipt : SubmissionReceipt
  receipt = record { status = str status; submission_id = id }

  pub serialize_receipt-canonicalize :
      (c : Codec) (json : String)
      → is_report_id id ≡ true
      → c.canonicalize (receipt_json receipt) ≡ some json
      → serialize_receipt c receipt ≡ ok (String.◌++◌ json "\n")
  unfolding serialize_receipt bind_result or_raise require
  serialize_receipt-canonicalize c json known canonical = rw (listed, known, canonical) refl

  pub parse_receipt-receipt_json : parse_receipt (receipt_json receipt) id ≡ ok receipt
  unfolding parse_receipt bind_result or_raise require record_of has_exact_keys to_string
  parse_receipt-receipt_json = rw (listed, eq_refl id) refl
