-- ===== src/Submission/Protocol/Parts.antt =====
-- packages/submission/src/protocol.ts: the tests of the profile, the provenance and the report id
-- say of a report's fields what they mean to say.
use Prim.Native.String
use Prim.Native.String.{String}
use Prim.Native.String.append
use qvac_atlas.Base.{
  ℕ, ◌≤◌, ◌≡◌, refl, sym, ap, ◌∙◌, ◌⊎◌, inl, inr, Bool, true, List, [], ◌∷◌, length, all, All,
  codes, is_hex, take_chars, drop_chars, and_true, text_eq-true, eq_refl, arith,
}
use qvac_atlas.Json.{Value, str, obj, null, Fields, get, record_of, is_null, is_text}
use qvac_atlas.Json.Keys.{has_exact_keys}
use qvac_atlas.Submission.Protocol.{
  is_report_id, matches_profile, on_record, is_submission_eligible_report, is_genuine,
}

-- The candidate's profile: four keys and no other, with their texts.
abbrev pub IsCandidate : Fields → Type 0
IsCandidate p =
    (has_exact_keys p ("artifact_sha256" ∷ "id" ∷ "requested_backend" ∷ "version" ∷ []) ≡ true)
    × (get p "id" ≡ str "atlas-smollm2-360m-lifecycle")
    × (get p "version" ≡ str "1.0.0-candidate.1")
    × (get p "artifact_sha256"
        ≡ str "48ab3034d0dd401fbc721eb1df3217902fee7dab9078992d66431f09b7750201")
    × (get p "requested_backend" ≡ str "gpu")

-- A report id: the name of the hash, and 64 hexadecimal digits, which are the digest.
abbrev pub IsReportId : String → String → Type 0
IsReportId id digest =
    (id ≡ String.◌++◌ "sha256:" digest)
    × (length (codes digest) ≡ 64)
    × All (λ c. ((48 ≤ c) × (c ≤ 57)) ⊎ ((97 ≤ c) × (c ≤ 102))) (codes digest)

is_text-str : (v : Value) (s : String) → is_text v s ≡ true → v ≡ str s
is_text-str (str t) s e = ap str (text_eq-true t s e)
is_text-str _ s e = cc

str-is_text : (v : Value) (s : String) → v ≡ str s → is_text v s ≡ true
str-is_text v s e = rw e (eq_refl s)

is_null-null : (v : Value) → is_null v ≡ true → v ≡ null
is_null-null null e = refl
is_null-null _ e = cc

on_record-some :
    (v : Value) (f : Fields → Bool)
    → on_record (record_of v) f ≡ true
    → (fs : Fields) × (v ≡ obj fs) × (f fs ≡ true)
unfolding record_of
on_record-some (obj fs) f e = (fs, refl, e)
on_record-some _ f e = cc

matches_profile-IsCandidate : (p : Fields) → matches_profile p ≡ true → IsCandidate p
matches_profile-IsCandidate p e =
    let (keys, rest) = and_true _ _ e in
    let (id, rest) = and_true _ _ rest in
    let (version, rest) = and_true _ _ rest in
    let (artifact, rest) = and_true _ _ rest in
    let (backend, _) = and_true _ _ rest in
    (
      keys,
      is_text-str _ _ id,
      is_text-str _ _ version,
      is_text-str _ _ artifact,
      is_text-str _ _ backend,
    )

IsCandidate-matches_profile : (p : Fields) → IsCandidate p → matches_profile p ≡ true
IsCandidate-matches_profile p (keys, id, version, artifact, backend) =
    rw
      (
        keys,
        str-is_text _ _ id,
        str-is_text _ _ version,
        str-is_text _ _ artifact,
        str-is_text _ _ backend,
      )
      refl

pub eligible-IsCandidate :
    (report : Fields)
    → is_submission_eligible_report (obj report) ≡ true
    → (profile : Fields) × (get report "profile" ≡ obj profile) × IsCandidate profile
unfolding is_submission_eligible_report record_of
eligible-IsCandidate report e =
    let (profile, known, matched) = on_record-some (get report "profile") matches_profile e in
    (profile, known, matches_profile-IsCandidate profile matched)

pub IsCandidate-eligible :
    (report profile : Fields)
    → get report "profile" ≡ obj profile
    → IsCandidate profile
    → is_submission_eligible_report (obj report) ≡ true
unfolding is_submission_eligible_report record_of
IsCandidate-eligible report profile e h = rw e (IsCandidate-matches_profile profile h)

pub is_genuine-probe :
    (report : Fields)
    → is_genuine report ≡ true
    → (provenance : Fields) × (get report "provenance" ≡ obj provenance)
      × (get provenance "kind" ≡ str "probe")
      × (get provenance "fixture_id" ≡ null)
unfolding is_genuine
is_genuine-probe report e =
    let (p, known, tested) = on_record-some (get report "provenance") _ e in
    let (kind, fixture) = and_true _ _ tested in
    (p, known, is_text-str _ _ kind, is_null-null _ fixture)

pub probe-is_genuine :
    (report p : Fields)
    → get report "provenance" ≡ obj p
    → get p "kind" ≡ str "probe"
    → get p "fixture_id" ≡ null
    → is_genuine report ≡ true
unfolding is_genuine record_of
probe-is_genuine report p e kind fixture = rw (e, kind, fixture) refl

hex_bounds : (c : ℕ) → is_hex c ≡ true → ((48 ≤ c) × (c ≤ 57)) ⊎ ((97 ≤ c) × (c ≤ 102))
hex_bounds c e = ground arith

bounds_hex : (c : ℕ) → ((48 ≤ c) × (c ≤ 57)) ⊎ ((97 ≤ c) × (c ≤ 102)) → is_hex c ≡ true
bounds_hex c (inl (l, h)) = ground arith
bounds_hex c (inr (l, h)) = ground arith

all-All :
    {P : ℕ → Type 0} {p : ℕ → Bool} (cs : List ℕ)
    → ((c : ℕ) → p c ≡ true → P c)
    → all p cs ≡ true
    → All P cs
all-All [] f e = tt
all-All (c ∷ cs) f e = let (h, rest) = and_true _ _ e in (f c h, all-All cs f rest)

All-all :
    {P : ℕ → Type 0} {p : ℕ → Bool} (cs : List ℕ)
    → ((c : ℕ) → P c → p c ≡ true)
    → All P cs
    → all p cs ≡ true
All-all [] f h = refl
All-all (c ∷ cs) f (h, rest) = rw (f c h) (All-all cs f rest)

take_drop : (n : ℕ) (s : String) → s ≡ String.◌++◌ (take_chars n s) (drop_chars n s)
take_drop ℕ.zero s = sym (append.nil s)
take_drop (ℕ.suc n) String.[] = sym (append.nil String.[])
take_drop (ℕ.suc n) (String.◌∷◌ c s) =
    ap (String.◌∷◌ c) (take_drop n s) ∙ sym (append.cons c (take_chars n s) (drop_chars n s))

pub is_report_id-IsReportId :
    (id : String) → is_report_id id ≡ true → IsReportId id (drop_chars 7 id)
unfolding is_report_id
is_report_id-IsReportId id e =
    let (e1, hex) = and_true _ _ e in
    let (named, long) = and_true _ _ e1 in
    (
      take_drop 7 id ∙ ap (λ t. String.◌++◌ t (drop_chars 7 id)) (text_eq-true _ _ named),
      ground arith,
      all-All _ hex_bounds hex,
    )

-- A text put together is taken apart again.
take_drop-append :
    (p t : String)
    → (take_chars (length (codes p)) (String.◌++◌ p t) ≡ p)
      × (drop_chars (length (codes p)) (String.◌++◌ p t) ≡ t)
take_drop-append String.[] t = (refl, append.nil t)
take_drop-append (String.◌∷◌ c p) t =
    let (front, back) = take_drop-append p t in
    let first = append.cons c p t in
    (
      ap (take_chars (ℕ.suc (length (codes p)))) first ∙ ap (String.◌∷◌ c) front,
      ap (drop_chars (ℕ.suc (length (codes p)))) first ∙ back,
    )

pub IsReportId-is_report_id :
    (id digest : String)
    → IsReportId id digest
    → (is_report_id id ≡ true) × (digest ≡ drop_chars 7 id)
unfolding is_report_id
IsReportId-is_report_id id digest (e, long, hex) =
    let (named, rest) = take_drop-append "sha256:" digest in
    rw (e, named, rest, long, All-all (codes digest) bounds_hex hex) (refl, refl)
