-- ===== src/Probe/Pipeline/Gates.antt =====
-- What each call of the pipeline waits for: the reply to the call right before it.
use qvac_atlas.Base.{
  String, ◌≡◌, refl, Bool, true, false, Option, none, some, [], ◌∷◌, ◌=ₜ◌, if◌then◌else◌,
}
use qvac_atlas.Json.{Value, bool}
use qvac_atlas.Probe.Stages.{Machine, advance}
use qvac_atlas.Probe.Pipeline.Snapshots.{
  Answer, good, parse_resolved, parse_doctor_outcome, parse_workload, parse_write_outcome,
  WriteStatus,
}
use qvac_atlas.Probe.Pipeline.Session.{
  Call, preflight, disclose_privacy, decide_fingerprint, resolve, disclose_project_code,
  decide_project_code, run_doctor, disclose_workload, decide_workload, run_workload, preview_draft,
  preview_final, choose_publication, confirm_local_write, write_exclusive, Reply, value, throws,
  Log, Outside, Run, Outcome, written, Step, go, done, Part, bind_step, stop, succeed, reach, moved,
  guarded, coordinator_boundary, decided, check_signal, aborted, preflight_failed, after_effect,
  or_failed, Status,
}

abbrev pub is_good : Answer → Bool
is_good (good v) = true
is_good _ = false

-- Whether a call may follow a log, the latest call first.
abbrev pub allows : Outside → Call → Log → Bool
allows w preflight [] = true
allows w disclose_privacy ((preflight, value (bool true)) ∷ _) = true
allows w decide_fingerprint ((disclose_privacy, value _) ∷ _) = true
allows w resolve ((decide_fingerprint, value (bool true)) ∷ _) = true
allows w disclose_project_code ((resolve, value v) ∷ _) = is_good (parse_resolved v)
allows w decide_project_code ((disclose_project_code, value _) ∷ _) = true
allows w run_doctor ((decide_project_code, value (bool true)) ∷ _) = true
allows w disclose_workload ((run_doctor, value v) ∷ _) = is_good (parse_doctor_outcome v)
allows w decide_workload ((disclose_workload, value _) ∷ _) = true
allows w run_workload ((decide_workload, value (bool true)) ∷ _) = true
allows w (preview_draft json) ((run_workload, value v) ∷ _) =
    is_good (parse_workload w.schema.scan_privacy v)
allows w choose_publication ((preview_draft json, value _) ∷ _) = true
allows w (preview_final json) ((choose_publication, value (bool b)) ∷ _) = true
allows w confirm_local_write ((preview_final json, value _) ∷ _) = true
allows w (write_exclusive json)
      ((confirm_local_write, value (bool true)) ∷ (preview_final shown, value _) ∷ _) =
    json =ₜ shown
allows w _ _ = false

-- Every call of a log was allowed when it was made.
abbrev pub IsGated : Outside → Log → Type 0
IsGated w [] = Unit {0}
IsGated w ((c, r) ∷ log) = (allows w c log ≡ true) × IsGated w log

abbrev is_written : WriteStatus → Bool
is_written WriteStatus.written = true
is_written _ = false

-- The last call of a log wrote a text, and was answered so.
abbrev pub wrote : String → Log → Bool
wrote json ((write_exclusive text, value v) ∷ _) =
    if json =ₜ text then is_written (parse_write_outcome v) else false
wrote json _ = false

-- A run says that a text is written only if it is.
abbrev pub Agrees : Outcome → Log → Type 0
Agrees (written report json history) log = wrote json log ≡ true
Agrees _ log = Unit {0}

-- A step whose log is gated, and that leaves its value and its log in a relation if it goes on.
abbrev pub Holds : {A : Type 0} → Outside → (A → Log → Type 0) → Step A → Type 0
Holds w P (go a r) = IsGated w r.log × P a r.log
Holds w P (done o r) = IsGated w r.log × Agrees o r.log

pub bind_step-Holds :
    {A B : Type 0} (w : Outside) (P : A → Log → Type 0) (Q : B → Log → Type 0) (m : Step A)
    (f : A → Part B)
    → Holds w P m
    → ((a : A) (r : Run) → IsGated w r.log → P a r.log → Holds w Q (f a r))
    → Holds w Q (bind_step m f)
bind_step-Holds w P Q (go a r) f (g, p) k = k a r g p
bind_step-Holds w P Q (done o r) f h k = h

module _ (w : Outside) where
  -- What leaves the log as it is.
  moved-Holds :
      (r : Run) (o : Option Machine) → IsGated w r.log → Holds w (λ _ l. l ≡ r.log) (moved r o)
  moved-Holds r none g = (g, tt)
  moved-Holds r (some m) g = (g, refl)

  pub reach-Holds :
      (next : String) (r : Run) → IsGated w r.log → Holds w (λ _ l. l ≡ r.log) (reach next r)
  unfolding reach
  reach-Holds next r g = moved-Holds r (advance next r.machine) g

  pub decided-Holds :
      (v : Value) (r : Run)
      → IsGated w r.log
      → Holds w (λ _ l. (l ≡ r.log) × (v ≡ bool true)) (decided v r)
  decided-Holds (bool true) r g = (g, (refl, refl))
  decided-Holds (bool false) r g = (g, tt)
  decided-Holds Value.undefined r g = (g, tt)
  decided-Holds Value.null r g = (g, tt)
  decided-Holds (Value.num n) r g = (g, tt)
  decided-Holds (Value.negative n) r g = (g, tt)
  decided-Holds Value.inexact r g = (g, tt)
  decided-Holds (Value.str s) r g = (g, tt)
  decided-Holds (Value.arr xs) r g = (g, tt)
  decided-Holds (Value.obj fs) r g = (g, tt)

  pub if-Holds :
      {A : Type 0} (P : A → Log → Type 0) (b : Bool) (s : Status) (m : Part A) (r : Run)
      → IsGated w r.log
      → Holds w P (m r)
      → Holds w P ((if b then stop s else m) r)
  if-Holds P true s m r g h = (g, tt)
  if-Holds P false s m r g h = h

  pub check_signal-Holds :
      (r : Run) → IsGated w r.log → Holds w (λ _ l. l ≡ r.log) (check_signal w r)
  check_signal-Holds r g = if-Holds _ (w.aborted r.reads) aborted (succeed tt) _ g (g, refl)

  after_effect-Holds :
      (c : Call) (r : Run) (x : Reply) (log : Log)
      → r.log ≡ (c, x) ∷ log
      → IsGated w r.log
      → Holds w (λ v l. l ≡ (c, value v) ∷ log) (after_effect w x r)
  after_effect-Holds c r (value v) log e g =
      if-Holds _ (w.aborted r.reads) aborted (succeed v) _ g (g, e)
  after_effect-Holds c r throws log e g =
      if-Holds _ (w.aborted r.reads) aborted (stop preflight_failed) _ g (g, tt)

  pub guarded-Holds :
      (c : Call) (r : Run)
      → IsGated w r.log
      → allows w c r.log ≡ true
      → Holds w (λ v l. l ≡ (c, value v) ∷ r.log) (guarded w c r)
  unfolding guarded
  guarded-Holds c r g a =
      if-Holds _ (w.aborted r.reads) aborted _ _ g
        (after_effect-Holds c _ (w.reply r.log c) r.log refl (a, g))

  or_failed-Holds :
      (c : Call) (r : Run) (x : Reply) (log : Log)
      → r.log ≡ (c, x) ∷ log
      → IsGated w r.log
      → Holds w (λ v l. l ≡ (c, value v) ∷ log) (or_failed x r)
  or_failed-Holds c r (value v) log e g = (g, e)
  or_failed-Holds c r throws log e g = (g, tt)

  pub coordinator_boundary-Holds :
      (c : Call) (r : Run)
      → IsGated w r.log
      → allows w c r.log ≡ true
      → Holds w (λ v l. l ≡ (c, value v) ∷ r.log) (coordinator_boundary w c r)
  unfolding coordinator_boundary
  coordinator_boundary-Holds c r g a =
      if-Holds _ (w.aborted r.reads) aborted _ _ g
        (or_failed-Holds c _ (w.reply r.log c) r.log refl (a, g))
