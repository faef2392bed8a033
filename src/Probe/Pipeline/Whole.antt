-- ===== src/Probe/Pipeline/Whole.antt =====
-- The previews, the write, and the whole run: every call waits for its gate.
use qvac_atlas.Base.{eq_refl, ◌+◌, String, ◌≡◌, refl, true, false, Option, none, some, ◌∷◌}
use qvac_atlas.Json.{Value, bool}
use qvac_atlas.Probe.Report.{serialize_report}
use qvac_atlas.Probe.Pipeline.Snapshots.{parse_write_outcome, WriteStatus}
use qvac_atlas.Probe.Pipeline.Session.{
  resolve, run_doctor, disclose_workload, preview_draft, preview_final, choose_publication,
  confirm_local_write, write_exclusive, Reply, value, throws, Log, Outside, Run, begin, written,
  Step, go, done, ◌>>=◌, stop, reach, guarded, aborted, preflight_failed,
}
use qvac_atlas.Probe.Pipeline.Steps.{
  input_of, settled_as, collected, preview_of, choose, or_raise, confirmed, confirm, settled, write,
  pipeline,
}
use qvac_atlas.Probe.Pipeline.Gates.{
  if-Holds, IsGated, wrote, Holds, bind_step-Holds, check_signal-Holds, guarded-Holds,
}
use qvac_atlas.Probe.Pipeline.Consent.{Next, reach_then, guarded_reach, open_session-Holds}
use qvac_atlas.Probe.Pipeline.Gated.{
  resolve_project-Holds, check_doctor-Holds, work-Holds, publish-Holds, assemble_report-Holds,
  chosen-Holds,
}

module _ (w : Outside) where
  weaken :
      {A : Type 0} (P Q : A → Log → Type 0) (m : Step A)
      → Holds w P m
      → ((a : A) (l : Log) → P a l → Q a l)
      → Holds w Q m
  weaken P Q (go a r) (g, p) k = (g, k a r.log p)
  weaken P Q (done o r) h k = h

  preview_of-Holds :
      (o : Option String) (r : Run)
      → IsGated w r.log
      → ((json : String) → Next w (preview_draft json) r.log)
      → Holds w (λ _ l. Next w choose_publication l) (preview_of w o r)
  unfolding preview_of
  preview_of-Holds none r g n =
      if-Holds w _ (w.aborted r.reads) aborted _ _ g
        (if-Holds w _ (w.aborted (r.reads + 1)) aborted (stop preflight_failed) _ g (g, tt))
  preview_of-Holds (some json) r g n =
      weaken (λ v l. l ≡ (preview_draft json, value v) ∷ r.log) (λ _ l. Next w choose_publication l)
        (guarded w (preview_draft json) r) (guarded-Holds w (preview_draft json) r g (n json))
        (λ v l e. rw e refl)

  choose-Holds :
      (report : Value) (r : Run)
      → IsGated w r.log
      → ((json : String) → Next w (preview_draft json) r.log)
      → Holds w (λ _ l. (json : String) → Next w (preview_final json) l) (choose w report r)
  unfolding choose
  choose-Holds report r g n =
      bind_step-Holds w (λ _ l. Next w choose_publication l) _ _ _
        (preview_of-Holds (serialize_report w.schema report) r g n)
        (λ _ s gs ns.
          reach_then w (λ l. Next w choose_publication l) _ "draft-previewed" s _ gs ns
            (λ _ t gt nt.
              bind_step-Holds w (λ v l. l ≡ (choose_publication, value v) ∷ t.log) _ _ _
                (guarded-Holds w choose_publication t gt nt)
                (λ v u gu eu.
                  bind_step-Holds w (λ b l. (l ≡ u.log) × (v ≡ bool b)) _ _ _
                    (chosen-Holds w v u gu)
                    (λ b x gx (ex, ev).
                      reach_then w (λ l. (json : String) → Next w (preview_final json) l) _
                        "publication-chosen" x _ gx (λ json. rw (ex, eu, ev) refl)
                        (λ _ y gy ny. (gy, ny))))))

  or_raise-Holds :
      (o : Option String) (r : Run) → IsGated w r.log → Holds w (λ _ l. l ≡ r.log) (or_raise o r)
  or_raise-Holds none r g = (g, tt)
  or_raise-Holds (some s) r g = (g, refl)

  confirmed-Holds :
      (report : Value) (json : String) (v : Value) (r : Run)
      → IsGated w r.log
      → Holds w (λ _ l. (l ≡ r.log) × (v ≡ bool true)) (confirmed report json v r)
  confirmed-Holds report json (bool true) r g = (g, (refl, refl))
  confirmed-Holds report json (bool false) r g = (g, tt)
  confirmed-Holds report json _ r g = (g, tt)

  confirm-Holds :
      (report : Value) (r : Run)
      → IsGated w r.log
      → ((json : String) → Next w (preview_final json) r.log)
      → Holds w (λ json l. Next w (write_exclusive json) l) (confirm w report r)
  unfolding confirm
  confirm-Holds report r g n =
      bind_step-Holds w (λ _ l. l ≡ r.log) _ _ _
        (or_raise-Holds (serialize_report w.schema report) r g)
        (λ json s gs es.
          guarded_reach w (preview_final json) "final-previewed" _ s _ gs (rw es (n json))
            (λ v t gt et.
              bind_step-Holds w (λ d l. l ≡ (confirm_local_write, value d) ∷ t.log) _ _ _
                (guarded-Holds w confirm_local_write t gt (rw et refl))
                (λ d u gu eu.
                  bind_step-Holds w (λ _ l. (l ≡ u.log) × (d ≡ bool true)) _ _ _
                    (confirmed-Holds report json d u gu)
                    (λ _ x gx (ex, ed).
                      reach_then w (λ l. Next w (write_exclusive json) l) _ "write-consented" x _ gx
                        (rw (ex, eu, et, ed) (eq_refl json)) (λ _ y gy ny. (gy, ny))))))

  -- The end of a written run.
  completed-Holds :
      (report : Value) (json : String) (r : Run)
      → IsGated w r.log
      → wrote json r.log ≡ true
      → Holds {A = Unit {0}} w
          (λ _ _. ⊥)
          ((reach "written" >>= λ _.
              reach "complete" >>= λ _ s. done (written report json s.machine.history) s)
            r)
  completed-Holds report json r g h =
      reach_then w (λ l. wrote json l ≡ true) _ "written" r _ g h
        (λ _ s gs hs.
          reach_then w (λ l. wrote json l ≡ true) _ "complete" s _ gs hs (λ _ t gt ht. (gt, ht)))

  settled_as-Holds :
      (report : Value) (json : String) (x : WriteStatus) (r : Run)
      → IsGated w r.log
      → (x ≡ WriteStatus.written → wrote json r.log ≡ true)
      → Holds w (λ _ _. ⊥) (settled_as report json x r)
  unfolding settled_as
  settled_as-Holds report json WriteStatus.written r g h = completed-Holds report json r g (h refl)
  settled_as-Holds report json WriteStatus.write_failed r g h = (g, tt)
  settled_as-Holds report json WriteStatus.cleanup_uncertain r g h = (g, tt)
  settled_as-Holds report json WriteStatus.unclear r g h = (g, tt)

  settled-Holds :
      (report : Value) (json : String) (x : Reply) (log : Log) (r : Run)
      → IsGated w r.log
      → r.log ≡ (write_exclusive json, x) ∷ log
      → Holds w (λ _ _. ⊥) (settled report json x r)
  unfolding settled
  settled-Holds report json throws log r g e = (g, tt)
  settled-Holds report json (value v) log r g e =
      settled_as-Holds report json (parse_write_outcome v) r g (λ p. rw (e, eq_refl json, p) refl)

  write-Holds :
      (report : Value) (json : String) (r : Run)
      → IsGated w r.log
      → Next w (write_exclusive json) r.log
      → Holds w (λ _ _. ⊥) (write w report json r)
  unfolding write
  write-Holds report json r g n =
      bind_step-Holds w (λ _ l. l ≡ r.log) _ _ _ (check_signal-Holds w r g)
        (λ _ s gs es.
          settled-Holds report json (w.reply s.log (write_exclusive json)) s.log _ (rw es n, gs)
            refl)

  collected-Holds :
      (o : Option (Value × (Value × Value))) (r : Run)
      → IsGated w r.log
      → Holds w (λ _ l. l ≡ r.log) (collected o r)
  collected-Holds none r g = (g, tt)
  collected-Holds (some p) r g = (g, refl)

  -- Whatever the collaborators answer and whenever the signal is aborted, a run returns an outcome;
  -- each of its calls was allowed by the reply to the call before: the project's code runs only
  -- after its consent, the workload only after its own, the text that is written is the text of the
  -- last preview, and it is written only after the user confirmed it; and the outcome says that a
  -- text was written only if the last call wrote that text and was answered so.
  pub pipeline-Holds : Holds w (λ _ _. ⊥) (pipeline w begin)
  unfolding pipeline begin
  pipeline-Holds =
      bind_step-Holds w (λ _ l. Next w resolve l) _ _ _ (open_session-Holds w begin tt refl)
        (λ _ a ga na.
          bind_step-Holds w (λ _ l. l ≡ a.log) _ _ _ (collected-Holds w.platform a ga)
            (λ platform b gb eb.
              reach_then w (λ l. Next w resolve l) _ "collected" b _ gb (rw eb na)
                (λ _ c gc nc.
                  bind_step-Holds w (λ _ l. Next w run_doctor l) _ _ _
                    (resolve_project-Holds w c gc nc)
                    (λ qvac d gd nd.
                      bind_step-Holds w (λ _ l. Next w disclose_workload l) _ _ _
                        (check_doctor-Holds w d gd nd)
                        (λ doctor e ge ne.
                          bind_step-Holds w (λ _ l. (json : String) → Next w (preview_draft json) l)
                            _ _ _ (work-Holds w e ge ne)
                            (λ runner f gf nf.
                              bind_step-Holds w (λ _ l. l ≡ f.log) _ _ _
                                (assemble_report-Holds w (input_of platform qvac doctor runner) f
                                  gf)
                                (λ report h gh eh.
                                  bind_step-Holds w
                                    (λ _ l. (json : String) → Next w (preview_final json) l) _ _ _
                                    (choose-Holds report h gh (λ json. rw eh (nf json)))
                                    (λ publication i gi ni.
                                      bind_step-Holds w (λ _ l. l ≡ i.log) _ _ _
                                        (publish-Holds w report publication i gi)
                                        (λ final j gj ej.
                                          bind_step-Holds w
                                            (λ json l. Next w (write_exclusive json) l) _ _ _
                                            (confirm-Holds final j gj (λ json. rw ej (ni json)))
                                            (λ json k gk nk.
                                              write-Holds final json k gk nk))))))))))
