-- ===== src/Executor/Child/Script.antt =====
-- The messages that the child's program can send, if its channel stays connected.
use mathlib.Core.Path.{subst}
use qvac_atlas.Base.{
  ℕ, ap, ◌∙◌, sym, ◌≡◌, refl, Bool, true, false, List, ◌||◌, if◌then◌else◌, Bool-cases, inl, inr,
}
use qvac_atlas.Executor.Phase.{qvac_import, clean_shutdown}
use qvac_atlas.Executor.Protocol.{ChildEvent, started, failed}
use qvac_atlas.Executor.Child.{
  recover, finish, Surroundings, Child, start, Tried, cleanup_failed, run_child, Ended, ending,
}
use qvac_atlas.Executor.Child.Fate.{Fate, IsFate, IsCleaned}
use qvac_atlas.Executor.Child.Cleanup.{cleanup_failed-IsCleaned}
use qvac_atlas.Executor.Child.Work.{
  fails, tell_phase, child_at, Fated, report-tell, import_sdk-Fated,
}

-- The child's state after its `catch` block, and after its `finally` block.
abbrev caught : Fate → Child
caught f = if fails f then tell_phase (child_at f).active_phase failed (child_at f) else child_at f

abbrev pub script : Fate → Bool → List ChildEvent
script f bad =
    (tell_phase clean_shutdown (ending bad) (tell_phase clean_shutdown started (caught f))).sent

abbrev pub exit_code_of : Fate → Bool → ℕ
exit_code_of f bad = if fails f || bad then 1 else 0

-- The child sends the script of where its work ended and whether its cleanup failed, and exits
-- with its code.
pub record IsScripted (w : Surroundings) (e : Ended) : Type 0 where
  pub fate : Fate
  pub bad : Bool
  pub meant : IsFate w fate
  pub cleaned : IsCleaned w bad
  pub sent : e.sent ≡ script fate bad
  pub exit_code : e.exit_code ≡ exit_code_of fate bad

module _ (w : Surroundings) (h : (n : ℕ) → w.connected n ≡ true) where
  recover-caught :
      (t : Tried) (f : Fated w t)
      → ((recover w t).child ≡ caught (f.fate))
        × ((recover w t).failed ≡ fails (f.fate))
        × (cleanup_failed w (recover w t) ≡ cleanup_failed w t)
  unfolding recover
  recover-caught t f = elim (Bool-cases (fails f.fate)) [
    | inl stops ↦
        let raised : t.failed ≡ true = f.failed ∙ stops in
        rw (raised, stops)
          (
            report-tell w h (t.child).active_phase failed f.child
                ∙ ap (λ c. tell_phase c.active_phase failed (child_at f.fate)) f.child,
            refl,
            refl,
          )
    | inr ends ↦
        let passed : t.failed ≡ false = f.failed ∙ ends in rw (passed, ends) (f.child, refl, refl)
  ]

  finish-IsScripted :
      (t : Tried) (f : Fate)
      → IsFate w f
      → IsCleaned w (cleanup_failed w t)
      → t.child ≡ caught f
      → t.failed ≡ fails f
      → IsScripted w (finish w t)
  unfolding finish
  finish-IsScripted t f meant cleaned c e = record {
    fate = f;
    bad = cleanup_failed w t;
    meant = meant;
    cleaned = cleaned;
    sent =
        ap (λ d. d.sent)
          (report-tell w h clean_shutdown (ending (cleanup_failed w t))
            (report-tell w h clean_shutdown started c));
    exit_code = ap (λ b. if b || cleanup_failed w t then 1 else 0) e;
  }

  -- If its channel stays connected, the child's program sends consecutively numbered messages: for
  -- each part of its work up to the first that does not succeed, with the backend that a completion
  -- names, and for its cleanup. The cleanup fails exactly if one of the calls that it owes does not
  -- succeed: to unload a loaded model, to close the SDK, to check a used artifact again. The exit
  -- code is 1 if a part of the work or the cleanup failed, and otherwise 0.
  pub run_child-IsScripted : IsScripted w (run_child w)
  unfolding run_child
  run_child-IsScripted =
      let f =
        import_sdk-Fated w h w.artifact _ refl
          (report-tell w h qvac_import started {d = start} refl) in
      let (c, e, same) = recover-caught _ f in
      let cleaned = subst (IsCleaned w) (sym same) (cleanup_failed-IsCleaned w _ f.stage) in
      finish-IsScripted _ f.fate f.meant cleaned c e
