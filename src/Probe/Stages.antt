-- ===== src/Probe/Stages.antt =====
-- packages/probe/src/real-state-machine.ts: `RealProbeStateMachine`.
use qvac_atlas.Base.{
  ℕ, ◌+◌, String, Bool, Option, none, some, List, [], ◌∷◌, ◌++◌, ◌=ₜ◌, get_elem?, if◌then◌else◌,
}

abbrev pub real_probe_stages : List String
real_probe_stages =
    "created" ∷ "output-vacant" ∷ "privacy-disclosed" ∷ "fingerprint-consented" ∷ "collected"
    ∷ "project-resolved" ∷ "project-code-disclosed" ∷ "project-code-consented" ∷ "doctor-complete"
    ∷ "workload-disclosed" ∷ "workload-consented" ∷ "runtime-complete" ∷ "assembled" ∷ "validated"
    ∷ "draft-previewed" ∷ "publication-chosen" ∷ "final-validated" ∷ "final-previewed"
    ∷ "write-consented" ∷ "written" ∷ "complete" ∷ []

pub record Machine : Type 0 where
  pub index : ℕ
  pub history : List String

abbrev pub created : Machine
created = record { index = 0; history = "created" ∷ [] }

abbrev or_created : Option String → String
or_created none = "created"
or_created (some s) = s

-- `stage`.
abbrev pub stage : Machine → String
stage m = or_created (get_elem? real_probe_stages m.index)

abbrev is_stage : Option String → String → Bool
is_stage none s = Bool.false
is_stage (some t) s = s =ₜ t

-- `advance`; `none` is the exception.
unfoldable pub advance : String → Machine → Option Machine
advance next m =
    if is_stage (get_elem? real_probe_stages (m.index + 1)) next
    then some (record { index = m.index + 1; history = m.history ++ next ∷ [] })
    else none
