-- ===== src/Executor/LaunchTests.antt =====
-- Executions at concrete inputs.
use qvac_atlas.Base.{◌≡◌, refl, true, false, some, [], ◌∷◌}
use qvac_atlas.Executor.Launch.{
  Material, Grants, issue, create_grant, consumable, consume, Outside, Executor, make_directory,
  remove_directory, launch, attach, send, calls_back, absent, launched, artifact_bootstrap_message,
  run, execute,
}
use qvac_atlas.Executor.Launch.Laws.{
  launches, IsDistinct, launches-IsDistinct, IsContained, execute-IsContained,
}

abbrev model : Material
model = record {
  canonical_path = "/m";
  byte_length = 3;
  sha256 = "00";
  engine = "llamacpp-completion";
}

abbrev grants : Grants
grants = record { issued = (0, model) ∷ []; consumed = [] }

grants_sample : create_grant (some model) (record { issued = []; consumed = [] }) ≡ grants
unfolding create_grant issue
grants_sample = refl

abbrev outside : Outside
outside = record {
  aborted = λ p. false;
  is_windows = false;
  makes_directory = true;
  launching = calls_back true;
  override = absent;
  can_send = true;
  supervised = some [];
}

abbrev executor : Executor
executor = record { grant = 0; used = false }

execute_sample :
    (execute outside grants executor).1.1.calls
    ≡ make_directory
      ∷ launch
      ∷ attach
      ∷ send (artifact_bootstrap_message model)
      ∷ remove_directory
      ∷ []
unfolding execute consume consumable run launched
execute_sample = refl

launches_sample : launches ((outside, executor) ∷ (outside, executor) ∷ []) grants ≡ 0 ∷ []
unfolding execute consume consumable run launched
launches_sample = refl

launches-IsDistinct_example :
    IsDistinct (launches ((outside, executor) ∷ (outside, executor) ∷ []) grants)
launches-IsDistinct_example =
    launches-IsDistinct ((outside, executor) ∷ (outside, executor) ∷ []) grants

execute-IsContained_example : IsContained outside (execute outside grants executor).1.1
execute-IsContained_example = execute-IsContained outside grants executor
