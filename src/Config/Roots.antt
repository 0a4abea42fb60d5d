-- ===== src/Config/Roots.antt =====
-- src/config.rs: the storage roots are made at start-up.
use executorch_bencher.Prelude.{String, List, [], ◌∷◌}
use executorch_bencher.Prelude.Action.{Action, or_err, pure, ◌>>◌}
use executorch_bencher.Config.Vars.{ConfigError, unusable}
use executorch_bencher.Config.Env.{Config}

module _ {S : Type 0} (create_dir_all : String → Action String S (Unit {0})) where
  -- The loop over the labelled roots.
  unfoldable pub prepare_roots : List (String × String) → Action ConfigError S (Unit {0})
  prepare_roots [] = pure tt
  prepare_roots ((label, path) ∷ rest) =
      or_err (unusable label path) (create_dir_all path) >> prepare_roots rest

  unfoldable pub prepare_storage_roots : {A : Type 0} → Config A → Action ConfigError S (Unit {0})
  unfolding prepare_roots
  prepare_storage_roots config = prepare_roots (
      ("artifact root", config.artifact_root)
      ∷ ("model root", config.model_root)
      ∷ ("temporary directory", config.temporary_dir)
      ∷ ("trash directory", config.trash_dir)
      ∷ [])
