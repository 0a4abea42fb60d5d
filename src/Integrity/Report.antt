-- ===== src/Integrity/Report.antt =====
-- `check` reports exactly what is wrong.
use executorch_bencher.Prelude.{pos, String, false, some, ◌≡◌, ◌↔◌}
use executorch_bencher.Prelude.Search.{Any}
use executorch_bencher.Prelude.Text.{path_join}
use executorch_bencher.ArtifactStore.{ArtifactRow}
use executorch_bencher.Externals.{Externals}
use executorch_bencher.Integrity.{IntegrityReport, Pool, Tree, with_slashes}
use executorch_bencher.Integrity.Found.{IsOnDisk}
use executorch_bencher.ModelRegistry.{ModelRow}
use executorch_bencher.Integrity.Searches.{Refers}

module _ {x : Externals} where
  open x use {Uuid, uuid_parse_str}

  pub record IsReport (tree : Tree) (pool : Pool x) (artifact_root model_root : String)
      (r : IntegrityReport x) : Type 0 where
    pub unreferenced_artifacts :
        (u : Uuid)
        → Any (λ v. v ≡ u) r.unreferenced_artifacts
          ↔ Any
              (λ a.
                (uuid_parse_str (ArtifactRow.id a) ≡ some u)
                × (¬ Any (Refers (ArtifactRow.id a)) pool.runs))
              pool.artifacts
    pub artifacts_missing_files :
        (u : Uuid)
        → Any (λ v. v ≡ u) r.artifacts_missing_files
          ↔ Any
              (λ a.
                (uuid_parse_str (ArtifactRow.id a) ≡ some u)
                × (tree.exists (path_join artifact_root (ArtifactRow.storage_path a)) ≡ false))
              pool.artifacts
    pub orphaned_artifact_files :
        (p : String)
        → Any (λ q. q ≡ p) r.orphaned_artifact_files ↔ (
            IsOnDisk tree artifact_root p
            × (¬ Any (λ a. ArtifactRow.storage_path a ≡ with_slashes p) pool.artifacts))
    pub orphaned_model_files :
        (p : String)
        → Any (λ q. q ≡ p) r.orphaned_model_files ↔ (
            IsOnDisk tree model_root p
            × (¬ Any (λ m. ModelRow.relative_path m ≡ some (with_slashes p)) pool.models))
    pub unavailable_models :
        (u : Uuid)
        → Any (λ v. v ≡ u) r.unavailable_models
          ↔ Any
              (λ m. (uuid_parse_str (ModelRow.id m) ≡ some u) × (ModelRow.available m ≡ pos 0))
              pool.models
