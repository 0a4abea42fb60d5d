-- ===== src/Tests/Auditing.antt =====
-- The report after an upload that a run refers to, with a stray file and a model that is gone.
use executorch_bencher.Prelude.{pos, String, none, List, [], ◌∷◌, Result, ok, err, if◌then◌else◌}
use executorch_bencher.Prelude.Text.{str_eq}
use executorch_bencher.ArtifactKind.{stdout}
use executorch_bencher.ArtifactStore.{IoError, not_found}
use executorch_bencher.Integrity.{IntegrityReport, Pool, Tree, FileType, DirEntry, directory, file}
use executorch_bencher.Integrity.Stored.{Upload, store_all}
use executorch_bencher.Runs.Row.{to_row}
use executorch_bencher.Tests.Disk.{Disk, disk, hasher}
use executorch_bencher.Tests.Instance.{toy}
use executorch_bencher.Tests.Request.{run}
use executorch_bencher.Tests.Uploading.{empty_disk, log}
use executorch_bencher.Tests.Writing.{model_row}

abbrev uploads : List (Upload toy)
uploads =
    record {
      tmp_id = "u";
      id = "artifact-1";
      created_at = "2026";
      kind = stdout;
      filename = none;
      media = none;
      reader = log;
    }
    ∷ []

abbrev uploaded : Disk
uploaded = store_all toy hasher disk "/a" "/t" uploads empty_disk

abbrev entry : FileType → String → Result IoError DirEntry
entry kind name = ok (record { file_name = name; file_type = ok kind })

abbrev listing : String → Result IoError (List (Result IoError DirEntry))
listing path =
    if str_eq path "/a/sha256"
    then ok (entry directory "03" ∷ entry file "stray" ∷ [])
    else if str_eq path "/a/sha256/03"
    then ok (
        entry file "0300000000000000000000000000000000000000000000000000000000000000"
        ∷ entry file "orphan"
        ∷ [])
    else err (not_found path)

abbrev tree : Tree
tree = record { exists = disk.exists uploaded; read_dir = listing }

abbrev pool : Pool toy
pool = record {
  artifacts = disk.rows uploaded;
  runs = to_row run ∷ [];
  models = record model_row { available = pos 0 } ∷ [];
  fails = λ q. none;
}

abbrev report : IntegrityReport toy
report = record {
  unreferenced_artifacts = [];
  artifacts_missing_files = [];
  orphaned_artifact_files = "sha256/03/orphan" ∷ [];
  orphaned_model_files = [];
  unavailable_models = "model-1" ∷ [];
}
