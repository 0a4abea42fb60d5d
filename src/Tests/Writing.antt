-- ===== src/Tests/Writing.antt =====
-- A run is posted to an empty table, and posted again.
use executorch_bencher.Prelude.{pos, some, none, ◌≡◌, ◌⊎◌, refl, ap, ok, err, [], ◌∷◌, false}
use executorch_bencher.ArtifactStore.{ArtifactRow, row_to_record, get_artifact_record}
use executorch_bencher.ArtifactKind.{kind_try_from, compression_try_from}
use executorch_bencher.ModelRegistry.{
  ModelAsset, ModelRow, row_to_asset, get_model_asset, storage_mode_try_from,
}
use executorch_bencher.Events.{empty_bus}
use executorch_bencher.Runs.{insert_run, get_run, incomplete_internal, from_sqlx}
use executorch_bencher.Runs.Row.{to_row}
use executorch_bencher.Runs.Table.{runs_check}
use executorch_bencher.Runs.Store.{get_run_found}
use executorch_bencher.Runs.RoundTrip.{as_run}
use executorch_bencher.RunsWrite.Handler.{
  insert_failure, parsed, created, Pool, App, create_run, after_conversion, after_references,
  store_run, after_insert, check_references, check_artifacts, read_back, announce,
}
use executorch_bencher.RunsWrite.Outcome.{IsRefused, IsStored, create_run-cases}
use executorch_bencher.RunsWrite.Answers.{
  create_run-duplicate, insert_failure-insert_run, answer_to, is_check,
}
use executorch_bencher.RunsWrite.References.{AllFound, references, check_references-AllFound}
use executorch_bencher.RunsWrite.Validated.{IsValidated, to_new_run-IsValidated}
use executorch_bencher.Tests.Instance.{toy}
use executorch_bencher.Tests.Memory.{memory, find, put}
use executorch_bencher.Sqlx.{SqlxError, unique_violation}
use executorch_bencher.Host.{as_android, is_complete_lab_snapshot}
use executorch_bencher.Host.Columns.{host_check, host_columns}
use executorch_bencher.Domain.{
  platform_as_str, device_class_as_str, exit_status_as_str, correctness_as_str,
}
use executorch_bencher.Tests.Request.{digest, request, run, converted}

abbrev pub model_row : ModelRow toy
model_row = record {
  id = "model-1";
  sha256 = digest;
  original_name = "llama.pte";
  size_bytes = pos 7;
  model_format = "pte";
  storage_mode = "external";
  external_path = some "/models/llama.pte";
  relative_path = none;
  file_modified_at = some 10;
  registered_at = 20;
  last_verified_at = none;
  available = pos 1;
}

abbrev artifact_row : ArtifactRow
artifact_row = record {
  id = "artifact-1";
  sha256 = digest;
  size_bytes = pos 5;
  kind = "output";
  original_filename = none;
  storage_path = "sha256/01/0123";
  media_type = none;
  compression = "none";
  created_at = "2026";
}

abbrev pub pool : Pool toy
pool = record {
  runs = memory;
  select_model = λ db id. ok (some model_row);
  select_artifact = λ db id. ok (some artifact_row);
}

abbrev pub empty : App pool
empty = record { db = []; events = empty_bus }

-- The state in which the run is already stored.
abbrev pub full : App pool
full = record { db = to_row run ∷ []; events = empty_bus }

pub stored_again : (insert_run memory full.db run).0 ≡ err (from_sqlx (unique_violation "runs.id"))
unfolding insert_run incomplete_internal as_android is_complete_lab_snapshot runs_check to_row
    host_check host_columns platform_as_str device_class_as_str exit_status_as_str
    correctness_as_str
stored_again = refl

pub inserted : insert_run memory [] run ≡ (ok tt, to_row run ∷ [])
unfolding insert_run incomplete_internal as_android is_complete_lab_snapshot runs_check to_row
    host_check host_columns platform_as_str device_class_as_str exit_status_as_str
    correctness_as_str
inserted = refl

references_found : check_references pool [] run ≡ ok "llama.pte"
unfolding check_references check_artifacts get_model_asset row_to_asset storage_mode_try_from
    get_artifact_record row_to_record kind_try_from compression_try_from
references_found = refl

found : find full.db "run-1" ≡ some (to_row run)
unfolding to_row
found = refl

read_again : get_run memory (to_row run ∷ []) "run-1" ≡ ok (some (as_run run))
read_again =
    let valid = to_new_run-IsValidated request 3 run converted in
    get_run_found memory (to_row run ∷ []) run (ap ok found) valid.prompt valid.executable

pub stored_once : (create_run pool 3 empty (parsed request)).0 ≡ created (as_run run)
unfolding create_run after_conversion after_references store_run after_insert announce read_back
stored_once = rw (converted, references_found, inserted, read_again)

create_run-cases_example :
    IsRefused pool empty (create_run pool 3 empty (parsed request))
    ⊎ IsStored pool 3 empty (parsed request) (create_run pool 3 empty (parsed request))
create_run-cases_example = create_run-cases pool 3 empty (parsed request)

to_new_run-IsValidated_example : IsValidated run
to_new_run-IsValidated_example = to_new_run-IsValidated request 3 run converted

create_run-duplicate_example : IsRefused pool full (create_run pool 3 full (parsed request))
create_run-duplicate_example =
    create_run-duplicate pool 3 full request run (to_row run) converted (ap ok found)

insert_failure-insert_run_example :
    (c : SqlxError) × ((put full.db (to_row run)).0 ≡ err c)
    × (is_check c ≡ false)
    × (insert_failure toy (from_sqlx (unique_violation "runs.id")) "run-1"
        ≡ answer_to toy c "run-1")
insert_failure-insert_run_example =
    insert_failure-insert_run pool 3 full.db request run (from_sqlx (unique_violation "runs.id"))
      converted stored_again

check_references-AllFound_example :
    ((asset : ModelAsset toy) × (get_model_asset toy (λ id. ok (some model_row)) "model-1"
        ≡ ok (some asset))
      × (asset.original_name ≡ "llama.pte"))
    × AllFound pool [] (references pool run)
check_references-AllFound_example =
    check_references-AllFound pool [] run "llama.pte" references_found
