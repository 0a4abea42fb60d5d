-- ===== src/Tests/Counting.antt =====
-- A log of which one record was imported before and one is new.
use executorch_bencher.Prelude.{pos, String, true, some, none, List, [], ◌∷◌, ok, ◌≡◌, refl}
use executorch_bencher.Domain.{
  internal, exit_status_try_from, exit_status_as_str, correctness_as_str, platform_as_str,
  device_class_as_str,
}
use executorch_bencher.Host.{as_android, is_complete_lab_snapshot}
use executorch_bencher.Host.Columns.{host_check, host_columns}
use executorch_bencher.ImportLog.Counted.{import_records-IsImported}
use executorch_bencher.ImportLog.Import.{
  World, Setting, Counts, contains, minus_one, triage, triage_repetition, cached_model,
  resolve_model, register_spec,
}
use executorch_bencher.ImportLog.Inserts.{IsImported}
use executorch_bencher.ImportLog.Loop.{
  stdout_artifact, check_json, timing, new_run, insert, process_record, import_record,
  import_records,
}
use executorch_bencher.ImportLog.Manifest.{
  lookup, find_failure, failure_of, failure_start, failed_timing, fill_arg, join, measured, or_text,
}
use executorch_bencher.ModelRegistry.{
  ModelAsset, find_by_sha256, row_to_asset, storage_mode_try_from,
}
use executorch_bencher.Runs.{insert_run, incomplete_internal}
use executorch_bencher.Runs.Row.{to_row}
use executorch_bencher.Runs.Table.{runs_check}
use executorch_bencher.Tests.Disk.{disk, hasher}
use executorch_bencher.Tests.Importing.{setting, manifest, world, first, second}
use executorch_bencher.Tests.Instance.{toy}
use executorch_bencher.Tests.Memory.{memory}
use executorch_bencher.Tests.Registry.{models, files}
use executorch_bencher.Tests.Request.{digest}
use executorch_bencher.Tests.Writing.{model_row}

abbrev half_imported : Setting toy
half_imported = record setting {
  device_class = internal;
  imported = ("a", pos 0) ∷ [];
  manifest = record manifest {
    models =
        (
          "a",
          record {
            path = "/m/a.pte";
            on_device_path = none;
            sha256 = digest;
            tokenizer_path = "/m/tokenizer";
          },
        )
        ∷ [];
    failures =
        record {
          tag = "a";
          rep = pos 2;
          exit_status = "crashed";
          error_summary = "no observer line";
          started_at = some 30;
        }
        ∷ [];
  };
}

abbrev with_model : World {x = toy} disk models memory
with_model = record world { models = model_row ∷ [] }

abbrev start : Counts × List (String × ModelAsset toy)
start = (record { inserted = 0; skipped_existing = 0; skipped_tags = 0 }, [])

abbrev counts : Counts
counts = record { inserted = 1; skipped_existing = 1; skipped_tags = 0 }

ended :
    (import_records hasher disk models memory files
      (λ p. true)
      (λ ms. none)
      (λ n. "1")
      (λ r e. "{}")
      half_imported
      0
      []
      (first ∷ second ∷ [])
      start
      with_model).0
    ≡ ok counts
unfolding import_records import_record triage triage_repetition contains minus_one lookup
    process_record cached_model resolve_model register_spec find_by_sha256 row_to_asset
    storage_mode_try_from failure_of find_failure stdout_artifact check_json timing failed_timing
    failure_start exit_status_try_from new_run measured join fill_arg insert insert_run
    incomplete_internal as_android is_complete_lab_snapshot runs_check to_row host_check
    host_columns platform_as_str device_class_as_str exit_status_as_str correctness_as_str or_text
ended = refl

import_records-IsImported_example :
    IsImported half_imported memory (first ∷ second ∷ []) start.0 counts [] (
      (import_records hasher disk models memory files
        (λ p. true)
        (λ ms. none)
        (λ n. "1")
        (λ r e. "{}")
        half_imported
        0
        []
        (first ∷ second ∷ [])
        start
        with_model).1.runs)
import_records-IsImported_example =
    import_records-IsImported hasher disk models memory files (λ p. true) (λ ms. none) (λ n. "1")
      (λ r e. "{}") half_imported 0 [] (first ∷ second ∷ []) start with_model counts ended
