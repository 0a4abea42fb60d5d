-- ===== src/ImportLog/Loop.antt =====
-- src/bin/import_observer_log.rs: one record of the log, and the loop. The JSON of the input
-- parameters is `serde_json`'s: `render` gives its text for a record and for whether its start is
-- an estimate.
use executorch_bencher.Prelude.{
  ℕ, ◌+◌, ◌*◌, ℤ, String, Bool, Option, some, none, List, [], ◌∷◌, map, Result, ok, err, ok_or,
  map_err,
}
use executorch_bencher.Prelude.Text.{◌<>◌}
use executorch_bencher.Prelude.Action.{Action, pure, fail, attempt, or_err, ◌>>=◌, ◌>>◌}
use executorch_bencher.ArtifactKind.{stdout}
use executorch_bencher.ArtifactStore.Machine.{Hasher, Machine}
use executorch_bencher.ArtifactStore.Store.{StoredArtifact, store_artifact_bytes}
use executorch_bencher.Artifacts.Names.{utf8}
use executorch_bencher.Domain.{not_checked}
use executorch_bencher.Externals.{Externals}
use executorch_bencher.ImportLog.Import.{
  World, Setting, Counts, Triage, skip_tag, skip_existing, bad_repetition, process, triage, on_disk,
  on_models, Cache, cached_model,
}
use executorch_bencher.ImportLog.Manifest.{
  ImportError, repetitions_start_at_one, no_model_entry, storing_stdout, observer_json, bad_args,
  not_inserted, FailureSpec, lookup, fill_arg, join, failure_of, Timing, failed_timing,
  observed_timing, measured, or_text,
}
use executorch_bencher.ImportLog.Parse.{Observer, Record, strip_prefix}
use executorch_bencher.ModelRegistry.{ModelAsset}
use executorch_bencher.ModelRegistry.Registry.{Files, ModelsTable}
use executorch_bencher.Runs.{RunsError, insert_run}
use executorch_bencher.Runs.Row.{NewRun}
use executorch_bencher.Runs.Table.{RunsTable}

module _ {x : Externals} (h : Hasher) (m : Machine) (mt : ModelsTable x) (rt : RunsTable x)
    (files : Files x) (readable : String → Bool) (from_millis : ℤ → Option (Externals.DateTime x))
    (number_text : ℤ → String) (render : Record x → Bool → String) (setting : Setting x) where
  open x use {Uuid, DateTime, json_from_str, strings_to_string}

  -- The observer line is stored as the log of the run.
  unfoldable pub stdout_artifact :
      ℕ → Record x → Option String → Action ImportError (Machine.State m) (Option Uuid)
  unfolding store_artifact_bytes utf8
  stdout_artifact index r none = pure none
  stdout_artifact index r (some raw_line) = do
    stored ← or_err storing_stdout (
        store_artifact_bytes x h m setting.artifact_root setting.temporary_dir
          (setting.new_id (4 * index + 1)) (setting.new_id (4 * index + 2)) (setting.now_text index)
          stdout (some (r.tag <> "-rep" <> number_text r.rep <> ".stdout.txt")) (some "text/plain")
          (utf8 (raw_line <> "\n")))
    pure (some (StoredArtifact.id stored))

  -- The second parse of the observer line, as JSON.
  unfoldable pub check_json : Option String → Result ImportError (Unit {0})
  unfolding strip_prefix or_text
  check_json none = ok tt
  check_json (some raw_line) =
      checked (json_from_str (or_text raw_line (strip_prefix "PyTorchObserver " raw_line)))
    where
      checked : Option (Externals.Json x) → Result ImportError (Unit {0})
      checked none = err (observer_json raw_line)
      checked (some json) = ok tt

  -- The last case is the one that the source calls unreachable: `failure_of` excludes it.
  unfoldable pub timing :
      List (Record x)
      → Record x
      → Option (Observer x)
      → Option (FailureSpec x)
      → Result ImportError (Timing x)
  unfolding observed_timing failed_timing
  timing before r (some o) failure = observed_timing x from_millis o
  timing before r none (some f) = failed_timing x from_millis before r f
  timing before r none none = err (repetitions_start_at_one r.tag r.rep)

  unfoldable pub new_run :
      Uuid → Record x → ℤ → ModelAsset x → List String → String → Option Uuid → Timing x → NewRun x
  unfolding measured join
  new_run id r repetition asset args args_json stdout_id t =
      let manifest = setting.manifest in
      let n = measured x manifest.prompt_token_count r.observer in
      record {
        id = id;
        started_at = t.started_at;
        finished_at = t.finished_at;
        repetition = repetition;
        command_args_json = args_json;
        command_line = some (manifest.executable_name <> " " <> join args);
        input_parameters_json = render r t.estimated;
        env_vars_json = "{}";
        env_allowlist_version = "none";
        collector_version = manifest.collector_version;
        device_class = setting.device_class;
        device_serial = manifest.host.hostname;
        device_model = manifest.host.device_model;
        host = setting.host;
        git_commit_sha = manifest.git.commit_sha;
        git_dirty = manifest.git.dirty;
        git_branch = manifest.git.branch;
        git_commit_timestamp = manifest.git.commit_timestamp;
        git_commit_subject = manifest.git.commit_subject;
        executable_sha256 = setting.executable_sha256;
        model_asset_id = asset.id;
        prompt_sha256 = setting.prompt_sha256;
        input_token_count = n.prompt_tokens;
        output_token_count = n.generated_tokens;
        prefill_tokens_per_sec = n.prefill;
        decode_tokens_per_sec = n.decode;
        exit_status = t.exit_status;
        correctness_result = not_checked;
        input_artifact_id = some setting.prompt_artifact;
        output_artifact_id = none;
        output_preview = none;
        stdout_artifact_id = stdout_id;
        stderr_artifact_id = none;
        crash_artifact_id = none;
        error_summary = t.error_summary;
      }

  unfoldable pub insert : NewRun x → Action ImportError (World m mt rt) (Unit {0})
  unfolding insert_run
  insert run w = inserted (insert_run rt w.runs run)
    where
      inserted :
          Result RunsError (Unit {0}) × RunsTable.Db rt
          → Result ImportError (Unit {0}) × World m mt rt
      inserted (r, db) = (map_err not_inserted r, record w { runs = db })

  -- A record that is neither skipped nor refused; `before` are the records before it, latest first.
  unfoldable pub process_record :
      ℕ
      → List (Record x)
      → Record x
      → ℤ
      → Cache {x = x} h m mt rt files readable
      → Action ImportError (World m mt rt) (Cache {x = x} h m mt rt files readable)
  unfolding lookup cached_model failure_of stdout_artifact check_json timing new_run insert fill_arg
  process_record index before r repetition cache = do
    spec ← attempt (λ w. ok_or (no_model_entry r.tag) (lookup r.tag setting.manifest.models))
    (asset, cache) ← on_models h m mt rt files readable (
        cached_model h m mt rt files readable (setting.new_id (4 * index)) (setting.now index) r.tag
          spec cache (lookup r.tag cache))
    failure ← attempt (λ w. failure_of x setting.manifest.failures r r.observer)
    let args =
        map (fill_arg spec setting.prompt_path_on_host setting.prompt_text)
          setting.manifest.args_template
    stdout_id ← on_disk h m mt rt files readable (stdout_artifact index r r.raw_line)
    attempt (λ w. check_json r.raw_line)
    t ← attempt (λ w. timing before r r.observer failure)
    args_json ← attempt (λ w. ok_or bad_args (strings_to_string args))
    insert (new_run (setting.new_id (4 * index + 3)) r repetition asset args args_json stdout_id t)
    pure cache

  unfoldable pub import_record :
      ℕ
      → List (Record x)
      → Record x
      → Triage
      → Counts × Cache {x = x} h m mt rt files readable
      → Action ImportError (World m mt rt) (Counts × Cache {x = x} h m mt rt files readable)
  unfolding process_record
  import_record index before r skip_tag (n, cache) =
      pure (record n { skipped_tags = n.skipped_tags + 1 }, cache)
  import_record index before r skip_existing (n, cache) =
      pure (record n { skipped_existing = n.skipped_existing + 1 }, cache)
  import_record index before r bad_repetition (n, cache) =
      fail (repetitions_start_at_one r.tag r.rep)
  import_record index before r (process repetition) (n, cache) = do
    cache ← process_record index before r repetition cache
    pure (record n { inserted = n.inserted + 1 }, cache)

  unfoldable pub import_records :
      ℕ
      → List (Record x)
      → List (Record x)
      → Counts × Cache {x = x} h m mt rt files readable
      → Action ImportError (World m mt rt) Counts
  unfolding import_record triage
  import_records index before [] (n, cache) = pure n
  import_records index before (r ∷ rest) state = do
    state ← import_record index before r (triage setting r) state
    import_records (index + 1) (r ∷ before) rest state
