-- ===== src/RunsWrite/Handler.antt =====
-- The handler of `POST /api/v1/runs` (src/runs_write_api.rs, `create_run`). The body arrives as
-- the extractor and the parser leave it; the lookups of model assets and of artifacts are queries
-- on the same pool, which no table of this module changes.
use executorch_bencher.Prelude.{
  ℕ, String, Option, none, some, List, [], ◌∷◌, Result, ok, err, ◌>>=◌, ◌>>◌, map_err, ok_or,
  if◌then◌else◌,
}
use executorch_bencher.Externals.{Externals}
use executorch_bencher.HostRules.{FieldError}
use executorch_bencher.ApiError.{
  ApiError, plain, no_model_asset, no_artifact, run_exists, rejected, invalid_request,
  invalid_field, payload_too_large, conflict, internal_error, from_field_error,
}
use executorch_bencher.ArtifactStore.{ArtifactRow, get_artifact_record}
use executorch_bencher.Events.{Event, run_created, RunCreatedEvent, EventBus, publish}
use executorch_bencher.Host.{platform}
use executorch_bencher.ModelRegistry.{ModelRow, get_model_asset}
use executorch_bencher.Runs.Row.{NewRun, Run}
use executorch_bencher.Runs.Table.{RunsTable}
use executorch_bencher.Runs.{
  RunsError, is_unique_violation, is_foreign_key_violation, insert_run, get_run,
}
use executorch_bencher.RunsWrite.Convert.{CreateRunRequest, to_new_run}
use executorch_bencher.Sqlx.{SqlxError}

module _ (x : Externals) where
  -- What `Bytes::from_request` and `serde_json::from_slice` make of the request.
  pub data Body : Type 0 where
    too_large : Body
    unreadable malformed : String → Body
    parsed : CreateRunRequest x → Body

  -- 201 with the run that was read back, or an error.
  pub data Response : Type 0 where
    created : Run x → Response
    failed : ApiError → Response

-- The database of the runs, with the two lookups that the references go through.
pub record Pool (x : Externals) : Type 1 where
  pub runs : RunsTable x
  pub select_model : RunsTable.Db runs → String → Result SqlxError (Option (ModelRow x))
  pub select_artifact : RunsTable.Db runs → String → Result SqlxError (Option ArtifactRow)

-- The part of `AppState` that a request can change.
pub record App {x : Externals} (p : Pool x) : Type 0 where
  pub db : RunsTable.Db (Pool.runs p)
  pub events : EventBus (Event x)

module _ {x : Externals} where
  unfoldable pub created_event : NewRun x → String → RunCreatedEvent x
  unfolding platform
  created_event run name = record {
    id = run.id;
    started_at = run.started_at;
    finished_at = run.finished_at;
    repetition = run.repetition;
    platform = platform run.host;
    device_class = run.device_class;
    device_serial = run.device_serial;
    device_model = run.device_model;
    model_asset_id = run.model_asset_id;
    model_original_name = name;
    git_commit_sha = run.git_commit_sha;
    git_dirty = run.git_dirty;
    git_branch = run.git_branch;
    exit_status = run.exit_status;
    correctness_result = run.correctness_result;
    prefill_tokens_per_sec = run.prefill_tokens_per_sec;
    decode_tokens_per_sec = run.decode_tokens_per_sec;
  }

module _ (x : Externals) where
  -- The answer to a failure of `insert_run`.
  unfoldable pub insert_failure : RunsError → Externals.Uuid x → ApiError
  insert_failure e id =
      if is_unique_violation e
      then conflict (run_exists (Externals.uuid_to_string x id))
      else if is_foreign_key_violation e
      then invalid_request (plain "a referenced model asset or artifact no longer exists")
      else internal_error (plain "internal error storing run")

module _ {x : Externals} (p : Pool x) where
  open p use {runs, select_model, select_artifact}

  -- The loop over the references to artifacts.
  unfoldable pub check_artifacts :
      RunsTable.Db runs → List (String × Option (Externals.Uuid x)) → Result ApiError (Unit {0})
  check_artifacts db [] = ok tt
  check_artifacts db ((field, none) ∷ rest) = check_artifacts db rest
  check_artifacts db ((field, some id) ∷ rest) = do
    found ←
        map_err (λ e. internal_error (plain "internal error reading artifact"))
          (get_artifact_record x (select_artifact db) id)
    record_found ←
        ok_or (invalid_field field (no_artifact field (Externals.uuid_to_string x id))) found
    check_artifacts db rest

  unfoldable pub check_references : RunsTable.Db runs → NewRun x → Result ApiError String
  check_references db run = do
    found ←
        map_err (λ e. internal_error (plain "internal error reading model asset"))
          (get_model_asset x (select_model db) run.model_asset_id)
    asset ←
        ok_or
          (invalid_field "model_asset_id"
            (no_model_asset "model_asset_id" (Externals.uuid_to_string x run.model_asset_id)))
          found
    check_artifacts db (
        ("input_artifact_id", run.input_artifact_id)
        ∷ ("output_artifact_id", run.output_artifact_id)
        ∷ ("stdout_artifact_id", run.stdout_artifact_id)
        ∷ ("stderr_artifact_id", run.stderr_artifact_id)
        ∷ ("crash_artifact_id", run.crash_artifact_id)
        ∷ [])
    ok (asset.original_name)

  -- The answer to what `get_run` reads back.
  unfoldable pub read_back : Result RunsError (Option (Run x)) → Response x
  read_back (ok (some run)) = created run
  read_back (ok none) = failed (internal_error (plain "internal error reading stored run"))
  read_back (err e) = failed (internal_error (plain "internal error reading stored run"))

  -- The state after the insert and the event.
  unfoldable pub announce : App p → RunsTable.Db runs → NewRun x → String → App p
  announce app db run name = record {
    db = db;
    events = (publish app.events (run_created (created_event run name))).0;
  }

  -- The handler from the outcome of the insert on.
  unfoldable pub after_insert :
      App p
      → NewRun x
      → String
      → Result RunsError (Unit {0})
      → RunsTable.Db runs
      → Response x × App p
  after_insert app run name (err e) db =
      (failed (insert_failure x e run.id), record { db = db; events = app.events })
  after_insert app run name (ok done) db =
      let app' = announce app db run name in (read_back (get_run runs app'.db run.id), app')

  unfoldable pub store_run : App p → NewRun x → String → Response x × App p
  store_run app run name =
      let (inserted, db) = insert_run runs app.db run in after_insert app run name inserted db

  -- The handler from the outcome of `check_references` on, and from that of `to_new_run` on.
  unfoldable pub after_references : App p → NewRun x → Result ApiError String → Response x × App p
  after_references app run (err e) = (failed e, app)
  after_references app run (ok name) = store_run app run name

  unfoldable pub after_conversion : App p → Result FieldError (NewRun x) → Response x × App p
  after_conversion app (err e) = (failed (from_field_error e), app)
  after_conversion app (ok run) = after_references app run (check_references app.db run)

  unfoldable pub create_run : ℕ → App p → Body x → Response x × App p
  create_run preview_length app too_large =
      (failed (payload_too_large (plain "run body exceeds the maximum size")), app)
  create_run preview_length app (unreadable rejection) =
      (failed (invalid_request (rejected "unreadable run body: " rejection)), app)
  create_run preview_length app (malformed e) =
      (failed (invalid_request (rejected "invalid run body: " e)), app)
  create_run preview_length app (parsed req) =
      after_conversion app (to_new_run x req preview_length)
