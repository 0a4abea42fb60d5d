-- ===== src/RunsApi/Detail.antt =====
-- src/runs_api.rs, `get_run_handler`: one run with its model and its artifacts.
use mathlib.Core.Option
use executorch_bencher.Prelude.{ℤ, String, Bool, Option, none, some, Result, ok, err}
use executorch_bencher.Prelude.Text.{◌<>◌}
use executorch_bencher.ApiError.{plain, not_found, internal_error}
use executorch_bencher.ArtifactKind.{ArtifactKind, Compression}
use executorch_bencher.ArtifactStore.{ArtifactRecord, get_artifact_record}
use executorch_bencher.ArtifactStore.Machine.{Machine}
use executorch_bencher.ArtifactStore.Maintenance.{artifact_file_exists}
use executorch_bencher.Artifacts.Handlers.{Reply, success, failure}
use executorch_bencher.Domain.{Platform, DeviceClass, ExitStatus, CorrectnessResult, Sha256Hex}
use executorch_bencher.Externals.{Externals}
use executorch_bencher.Host.{
  AndroidLabConfig, AndroidDeviceState, platform, as_android, thermal_throttling, uptime_seconds,
  description,
}
use executorch_bencher.ModelRegistry.{ModelAsset, get_model_asset}
use executorch_bencher.Runs.{RunsError, get_run}
use executorch_bencher.Runs.Row.{Run}
use executorch_bencher.Runs.Table.{RunsTable}
use executorch_bencher.RunsWrite.Handler.{Pool}

module _ (x : Externals) where
  open x use {Uuid, DateTime, F64, Json}

  pub record ArtifactView : Type 0 where
    pub id : Uuid
    pub kind : ArtifactKind
    pub original_filename : Option String
    pub size_bytes : ℤ
    pub media_type : Option String
    pub compression : Compression
    pub available : Bool
    pub content_url : String
    pub download_url : String

  pub record ModelAssetSummary : Type 0 where
    pub id : Uuid
    pub sha256 : String
    pub original_name : String
    pub available : Bool

  pub record RunResponse : Type 0 where
    pub id : Uuid
    pub started_at : DateTime
    pub finished_at : Option DateTime
    pub exit_status : ExitStatus
    pub correctness_result : CorrectnessResult
    pub output_preview : Option String
    pub model_asset : Option ModelAssetSummary
    pub input_artifact : Option ArtifactView
    pub output_artifact : Option ArtifactView
    pub stdout_artifact : Option ArtifactView
    pub stderr_artifact : Option ArtifactView
    pub crash_artifact : Option ArtifactView
    pub repetition : ℤ
    pub command_args : Json
    pub command_line : Option String
    pub input_parameters : Json
    pub env_vars : Json
    pub env_allowlist_version : String
    pub collector_version : String
    pub platform : Platform
    pub device_class : DeviceClass
    pub device_serial : String
    pub device_model : Option String
    pub device_uptime_seconds : Option ℤ
    pub thermal_throttling : Option Bool
    pub bsp_version : Option String
    pub sumd_driver_version : Option String
    pub battery_charging : Option Bool
    pub initial_temperature_celsius : Option F64
    pub max_temperature_celsius : Option F64
    pub gpu_clock_mhz : Option ℤ
    pub mif_clock_mhz : Option ℤ
    pub int_clock_mhz : Option ℤ
    pub host_os : Option String
    pub host_kernel : Option String
    pub host_cpu_model : Option String
    pub host_cpu_count : Option ℤ
    pub host_memory_bytes : Option ℤ
    pub host_accelerator : Option String
    pub host_accelerator_driver : Option String
    pub git_commit_sha : String
    pub git_dirty : Bool
    pub git_branch : Option String
    pub git_commit_timestamp : Option DateTime
    pub git_commit_subject : Option String
    pub executable_sha256 : Option String
    pub prompt_sha256 : String
    pub input_token_count : ℤ
    pub output_token_count : ℤ
    pub prefill_tokens_per_sec : F64
    pub decode_tokens_per_sec : Option F64
    pub error_summary : Option String

-- `.ok()` and then the option inside
abbrev pub found_in {ℓ κ} : {E : Type κ} {A : Type ℓ} → Result E (Option A) → Option A
found_in (ok o) = o
found_in (err e) = none

-- `json_string` is `serde_json::Value::String`, of a text that does not parse.
module _ (x : Externals) (json_string : String → Externals.Json x) where
  unfoldable pub stored_json : String → Externals.Json x
  stored_json raw = Option.get_or (Externals.json_from_str x raw) (json_string raw)

-- The database, and the files at a moment.
module _ {x : Externals} (p : Pool x) (m : Machine) (artifact_root : String)
    (json_string : String → Externals.Json x) (db : RunsTable.Db (Pool.runs p))
    (s : Machine.State m) where
  open x use {Uuid, uuid_to_string}
  open p use {runs, select_model, select_artifact}

  unfoldable pub view_of : ArtifactRecord x → ArtifactView x
  unfolding artifact_file_exists
  view_of r = record {
    id = r.id;
    kind = r.kind;
    original_filename = r.original_filename;
    size_bytes = r.size_bytes;
    media_type = r.media_type;
    compression = r.compression;
    available = artifact_file_exists x m s artifact_root r;
    content_url = "/api/v1/artifacts/" <> uuid_to_string r.id <> "/content";
    download_url = "/api/v1/artifacts/" <> uuid_to_string r.id <> "/download";
  }

  unfoldable pub artifact_view : Uuid → Option (ArtifactView x)
  unfolding view_of get_artifact_record
  artifact_view id = Option.map view_of (found_in (get_artifact_record x (select_artifact db) id))

  unfoldable pub summary_of : ModelAsset x → ModelAssetSummary x
  summary_of asset = record {
    id = asset.id;
    sha256 = asset.sha256;
    original_name = asset.original_name;
    available = asset.available;
  }

  unfoldable pub build_run_response : Run x → RunResponse x
  unfolding artifact_view summary_of stored_json Option.bind platform as_android thermal_throttling
      uptime_seconds description
  build_run_response run =
      let phone = as_android run.host in
      let lab = Option.bind phone AndroidDeviceState.lab in
      let desc = description run.host in
      record {
        id = run.id;
        started_at = run.started_at;
        finished_at = run.finished_at;
        exit_status = run.exit_status;
        correctness_result = run.correctness_result;
        output_preview = run.output_preview;
        model_asset =
            Option.map summary_of
              (found_in (get_model_asset x (select_model db) run.model_asset_id));
        input_artifact = Option.bind run.input_artifact_id artifact_view;
        output_artifact = Option.bind run.output_artifact_id artifact_view;
        stdout_artifact = Option.bind run.stdout_artifact_id artifact_view;
        stderr_artifact = Option.bind run.stderr_artifact_id artifact_view;
        crash_artifact = Option.bind run.crash_artifact_id artifact_view;
        repetition = run.repetition;
        command_args = stored_json x json_string run.command_args_json;
        command_line = run.command_line;
        input_parameters = stored_json x json_string run.input_parameters_json;
        env_vars = stored_json x json_string run.env_vars_json;
        env_allowlist_version = run.env_allowlist_version;
        collector_version = run.collector_version;
        platform = platform run.host;
        device_class = run.device_class;
        device_serial = run.device_serial;
        device_model = run.device_model;
        device_uptime_seconds = uptime_seconds run.host;
        thermal_throttling = thermal_throttling run.host;
        bsp_version = Option.map AndroidLabConfig.bsp_version lab;
        sumd_driver_version = Option.map AndroidLabConfig.sumd_driver_version lab;
        battery_charging = Option.bind phone AndroidDeviceState.battery_charging;
        initial_temperature_celsius =
            Option.bind phone AndroidDeviceState.initial_temperature_celsius;
        max_temperature_celsius = Option.bind phone AndroidDeviceState.max_temperature_celsius;
        gpu_clock_mhz = Option.map AndroidLabConfig.gpu_clock_mhz lab;
        mif_clock_mhz = Option.map AndroidLabConfig.mif_clock_mhz lab;
        int_clock_mhz = Option.map AndroidLabConfig.int_clock_mhz lab;
        host_os = desc.os;
        host_kernel = desc.kernel;
        host_cpu_model = desc.cpu_model;
        host_cpu_count = desc.cpu_count;
        host_memory_bytes = desc.memory_bytes;
        host_accelerator = desc.accelerator;
        host_accelerator_driver = desc.accelerator_driver;
        git_commit_sha = run.git_commit_sha;
        git_dirty = run.git_dirty;
        git_branch = run.git_branch;
        git_commit_timestamp = run.git_commit_timestamp;
        git_commit_subject = run.git_commit_subject;
        executable_sha256 = Option.map Sha256Hex.text run.executable_sha256;
        prompt_sha256 = Sha256Hex.text run.prompt_sha256;
        input_token_count = run.input_token_count;
        output_token_count = run.output_token_count;
        prefill_tokens_per_sec = run.prefill_tokens_per_sec;
        decode_tokens_per_sec = run.decode_tokens_per_sec;
        error_summary = run.error_summary;
      }

  unfoldable pub run_reply : Result RunsError (Option (Run x)) → Reply (RunResponse x)
  unfolding build_run_response
  run_reply (ok (some run)) = success (build_run_response run)
  run_reply (ok none) = failure (not_found (plain "run not found"))
  run_reply (err e) = failure (internal_error (plain "internal error reading run"))

  unfoldable pub get_run_handler : Uuid → Reply (RunResponse x)
  unfolding run_reply get_run
  get_run_handler id = run_reply (get_run runs db id)
