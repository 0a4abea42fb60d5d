-- ===== src/Runs/Row.antt =====
-- src/runs.rs: a run attempt in the program, its row in the table, and the two conversions.
use mathlib.Core.Option
use executorch_bencher.Prelude.{
  ℤ, String, Bool, Option, Result, ok, ◌>>=◌, ok_or, map_err, transpose_map, flag, is_nonzero,
}
use executorch_bencher.Domain.{
  ExitStatus, exit_status_as_str, exit_status_try_from, CorrectnessResult, correctness_as_str,
  correctness_try_from, DeviceClass, device_class_try_from, Sha256Hex, sha256_try_from,
}
use executorch_bencher.Externals.{Externals}
use executorch_bencher.Host.{HostState}
use executorch_bencher.Host.Columns.{
  HostColumns, host_columns, host_state_from_row, RowError, invalid_stored, invalid_stored_uuid,
}

module _ (x : Externals) where
  open x use {Uuid, DateTime, F64}

  pub record NewRun : Type 0 where
    pub id : Uuid
    pub started_at : DateTime
    pub finished_at : Option DateTime
    pub repetition : ℤ
    pub command_args_json : String
    pub command_line : Option String
    pub input_parameters_json : String
    pub env_vars_json : String
    pub env_allowlist_version : String
    pub collector_version : String
    pub device_class : DeviceClass
    pub device_serial : String
    pub device_model : Option String
    pub host : HostState x
    pub git_commit_sha : String
    pub git_dirty : Bool
    pub git_branch : Option String
    pub git_commit_timestamp : Option DateTime
    pub git_commit_subject : Option String
    pub executable_sha256 : Option Sha256Hex
    pub model_asset_id : Uuid
    pub prompt_sha256 : Sha256Hex
    pub input_token_count : ℤ
    pub output_token_count : ℤ
    pub prefill_tokens_per_sec : F64
    pub decode_tokens_per_sec : Option F64
    pub exit_status : ExitStatus
    pub correctness_result : CorrectnessResult
    pub input_artifact_id : Option Uuid
    pub output_artifact_id : Option Uuid
    pub output_preview : Option String
    pub stdout_artifact_id : Option Uuid
    pub stderr_artifact_id : Option Uuid
    pub crash_artifact_id : Option Uuid
    pub error_summary : Option String

  pub record Run : Type 0 where
    pub id : Uuid
    pub started_at : DateTime
    pub finished_at : Option DateTime
    pub repetition : ℤ
    pub command_args_json : String
    pub command_line : Option String
    pub input_parameters_json : String
    pub env_vars_json : String
    pub env_allowlist_version : String
    pub collector_version : String
    pub device_class : DeviceClass
    pub device_serial : String
    pub device_model : Option String
    pub host : HostState x
    pub git_commit_sha : String
    pub git_dirty : Bool
    pub git_branch : Option String
    pub git_commit_timestamp : Option DateTime
    pub git_commit_subject : Option String
    pub executable_sha256 : Option Sha256Hex
    pub model_asset_id : Uuid
    pub prompt_sha256 : Sha256Hex
    pub input_token_count : ℤ
    pub output_token_count : ℤ
    pub prefill_tokens_per_sec : F64
    pub decode_tokens_per_sec : Option F64
    pub exit_status : ExitStatus
    pub correctness_result : CorrectnessResult
    pub input_artifact_id : Option Uuid
    pub output_artifact_id : Option Uuid
    pub output_preview : Option String
    pub stdout_artifact_id : Option Uuid
    pub stderr_artifact_id : Option Uuid
    pub crash_artifact_id : Option Uuid
    pub error_summary : Option String

  -- A row of the `runs` table; the columns of the host snapshot are kept together.
  pub record RunRow : Type 0 where
    pub id : String
    pub started_at : DateTime
    pub finished_at : Option DateTime
    pub repetition : ℤ
    pub command_args : String
    pub command_line : Option String
    pub input_parameters : String
    pub env_vars : String
    pub env_allowlist_version : String
    pub collector_version : String
    pub device_serial : String
    pub device_model : Option String
    pub host : HostColumns x
    pub git_commit_sha : String
    pub git_dirty : ℤ
    pub git_branch : Option String
    pub git_commit_timestamp : Option DateTime
    pub git_commit_subject : Option String
    pub executable_sha256 : Option String
    pub model_asset_id : String
    pub prompt_sha256 : String
    pub input_token_count : ℤ
    pub output_token_count : ℤ
    pub prefill_tokens_per_sec : F64
    pub decode_tokens_per_sec : Option F64
    pub exit_status : String
    pub correctness_result : String
    pub input_artifact_id : Option String
    pub output_artifact_id : Option String
    pub output_preview : Option String
    pub stdout_artifact_id : Option String
    pub stderr_artifact_id : Option String
    pub crash_artifact_id : Option String
    pub error_summary : Option String

module _ {x : Externals} where
  open x use {Uuid, uuid_to_string, uuid_parse_str}

  -- The `.bind(...)` lines of `insert_run`.
  unfoldable pub to_row : NewRun x → RunRow x
  to_row run = record {
    id = uuid_to_string run.id;
    started_at = run.started_at;
    finished_at = run.finished_at;
    repetition = run.repetition;
    command_args = run.command_args_json;
    command_line = run.command_line;
    input_parameters = run.input_parameters_json;
    env_vars = run.env_vars_json;
    env_allowlist_version = run.env_allowlist_version;
    collector_version = run.collector_version;
    device_serial = run.device_serial;
    device_model = run.device_model;
    host = host_columns run.host run.device_class;
    git_commit_sha = run.git_commit_sha;
    git_dirty = flag run.git_dirty;
    git_branch = run.git_branch;
    git_commit_timestamp = run.git_commit_timestamp;
    git_commit_subject = run.git_commit_subject;
    executable_sha256 = Option.map (λ s. s.text) run.executable_sha256;
    model_asset_id = uuid_to_string run.model_asset_id;
    prompt_sha256 = run.prompt_sha256.text;
    input_token_count = run.input_token_count;
    output_token_count = run.output_token_count;
    prefill_tokens_per_sec = run.prefill_tokens_per_sec;
    decode_tokens_per_sec = run.decode_tokens_per_sec;
    exit_status = exit_status_as_str run.exit_status;
    correctness_result = correctness_as_str run.correctness_result;
    input_artifact_id = Option.map uuid_to_string run.input_artifact_id;
    output_artifact_id = Option.map uuid_to_string run.output_artifact_id;
    output_preview = run.output_preview;
    stdout_artifact_id = Option.map uuid_to_string run.stdout_artifact_id;
    stderr_artifact_id = Option.map uuid_to_string run.stderr_artifact_id;
    crash_artifact_id = Option.map uuid_to_string run.crash_artifact_id;
    error_summary = run.error_summary;
  }

module _ (x : Externals) where
  open x use {Uuid, uuid_parse_str}

  unfoldable pub parse_uuid : String → String → Result RowError Uuid
  parse_uuid field v = ok_or (invalid_stored_uuid field) (uuid_parse_str v)

  unfoldable pub parse_optional_uuid : String → Option String → Result RowError (Option Uuid)
  parse_optional_uuid field = transpose_map (parse_uuid field)

  -- The steps that can fail, in the order of the source's struct literal.
  unfoldable pub row_to_run : RunRow x → Result RowError (Run x)
  row_to_run row = do
    host ← host_state_from_row row.host
    id ← parse_uuid "id" row.id
    device_class ← map_err invalid_stored (device_class_try_from row.host.device_class)
    executable ← map_err invalid_stored (transpose_map sha256_try_from row.executable_sha256)
    model_asset_id ← parse_uuid "model_asset_id" row.model_asset_id
    prompt ← map_err invalid_stored (sha256_try_from row.prompt_sha256)
    exit_status ← map_err invalid_stored (exit_status_try_from row.exit_status)
    correctness ← map_err invalid_stored (correctness_try_from row.correctness_result)
    input_artifact ← parse_optional_uuid "input_artifact_id" row.input_artifact_id
    output_artifact ← parse_optional_uuid "output_artifact_id" row.output_artifact_id
    stdout_artifact ← parse_optional_uuid "stdout_artifact_id" row.stdout_artifact_id
    stderr_artifact ← parse_optional_uuid "stderr_artifact_id" row.stderr_artifact_id
    crash_artifact ← parse_optional_uuid "crash_artifact_id" row.crash_artifact_id
    ok (record {
      id = id;
      started_at = row.started_at;
      finished_at = row.finished_at;
      repetition = row.repetition;
      command_args_json = row.command_args;
      command_line = row.command_line;
      input_parameters_json = row.input_parameters;
      env_vars_json = row.env_vars;
      env_allowlist_version = row.env_allowlist_version;
      collector_version = row.collector_version;
      device_class = device_class;
      device_serial = row.device_serial;
      device_model = row.device_model;
      host = host;
      git_commit_sha = row.git_commit_sha;
      git_dirty = is_nonzero row.git_dirty;
      git_branch = row.git_branch;
      git_commit_timestamp = row.git_commit_timestamp;
      git_commit_subject = row.git_commit_subject;
      executable_sha256 = executable;
      model_asset_id = model_asset_id;
      prompt_sha256 = prompt;
      input_token_count = row.input_token_count;
      output_token_count = row.output_token_count;
      prefill_tokens_per_sec = row.prefill_tokens_per_sec;
      decode_tokens_per_sec = row.decode_tokens_per_sec;
      exit_status = exit_status;
      correctness_result = correctness;
      input_artifact_id = input_artifact;
      output_artifact_id = output_artifact;
      output_preview = row.output_preview;
      stdout_artifact_id = stdout_artifact;
      stderr_artifact_id = stderr_artifact;
      crash_artifact_id = crash_artifact;
      error_summary = row.error_summary;
    })
