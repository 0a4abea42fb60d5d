-- ===== src/RunsWrite/Convert.antt =====
-- src/runs_write_api.rs: the request and its conversion to the run that is stored.
use mathlib.Core.Option
use executorch_bencher.Prelude.{
  ℕ, zero, suc, ℤ, String, Bool, not, ◌||◌, Option, Result, ok, err, ◌>>=◌, ◌>>◌, map_err,
  transpose_map, if◌then◌else◌,
}
use executorch_bencher.Prelude.Text.{is_blank}
use executorch_bencher.Domain.{
  InvalidValue, platform_try_from, device_class_try_from, exit_status_try_from,
  correctness_try_from, Sha256Hex, sha256_try_from, validate_command_args, validate_json,
  validate_env_vars,
}
use executorch_bencher.Externals.{Externals}
use executorch_bencher.HostRules.{
  HostInput, FieldError, quoted, field_err, non_negative, host_state,
}
use executorch_bencher.Runs.Row.{NewRun}

module _ (x : Externals) where
  open x use {Uuid, DateTime, F64, Json}

  pub record CreateRunRequest : Type 0 where
    pub id : Uuid
    pub started_at : DateTime
    pub finished_at : Option DateTime
    pub repetition : ℤ
    pub command_args : Json
    pub command_line : Option String
    pub input_parameters : Json
    pub env_vars : Json
    pub env_allowlist_version : String
    pub collector_version : String
    pub platform : String
    pub device_class : String
    pub device_serial : String
    pub device_model : Option String
    pub device_uptime_seconds : Option ℤ
    pub thermal_throttling : Option Bool
    pub bsp_version : Option String
    pub sumd_driver_version : Option String
    pub battery_charging : Option Bool
    pub initial_temperature_celsius : Option F64
    pub max_temperature_celsius : Option F64
    pub gpu_clock_mhz : Option ℤ
    pub mif_clock_mhz : Option ℤ
    pub int_clock_mhz : Option ℤ
    pub host_os : Option String
    pub host_kernel : Option String
    pub host_cpu_model : Option String
    pub host_cpu_count : Option ℤ
    pub host_memory_bytes : Option ℤ
    pub host_accelerator : Option String
    pub host_accelerator_driver : Option String
    pub git_commit_sha : String
    pub git_dirty : Bool
    pub git_branch : Option String
    pub git_commit_timestamp : Option DateTime
    pub git_commit_subject : Option String
    pub executable_sha256 : Option String
    pub model_asset_id : Uuid
    pub prompt_sha256 : String
    pub input_token_count : ℤ
    pub output_token_count : ℤ
    pub prefill_tokens_per_sec : F64
    pub decode_tokens_per_sec : Option F64
    pub exit_status : String
    pub correctness_result : String
    pub input_artifact_id : Option Uuid
    pub output_artifact_id : Option Uuid
    pub output_preview : Option String
    pub stdout_artifact_id : Option Uuid
    pub stderr_artifact_id : Option Uuid
    pub crash_artifact_id : Option Uuid
    pub error_summary : Option String

-- `err.to_string()` under a field's name
unfoldable pub quote : String → InvalidValue → FieldError
quote field e = record { field = field; message = quoted e }

unfoldable pub sha : String → String → Result FieldError Sha256Hex
unfolding quote
sha field raw = map_err (quote field) (sha256_try_from raw)

-- `full_output.chars().take(max_chars).collect()` (src/runs.rs)
unfoldable pub output_preview : String → ℕ → String
output_preview String.[] n = ""
output_preview (String.◌∷◌ c s) zero = ""
output_preview (String.◌∷◌ c s) (suc n) = String.◌∷◌ c (output_preview s n)

unfoldable pub not_empty : String → String → Result FieldError (Unit {0})
not_empty field value = if is_blank value then err (field_err field "must not be empty") else ok tt

module _ (x : Externals) where
  open x use {F64, is_finite, f64_lt, f64_zero, json_display, json_is_object}

  unfoldable pub non_negative_f64 : String → F64 → Result FieldError F64
  non_negative_f64 field value =
      if not (is_finite value) || f64_lt value f64_zero
      then err (field_err field "must be a finite, non-negative number")
      else ok value

  unfoldable pub an_object : Externals.Json x → Result FieldError (Unit {0})
  an_object v =
      if not (json_is_object v)
      then err (field_err "input_parameters" "must be a JSON object")
      else ok tt

  unfoldable pub host_input : CreateRunRequest x → HostInput x
  host_input req = record {
    host_os = req.host_os;
    host_kernel = req.host_kernel;
    host_cpu_model = req.host_cpu_model;
    host_cpu_count = req.host_cpu_count;
    host_memory_bytes = req.host_memory_bytes;
    host_accelerator = req.host_accelerator;
    host_accelerator_driver = req.host_accelerator_driver;
    device_uptime_seconds = req.device_uptime_seconds;
    thermal_throttling = req.thermal_throttling;
    bsp_version = req.bsp_version;
    sumd_driver_version = req.sumd_driver_version;
    gpu_clock_mhz = req.gpu_clock_mhz;
    mif_clock_mhz = req.mif_clock_mhz;
    int_clock_mhz = req.int_clock_mhz;
    battery_charging = req.battery_charging;
    initial_temperature_celsius = req.initial_temperature_celsius;
    max_temperature_celsius = req.max_temperature_celsius;
  }

  -- Reports the first rule violated by field.
  unfoldable pub to_new_run : CreateRunRequest x → ℕ → Result FieldError (NewRun x)
  to_new_run req preview_length = do
    platform ← map_err (quote "platform") (platform_try_from req.platform)
    device_class ← map_err (quote "device_class") (device_class_try_from req.device_class)
    exit_status ← map_err (quote "exit_status") (exit_status_try_from req.exit_status)
    correctness_result ←
        map_err (quote "correctness_result") (correctness_try_from req.correctness_result)
    repetition ← non_negative "repetition" req.repetition
    command_args_json ←
        map_err (quote "command_args") (validate_command_args x (json_display req.command_args))
    an_object req.input_parameters
    input_parameters_json ←
        map_err (quote "input_parameters") (validate_json x (json_display req.input_parameters))
    env_vars_json ← map_err (quote "env_vars") (validate_env_vars x (json_display req.env_vars))
    not_empty "device_serial" req.device_serial
    not_empty "git_commit_sha" req.git_commit_sha
    host ← host_state (host_input req) platform device_class
    executable_sha256 ← transpose_map (sha "executable_sha256") req.executable_sha256
    prompt_sha256 ← sha "prompt_sha256" req.prompt_sha256
    input_token_count ← non_negative "input_token_count" req.input_token_count
    output_token_count ← non_negative "output_token_count" req.output_token_count
    prefill_tokens_per_sec ← non_negative_f64 "prefill_tokens_per_sec" req.prefill_tokens_per_sec
    decode_tokens_per_sec ←
        transpose_map (non_negative_f64 "decode_tokens_per_sec") req.decode_tokens_per_sec
    ok (record {
      id = req.id;
      started_at = req.started_at;
      finished_at = req.finished_at;
      repetition = repetition;
      command_args_json = command_args_json;
      command_line = req.command_line;
      input_parameters_json = input_parameters_json;
      env_vars_json = env_vars_json;
      env_allowlist_version = req.env_allowlist_version;
      collector_version = req.collector_version;
      device_class = device_class;
      device_serial = req.device_serial;
      device_model = req.device_model;
      host = host;
      git_commit_sha = req.git_commit_sha;
      git_dirty = req.git_dirty;
      git_branch = req.git_branch;
      git_commit_timestamp = req.git_commit_timestamp;
      git_commit_subject = req.git_commit_subject;
      executable_sha256 = executable_sha256;
      model_asset_id = req.model_asset_id;
      prompt_sha256 = prompt_sha256;
      input_token_count = input_token_count;
      output_token_count = output_token_count;
      prefill_tokens_per_sec = prefill_tokens_per_sec;
      decode_tokens_per_sec = decode_tokens_per_sec;
      exit_status = exit_status;
      correctness_result = correctness_result;
      input_artifact_id = req.input_artifact_id;
      output_artifact_id = req.output_artifact_id;
      output_preview = Option.map (λ p. output_preview p preview_length) req.output_preview;
      stdout_artifact_id = req.stdout_artifact_id;
      stderr_artifact_id = req.stderr_artifact_id;
      crash_artifact_id = req.crash_artifact_id;
      error_summary = req.error_summary;
    })
