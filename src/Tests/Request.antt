-- ===== src/Tests/Request.antt =====
-- A request from a lab phone, the snapshot it describes, and the run that it becomes.
use executorch_bencher.Prelude.{pos, String, true, false, none, some, ◌≡◌, refl, ok}
use executorch_bencher.Domain.{
  platform_try_from, device_class_try_from, exit_status_try_from, correctness_try_from,
  validate_command_args, validate_json, canonicalize, validate_env_vars, sha256_try_from, is_sha256,
  android, internal, succeeded, passed,
}
use executorch_bencher.Host.{AndroidDeviceState, of_android}
use executorch_bencher.HostRules.{HostInput, non_negative, host_state, field_err}
use executorch_bencher.Runs.Row.{NewRun}
use executorch_bencher.RunsWrite.Convert.{
  CreateRunRequest, to_new_run, an_object, not_empty, host_input, sha, non_negative_f64,
  output_preview, quote,
}
use executorch_bencher.Tests.Instance.{toy}

abbrev pub digest : String
digest = "0123456789abcdef0123456789abcdef0123456789abcdef0123456789abcdef"

abbrev pub request : CreateRunRequest toy
request = record {
  id = "run-1";
  started_at = 100;
  finished_at = some 160;
  repetition = pos 1;
  command_args = "[]";
  command_line = none;
  input_parameters = "{}";
  env_vars = "{}";
  env_allowlist_version = "1";
  collector_version = "0.1";
  platform = "android";
  device_class = "internal";
  device_serial = "SER1";
  device_model = some "E9955";
  device_uptime_seconds = some (pos 900);
  thermal_throttling = some false;
  bsp_version = some "bsp";
  sumd_driver_version = some "sumd";
  battery_charging = some true;
  initial_temperature_celsius = some 30;
  max_temperature_celsius = some 45;
  gpu_clock_mhz = some (pos 1000);
  mif_clock_mhz = some (pos 2000);
  int_clock_mhz = some (pos 500);
  host_os = none;
  host_kernel = none;
  host_cpu_model = none;
  host_cpu_count = none;
  host_memory_bytes = none;
  host_accelerator = none;
  host_accelerator_driver = none;
  git_commit_sha = "abc";
  git_dirty = false;
  git_branch = some "main";
  git_commit_timestamp = some 50;
  git_commit_subject = none;
  executable_sha256 = some digest;
  model_asset_id = "model-1";
  prompt_sha256 = digest;
  input_token_count = pos 12;
  output_token_count = pos 64;
  prefill_tokens_per_sec = 300;
  decode_tokens_per_sec = some 20;
  exit_status = "succeeded";
  correctness_result = "passed";
  input_artifact_id = none;
  output_artifact_id = some "artifact-1";
  output_preview = some "hello";
  stdout_artifact_id = none;
  stderr_artifact_id = none;
  crash_artifact_id = none;
  error_summary = none;
}

abbrev pub phone_input : HostInput toy
phone_input = record {
  host_os = none;
  host_kernel = none;
  host_cpu_model = none;
  host_cpu_count = none;
  host_memory_bytes = none;
  host_accelerator = none;
  host_accelerator_driver = none;
  device_uptime_seconds = some (pos 900);
  thermal_throttling = some false;
  bsp_version = some "bsp";
  sumd_driver_version = some "sumd";
  gpu_clock_mhz = some (pos 1000);
  mif_clock_mhz = some (pos 2000);
  int_clock_mhz = some (pos 500);
  battery_charging = some true;
  initial_temperature_celsius = some 30;
  max_temperature_celsius = some 45;
}

abbrev pub phone : AndroidDeviceState toy
phone = record {
  os = none;
  kernel = none;
  soc = none;
  cpu_count = none;
  memory_bytes = none;
  gpu = none;
  gpu_driver = none;
  uptime_seconds = some (pos 900);
  battery_charging = some true;
  initial_temperature_celsius = some 30;
  max_temperature_celsius = some 45;
  thermal_throttling = some false;
  lab = some (record {
    bsp_version = "bsp";
    sumd_driver_version = "sumd";
    gpu_clock_mhz = pos 1000;
    mif_clock_mhz = pos 2000;
    int_clock_mhz = pos 500;
  });
}

abbrev pub run : NewRun toy
run = record {
  id = "run-1";
  started_at = 100;
  finished_at = some 160;
  repetition = pos 1;
  command_args_json = "[]";
  command_line = none;
  input_parameters_json = "{}";
  env_vars_json = "{}";
  env_allowlist_version = "1";
  collector_version = "0.1";
  device_class = internal;
  device_serial = "SER1";
  device_model = some "E9955";
  host = of_android phone;
  git_commit_sha = "abc";
  git_dirty = false;
  git_branch = some "main";
  git_commit_timestamp = some 50;
  git_commit_subject = none;
  executable_sha256 = some (record { text = digest });
  model_asset_id = "model-1";
  prompt_sha256 = record { text = digest };
  input_token_count = pos 12;
  output_token_count = pos 64;
  prefill_tokens_per_sec = 300;
  decode_tokens_per_sec = some 20;
  exit_status = succeeded;
  correctness_result = passed;
  input_artifact_id = none;
  output_artifact_id = some "artifact-1";
  output_preview = some "hel";
  stdout_artifact_id = none;
  stderr_artifact_id = none;
  crash_artifact_id = none;
  error_summary = none;
}

pub converted : to_new_run toy request 3 ≡ ok run
unfolding to_new_run platform_try_from device_class_try_from exit_status_try_from
    correctness_try_from validate_command_args validate_json canonicalize validate_env_vars
    sha256_try_from is_sha256 non_negative host_state field_err an_object not_empty host_input sha
    non_negative_f64 output_preview quote
converted = refl

pub snapshot : host_state phone_input android internal ≡ ok (of_android phone)
unfolding host_state
snapshot = refl
