-- ===== src/RunsApi/Shown.antt =====
-- What a response of `get_run_handler` repeats of the request that its run was posted with.
use mathlib.Core.Option
use executorch_bencher.Prelude.{ℕ, ◌≡◌, refl, ok, ap}
use executorch_bencher.Domain.{
  platform_as_str, device_class_as_str, exit_status_as_str, correctness_as_str, Platform,
  DeviceClass,
}
use executorch_bencher.Externals.{Externals}
use executorch_bencher.Host.{HostState, platform}
use executorch_bencher.Host.Columns.{HostColumns, host_columns, optional_flag}
use executorch_bencher.Host.RoundTrip.{optional_flag-flag}
use executorch_bencher.HostRules.{HostInput, host_state}
use executorch_bencher.HostRules.Accepts.{input_columns, host_columns-host_state}
use executorch_bencher.RunsApi.Detail.{RunResponse}
use executorch_bencher.RunsWrite.Convert.{CreateRunRequest, host_input, output_preview}

module _ {x : Externals} where
  -- The columns as a description again.
  unfoldable pub described : HostColumns x → HostInput x
  described c = record {
    host_os = c.host_os;
    host_kernel = c.host_kernel;
    host_cpu_model = c.host_cpu_model;
    host_cpu_count = c.host_cpu_count;
    host_memory_bytes = c.host_memory_bytes;
    host_accelerator = c.host_accelerator;
    host_accelerator_driver = c.host_accelerator_driver;
    device_uptime_seconds = c.device_uptime_seconds;
    thermal_throttling = optional_flag c.thermal_throttling;
    bsp_version = c.bsp_version;
    sumd_driver_version = c.sumd_driver_version;
    gpu_clock_mhz = c.gpu_clock_mhz;
    mif_clock_mhz = c.mif_clock_mhz;
    int_clock_mhz = c.int_clock_mhz;
    battery_charging = optional_flag c.battery_charging;
    initial_temperature_celsius = c.initial_temperature_celsius;
    max_temperature_celsius = c.max_temperature_celsius;
  }

  -- The host as the response shows it.
  unfoldable pub shown_host : RunResponse x → HostInput x
  shown_host r = record {
    host_os = r.host_os;
    host_kernel = r.host_kernel;
    host_cpu_model = r.host_cpu_model;
    host_cpu_count = r.host_cpu_count;
    host_memory_bytes = r.host_memory_bytes;
    host_accelerator = r.host_accelerator;
    host_accelerator_driver = r.host_accelerator_driver;
    device_uptime_seconds = r.device_uptime_seconds;
    thermal_throttling = r.thermal_throttling;
    bsp_version = r.bsp_version;
    sumd_driver_version = r.sumd_driver_version;
    gpu_clock_mhz = r.gpu_clock_mhz;
    mif_clock_mhz = r.mif_clock_mhz;
    int_clock_mhz = r.int_clock_mhz;
    battery_charging = r.battery_charging;
    initial_temperature_celsius = r.initial_temperature_celsius;
    max_temperature_celsius = r.max_temperature_celsius;
  }

  pub described-input :
      (i : HostInput x) (p : Platform) (c : DeviceClass) → described (input_columns i p c) ≡ i
  unfolding described input_columns
  described-input i p c =
      rw (optional_flag-flag i.thermal_throttling, optional_flag-flag i.battery_charging) refl

  pub platform-host_state :
      (i : HostInput x) (p : Platform) (c : DeviceClass) (h : HostState x)
      → host_state i p c ≡ ok h
      → platform_as_str (platform h) ≡ platform_as_str p
  unfolding host_columns input_columns
  platform-host_state i p c h e = ap HostColumns.platform (host_columns-host_state i p c h e)

  -- What the response says of the request that the run was posted with.
  pub record IsEcho (n : ℕ) (req : CreateRunRequest x) (r : RunResponse x) : Type 0 where
    pub id : r.id ≡ req.id
    pub started_at : r.started_at ≡ req.started_at
    pub finished_at : r.finished_at ≡ req.finished_at
    pub repetition : r.repetition ≡ req.repetition
    pub command_line : r.command_line ≡ req.command_line
    pub env_allowlist_version : r.env_allowlist_version ≡ req.env_allowlist_version
    pub collector_version : r.collector_version ≡ req.collector_version
    pub input_parameters : r.input_parameters ≡ req.input_parameters
    pub env_vars : r.env_vars ≡ req.env_vars
    pub platform : platform_as_str r.platform ≡ req.platform
    pub device_class : device_class_as_str r.device_class ≡ req.device_class
    pub device_serial : r.device_serial ≡ req.device_serial
    pub device_model : r.device_model ≡ req.device_model
    pub host : shown_host r ≡ host_input x req
    pub git_commit_sha : r.git_commit_sha ≡ req.git_commit_sha
    pub git_dirty : r.git_dirty ≡ req.git_dirty
    pub git_branch : r.git_branch ≡ req.git_branch
    pub git_commit_timestamp : r.git_commit_timestamp ≡ req.git_commit_timestamp
    pub git_commit_subject : r.git_commit_subject ≡ req.git_commit_subject
    pub executable_sha256 : r.executable_sha256 ≡ req.executable_sha256
    pub prompt_sha256 : r.prompt_sha256 ≡ req.prompt_sha256
    pub input_token_count : r.input_token_count ≡ req.input_token_count
    pub output_token_count : r.output_token_count ≡ req.output_token_count
    pub prefill_tokens_per_sec : r.prefill_tokens_per_sec ≡ req.prefill_tokens_per_sec
    pub decode_tokens_per_sec : r.decode_tokens_per_sec ≡ req.decode_tokens_per_sec
    pub exit_status : exit_status_as_str r.exit_status ≡ req.exit_status
    pub correctness_result : correctness_as_str r.correctness_result ≡ req.correctness_result
    pub output_preview : r.output_preview ≡ Option.map (λ p. output_preview p n) req.output_preview
    pub error_summary : r.error_summary ≡ req.error_summary
