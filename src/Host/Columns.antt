-- ===== src/Host/Columns.antt =====
-- The host columns of the `runs` table as `insert_run` binds them and `host_state_from_row` reads
-- them (src/runs.rs), and the CHECK constraints on them of the last migration.
use mathlib.Core.Option
use executorch_bencher.Prelude.{
  ℤ, pos, zero, suc, String, Bool, true, false, ◌&&◌, ◌||◌, not, Option, none, some, is_some,
  is_none, flag, is_nonzero, is_negative, is_not_positive, Result, ok, ◌>>=◌, ok_or, map_err,
}
use executorch_bencher.Prelude.Text.{str_eq}
use executorch_bencher.Domain.{
  Platform, android, linux, DeviceClass, device_class_as_str, platform_as_str, platform_try_from,
  InvalidValue,
}
use executorch_bencher.Externals.{Externals}
use executorch_bencher.Host.{
  AndroidLabConfig, HostState, of_android, of_linux, platform, as_android, thermal_throttling,
  uptime_seconds, description,
}

module _ (x : Externals) where
  open x use {F64}

  pub record HostColumns : Type 0 where
    pub platform : String
    pub device_class : String
    pub device_uptime_seconds : Option ℤ
    pub thermal_throttling : Option ℤ
    pub bsp_version : Option String
    pub sumd_driver_version : Option String
    pub battery_charging : Option ℤ
    pub initial_temperature_celsius : Option F64
    pub max_temperature_celsius : Option F64
    pub gpu_clock_mhz : Option ℤ
    pub mif_clock_mhz : Option ℤ
    pub int_clock_mhz : Option ℤ
    pub host_os : Option String
    pub host_kernel : Option String
    pub host_cpu_model : Option String
    pub host_cpu_count : Option ℤ
    pub host_memory_bytes : Option ℤ
    pub host_accelerator : Option String
    pub host_accelerator_driver : Option String

-- `IS NULL OR p`
abbrev pub null_or {ℓ} : {A : Type ℓ} → (A → Bool) → Option A → Bool
null_or p none = true
null_or p (some a) = p a

-- What reading a row back can refuse.
pub data RowError : Type 0 where
  invalid_stored : InvalidValue → RowError
  missing_column : String → Platform → RowError
  invalid_stored_uuid : String → RowError

abbrev pub optional_flag : Option ℤ → Option Bool
optional_flag = Option.map is_nonzero

-- `IN (0, 1)`
abbrev pub is_flag : ℤ → Bool
is_flag (pos zero) = true
is_flag (pos (suc zero)) = true
is_flag _ = false

-- `(-40.0..=150.0).contains(&v)`, `BETWEEN -40 AND 150`
abbrev pub in_celsius_range : (x : Externals) → Externals.F64 x → Bool
in_celsius_range x v = f64_le celsius_low v && f64_le v celsius_high
  where
    open x use {f64_le, celsius_low, celsius_high}

module _ {x : Externals} where
  lab : HostState x → Option AndroidLabConfig
  unfolding as_android
  lab h = Option.bind (as_android h) (λ a. a.lab)

  -- The `.bind(...)` lines of `insert_run` for the host columns.
  unfoldable pub host_columns : HostState x → DeviceClass → HostColumns x
  unfolding lab Option.bind platform as_android thermal_throttling uptime_seconds description
  host_columns h c =
      let android = as_android h in
      let desc = description h in
      record {
        platform = platform_as_str (platform h);
        device_class = device_class_as_str c;
        device_uptime_seconds = uptime_seconds h;
        thermal_throttling = Option.map flag (thermal_throttling h);
        bsp_version = Option.map (λ l. l.bsp_version) (lab h);
        sumd_driver_version = Option.map (λ l. l.sumd_driver_version) (lab h);
        battery_charging = Option.map flag (Option.bind android (λ a. a.battery_charging));
        initial_temperature_celsius = Option.bind android (λ a. a.initial_temperature_celsius);
        max_temperature_celsius = Option.bind android (λ a. a.max_temperature_celsius);
        gpu_clock_mhz = Option.map (λ l. l.gpu_clock_mhz) (lab h);
        mif_clock_mhz = Option.map (λ l. l.mif_clock_mhz) (lab h);
        int_clock_mhz = Option.map (λ l. l.int_clock_mhz) (lab h);
        host_os = desc.os;
        host_kernel = desc.kernel;
        host_cpu_model = desc.cpu_model;
        host_cpu_count = desc.cpu_count;
        host_memory_bytes = desc.memory_bytes;
        host_accelerator = desc.accelerator;
        host_accelerator_driver = desc.accelerator_driver;
      }

  lab_from_row : HostColumns x → Option String → Result RowError (Option AndroidLabConfig)
  lab_from_row row none = ok none
  lab_from_row row (some bsp_version) = do
    sumd ← ok_or (missing_column "sumd_driver_version" android) row.sumd_driver_version
    gpu ← ok_or (missing_column "gpu_clock_mhz" android) row.gpu_clock_mhz
    mif ← ok_or (missing_column "mif_clock_mhz" android) row.mif_clock_mhz
    int ← ok_or (missing_column "int_clock_mhz" android) row.int_clock_mhz
    ok (
        some (record {
          bsp_version = bsp_version;
          sumd_driver_version = sumd;
          gpu_clock_mhz = gpu;
          mif_clock_mhz = mif;
          int_clock_mhz = int;
        }))

  host_state_at : HostColumns x → Platform → Result RowError (HostState x)
  unfolding lab_from_row
  host_state_at row android = do
    lab ← lab_from_row row row.bsp_version
    ok (
        of_android (record {
          os = row.host_os;
          kernel = row.host_kernel;
          soc = row.host_cpu_model;
          cpu_count = row.host_cpu_count;
          memory_bytes = row.host_memory_bytes;
          gpu = row.host_accelerator;
          gpu_driver = row.host_accelerator_driver;
          uptime_seconds = row.device_uptime_seconds;
          battery_charging = optional_flag row.battery_charging;
          initial_temperature_celsius = row.initial_temperature_celsius;
          max_temperature_celsius = row.max_temperature_celsius;
          thermal_throttling = optional_flag row.thermal_throttling;
          lab = lab;
        }))
  host_state_at row linux = do
    os ← ok_or (missing_column "host_os" linux) row.host_os
    kernel ← ok_or (missing_column "host_kernel" linux) row.host_kernel
    cpu_model ← ok_or (missing_column "host_cpu_model" linux) row.host_cpu_model
    accelerator ← ok_or (missing_column "host_accelerator" linux) row.host_accelerator
    ok (
        of_linux (record {
          os = os;
          kernel = kernel;
          cpu_model = cpu_model;
          cpu_count = row.host_cpu_count;
          memory_bytes = row.host_memory_bytes;
          accelerator = accelerator;
          accelerator_driver = row.host_accelerator_driver;
          uptime_seconds = row.device_uptime_seconds;
          thermal_throttling = optional_flag row.thermal_throttling;
        }))

  unfoldable pub host_state_from_row : HostColumns x → Result RowError (HostState x)
  unfolding host_state_at platform_try_from
  host_state_from_row row = do
    p ← map_err invalid_stored (platform_try_from row.platform)
    host_state_at row p

  -- The column constraints of the host columns.
  unfoldable pub ranges_check : HostColumns x → Bool
  ranges_check c =
      null_or (λ v. not (is_not_positive v)) c.gpu_clock_mhz
      && null_or (λ v. not (is_not_positive v)) c.mif_clock_mhz
      && null_or (λ v. not (is_not_positive v)) c.int_clock_mhz
      && null_or (in_celsius_range x) c.initial_temperature_celsius
      && null_or (in_celsius_range x) c.max_temperature_celsius
      && null_or (λ v. not (is_negative v)) c.device_uptime_seconds
      && null_or (λ v. not (is_not_positive v)) c.host_cpu_count
      && null_or (λ v. not (is_negative v)) c.host_memory_bytes

  abbrev no_lab : HostColumns x → Bool
  no_lab c =
      is_none c.bsp_version
      && is_none c.sumd_driver_version
      && is_none c.gpu_clock_mhz
      && is_none c.mif_clock_mhz
      && is_none c.int_clock_mhz

  abbrev full_lab : HostColumns x → Bool
  full_lab c =
      is_some c.bsp_version
      && is_some c.sumd_driver_version
      && is_some c.gpu_clock_mhz
      && is_some c.mif_clock_mhz
      && is_some c.int_clock_mhz

  abbrev linux_shape : HostColumns x → Bool
  linux_shape c =
      is_some c.host_os
      && is_some c.host_kernel
      && is_some c.host_cpu_model
      && is_some c.host_accelerator
      && no_lab c
      && is_none c.battery_charging
      && is_none c.initial_temperature_celsius
      && is_none c.max_temperature_celsius

  abbrev internal_shape : HostColumns x → Bool
  internal_shape c =
      full_lab c
      && is_some c.device_uptime_seconds
      && is_some c.battery_charging
      && is_some c.initial_temperature_celsius
      && is_some c.max_temperature_celsius
      && is_some c.thermal_throttling

  -- The table constraint: each platform and device class carries exactly its own snapshot.
  unfoldable pub shape_check : HostColumns x → Bool
  shape_check c =
      str_eq c.platform "linux" && linux_shape c
      || str_eq c.platform "android" && str_eq c.device_class "internal" && internal_shape c
      || str_eq c.platform "android" && str_eq c.device_class "external" && (no_lab c || full_lab c)

  -- The constraints that the columns' types in the program always meet.
  unfoldable pub names_check : HostColumns x → Bool
  names_check c =
      (str_eq c.platform "android" || str_eq c.platform "linux")
      && (str_eq c.device_class "internal" || str_eq c.device_class "external")
      && null_or is_flag c.thermal_throttling
      && null_or is_flag c.battery_charging

  unfoldable pub host_check : HostColumns x → Bool
  unfolding ranges_check shape_check names_check
  host_check c = ranges_check c && shape_check c && names_check c
