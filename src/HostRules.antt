-- ===== src/HostRules.antt =====
-- src/host_rules.rs: from the flat, all-optional description of a host to the snapshot, by the
-- rules of the platform and the device class.
pub mod Accepts
use mathlib.Core.Option
use Prim.Native.String
use executorch_bencher.Prelude.{
  ℤ, pos, ℕ, zero, suc, ◌+◌, String, Bool, not, Option, none, some, is_some, List, [], ◌∷◌,
  is_negative, is_not_positive, Result, ok, err, ◌>>=◌, ◌>>◌, ok_or, length, ◌==◌, if◌then◌else◌,
}
use executorch_bencher.Domain.{
  InvalidValue, Platform, android, linux, DeviceClass, internal, external,
}
use executorch_bencher.Externals.{Externals}
use executorch_bencher.Host.{
  AndroidLabConfig, LinuxHostState, AndroidDeviceState, HostState, of_android, of_linux,
}
use executorch_bencher.Host.Columns.{in_celsius_range}

-- A message is a text of the source, or a rejected value that the text quotes.
pub data Message : Type 0 where
  text : String → Message
  quoted : InvalidValue → Message

pub record FieldError : Type 0 where
  pub field : String
  pub message : Message

unfoldable pub field_err : String → String → FieldError
field_err field message = record { field = field; message = text message }

module _ (x : Externals) where
  open x use {F64}

  pub record HostInput : Type 0 where
    pub host_os : Option String
    pub host_kernel : Option String
    pub host_cpu_model : Option String
    pub host_cpu_count : Option ℤ
    pub host_memory_bytes : Option ℤ
    pub host_accelerator : Option String
    pub host_accelerator_driver : Option String
    pub device_uptime_seconds : Option ℤ
    pub thermal_throttling : Option Bool
    pub bsp_version : Option String
    pub sumd_driver_version : Option String
    pub gpu_clock_mhz : Option ℤ
    pub mif_clock_mhz : Option ℤ
    pub int_clock_mhz : Option ℤ
    pub battery_charging : Option Bool
    pub initial_temperature_celsius : Option F64
    pub max_temperature_celsius : Option F64

unfoldable pub non_negative : String → ℤ → Result FieldError ℤ
non_negative field value =
    if is_negative value then err (field_err field "must not be negative") else ok value

positive_clock : String → Option ℤ → Result FieldError (Option ℤ)
positive_clock field none = ok none
positive_clock field (some v) =
    if is_not_positive v then err (field_err field "must be greater than zero MHz") else ok (some v)

-- `if let Some(v) = value { check(v)?; }`
if_some : Option ℤ → (ℤ → Result FieldError ℤ) → Result FieldError (Option ℤ)
if_some none check = ok none
if_some (some v) check = do check v; ok (some v)

positive_count : ℤ → Result FieldError ℤ
positive_count n =
    if is_not_positive n then err (field_err "host_cpu_count" "must be greater than zero") else ok n

required {ℓ} : {A : Type ℓ} → String → Option A → String → Result FieldError A
required field value why = ok_or (field_err field (String.◌++◌ "required " why)) value

forbidden {ℓ} : {A : Type ℓ} → String → Option A → String → Result FieldError (Unit {0})
forbidden field value why =
    if is_some value then err (field_err field (String.◌++◌ "must be null " why)) else ok tt

-- `lab_fields.iter().find(|(_, present)| !*present)`, by name, with the source's default
first_missing : List (String × Bool) → String
first_missing [] = "bsp_version"
first_missing ((field, present) ∷ rest) = if present then first_missing rest else field

-- `lab_fields.iter().filter(|(_, p)| *p).count()`
count_present : List (String × Bool) → ℕ
count_present [] = 0
count_present ((field, present) ∷ rest) = count_present rest + (if present then 1 else 0)

temperature :
    (x : Externals)
    → String
    → Option (Externals.F64 x)
    → Result FieldError (Option (Externals.F64 x))
temperature x field none = ok none
temperature x field (some v) =
    if not (in_celsius_range x v)
    then err (field_err field "must be between -40 and 150 degrees Celsius")
    else ok (some v)

module _ {x : Externals} where
  -- The range checks at the head of `host_state`, in its order. The values that they bind are
  -- the input's own.
  ranges : HostInput x → Result FieldError (Unit {0})
  unfolding positive_clock temperature if_some non_negative positive_count field_err
  ranges input = do
    positive_clock "gpu_clock_mhz" input.gpu_clock_mhz
    positive_clock "mif_clock_mhz" input.mif_clock_mhz
    positive_clock "int_clock_mhz" input.int_clock_mhz
    temperature x "initial_temperature_celsius" input.initial_temperature_celsius
    temperature x "max_temperature_celsius" input.max_temperature_celsius
    if_some input.device_uptime_seconds (non_negative "device_uptime_seconds")
    if_some input.host_cpu_count positive_count
    if_some input.host_memory_bytes (non_negative "host_memory_bytes")
    ok tt

  linux_state : HostInput x → Result FieldError (HostState x)
  unfolding forbidden required field_err
  linux_state input = do
    forbidden "bsp_version" input.bsp_version "on a linux run"
    forbidden "sumd_driver_version" input.sumd_driver_version "on a linux run"
    forbidden "gpu_clock_mhz" input.gpu_clock_mhz "on a linux run"
    forbidden "mif_clock_mhz" input.mif_clock_mhz "on a linux run"
    forbidden "int_clock_mhz" input.int_clock_mhz "on a linux run"
    forbidden "battery_charging" input.battery_charging "on a linux run"
    forbidden "initial_temperature_celsius" input.initial_temperature_celsius "on a linux run"
    forbidden "max_temperature_celsius" input.max_temperature_celsius "on a linux run"
    os ← required "host_os" input.host_os "on a linux run"
    kernel ← required "host_kernel" input.host_kernel "on a linux run"
    cpu_model ← required "host_cpu_model" input.host_cpu_model "on a linux run"
    accelerator ← required "host_accelerator" input.host_accelerator "on a linux run"
    ok (
        of_linux (record {
          os = os;
          kernel = kernel;
          cpu_model = cpu_model;
          cpu_count = input.host_cpu_count;
          memory_bytes = input.host_memory_bytes;
          accelerator = accelerator;
          accelerator_driver = input.host_accelerator_driver;
          uptime_seconds = input.device_uptime_seconds;
          thermal_throttling = input.thermal_throttling;
        }))

  lab_fields : HostInput x → List (String × Bool)
  lab_fields input =
      ("bsp_version", is_some input.bsp_version)
      ∷ ("sumd_driver_version", is_some input.sumd_driver_version)
      ∷ ("gpu_clock_mhz", is_some input.gpu_clock_mhz)
      ∷ ("mif_clock_mhz", is_some input.mif_clock_mhz)
      ∷ ("int_clock_mhz", is_some input.int_clock_mhz)
      ∷ []

  lab_config : HostInput x → Result FieldError (Option AndroidLabConfig)
  unfolding lab_fields count_present first_missing field_err
  lab_config input =
      let fields = lab_fields input in
      let present = count_present fields in
      if present == length fields
      then ok (
          some (record {
            bsp_version = Option.get_or input.bsp_version "";
            sumd_driver_version = Option.get_or input.sumd_driver_version "";
            gpu_clock_mhz = Option.get_or input.gpu_clock_mhz (pos 0);
            mif_clock_mhz = Option.get_or input.mif_clock_mhz (pos 0);
            int_clock_mhz = Option.get_or input.int_clock_mhz (pos 0);
          }))
      else if present == 0
      then ok none
      else err (
          field_err (first_missing fields)
            "BSP version, SUMD driver version, and the GPU/MIF/INT clocks are recorded all together or not at all")

  device_state : HostInput x → Option AndroidLabConfig → AndroidDeviceState x
  device_state input lab = record {
    os = input.host_os;
    kernel = input.host_kernel;
    soc = input.host_cpu_model;
    cpu_count = input.host_cpu_count;
    memory_bytes = input.host_memory_bytes;
    gpu = input.host_accelerator;
    gpu_driver = input.host_accelerator_driver;
    uptime_seconds = input.device_uptime_seconds;
    battery_charging = input.battery_charging;
    initial_temperature_celsius = input.initial_temperature_celsius;
    max_temperature_celsius = input.max_temperature_celsius;
    thermal_throttling = input.thermal_throttling;
    lab = lab;
  }

  -- What an internal device must carry besides.
  internal_rules : HostInput x → AndroidDeviceState x → Result FieldError (Unit {0})
  unfolding required lab_fields first_missing field_err
  internal_rules input state = do
    required (first_missing (lab_fields input)) state.lab "on an internal android device"
    required "device_uptime_seconds" state.uptime_seconds "on an internal android device"
    required "battery_charging" state.battery_charging "on an internal android device"
    required "initial_temperature_celsius" state.initial_temperature_celsius
        "on an internal android device"
    required "max_temperature_celsius" state.max_temperature_celsius "on an internal android device"
    required "thermal_throttling" state.thermal_throttling "on an internal android device"
    ok tt

  android_state : HostInput x → DeviceClass → Result FieldError (HostState x)
  unfolding lab_config device_state internal_rules
  android_state input internal = do
    lab ← lab_config input
    internal_rules input (device_state input lab)
    ok (of_android (device_state input lab))
  android_state input external = do lab ← lab_config input; ok (of_android (device_state input lab))

  platform_state : HostInput x → Platform → DeviceClass → Result FieldError (HostState x)
  unfolding linux_state android_state
  platform_state input linux device_class = linux_state input
  platform_state input android device_class = android_state input device_class

  -- Builds the snapshot from `input`, reporting the first rule violated by field.
  unfoldable pub host_state : HostInput x → Platform → DeviceClass → Result FieldError (HostState x)
  unfolding ranges platform_state
  host_state input platform device_class = do
    ranges input
    platform_state input platform device_class
