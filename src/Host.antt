-- ===== src/Host.antt =====
-- src/runs.rs, the host part: the snapshot of the host that a run carries, and the columns of the
-- `runs` table that hold it.
pub mod Columns
pub mod RoundTrip
use executorch_bencher.Prelude.{ℤ, String, Bool, ◌&&◌, Option, none, some, is_some}
use executorch_bencher.Domain.{Platform, android, linux}
use executorch_bencher.Externals.{Externals}

pub record AndroidLabConfig : Type 0 where
  pub bsp_version : String
  pub sumd_driver_version : String
  pub gpu_clock_mhz : ℤ
  pub mif_clock_mhz : ℤ
  pub int_clock_mhz : ℤ

pub record LinuxHostState : Type 0 where
  pub os : String
  pub kernel : String
  pub cpu_model : String
  pub cpu_count : Option ℤ
  pub memory_bytes : Option ℤ
  pub accelerator : String
  pub accelerator_driver : Option String
  pub uptime_seconds : Option ℤ
  pub thermal_throttling : Option Bool

pub record HostDescription : Type 0 where
  pub os : Option String
  pub kernel : Option String
  pub cpu_model : Option String
  pub cpu_count : Option ℤ
  pub memory_bytes : Option ℤ
  pub accelerator : Option String
  pub accelerator_driver : Option String

module _ (x : Externals) where
  open x use {F64}

  pub record AndroidDeviceState : Type 0 where
    pub os : Option String
    pub kernel : Option String
    pub soc : Option String
    pub cpu_count : Option ℤ
    pub memory_bytes : Option ℤ
    pub gpu : Option String
    pub gpu_driver : Option String
    pub uptime_seconds : Option ℤ
    pub battery_charging : Option Bool
    pub initial_temperature_celsius : Option F64
    pub max_temperature_celsius : Option F64
    pub thermal_throttling : Option Bool
    pub lab : Option AndroidLabConfig

  pub data HostState : Type 0 where
    of_android : AndroidDeviceState → HostState
    of_linux : LinuxHostState → HostState

module _ {x : Externals} where
  unfoldable pub is_complete_lab_snapshot : AndroidDeviceState x → Bool
  is_complete_lab_snapshot a =
      is_some a.lab
      && is_some a.uptime_seconds
      && is_some a.battery_charging
      && is_some a.initial_temperature_celsius
      && is_some a.max_temperature_celsius
      && is_some a.thermal_throttling

  unfoldable pub platform : HostState x → Platform
  platform (of_android a) = android
  platform (of_linux l) = linux

  unfoldable pub as_android : HostState x → Option (AndroidDeviceState x)
  as_android (of_android a) = some a
  as_android (of_linux l) = none

  unfoldable pub thermal_throttling : HostState x → Option Bool
  thermal_throttling (of_android a) = a.thermal_throttling
  thermal_throttling (of_linux l) = l.thermal_throttling

  unfoldable pub uptime_seconds : HostState x → Option ℤ
  uptime_seconds (of_android a) = a.uptime_seconds
  uptime_seconds (of_linux l) = l.uptime_seconds

  unfoldable pub description : HostState x → HostDescription
  description (of_android a) = record {
    os = a.os;
    kernel = a.kernel;
    cpu_model = a.soc;
    cpu_count = a.cpu_count;
    memory_bytes = a.memory_bytes;
    accelerator = a.gpu;
    accelerator_driver = a.gpu_driver;
  }
  description (of_linux l) = record {
    os = some l.os;
    kernel = some l.kernel;
    cpu_model = some l.cpu_model;
    cpu_count = l.cpu_count;
    memory_bytes = l.memory_bytes;
    accelerator = some l.accelerator;
    accelerator_driver = l.accelerator_driver;
  }
