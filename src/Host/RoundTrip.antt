-- ===== src/Host/RoundTrip.antt =====
-- What `insert_run` writes into the host columns, `host_state_from_row` reads back.
use executorch_bencher.Prelude.{Bool, true, false, ◌≡◌, refl, Option, none, some, ok, arith, flag}
use executorch_bencher.Domain.{DeviceClass, platform_as_str, device_class_as_str}
use executorch_bencher.Externals.{Externals}
use executorch_bencher.Host.{HostState, of_android, of_linux}
use executorch_bencher.Host.Columns.{host_columns, host_state_from_row, optional_flag}
use mathlib.Core.Option

pub optional_flag-flag : (o : Option Bool) → optional_flag (Option.map flag o) ≡ o
optional_flag-flag none = refl
optional_flag-flag (some true) = refl
optional_flag-flag (some false) = refl

module _ {x : Externals} where
  -- Any snapshot, of either platform and whatever its optional fields hold, is read back from its
  -- columns as it was.
  pub host_state_from_row-host_columns :
      (h : HostState x) (c : DeviceClass) → host_state_from_row (host_columns h c) ≡ ok h
  unfolding host_state_from_row host_columns platform_as_str
  host_state_from_row-host_columns (of_linux l) c = rw optional_flag-flag
  host_state_from_row-host_columns (of_android a) c =
      ground (arith, optional_flag-flag a.thermal_throttling, optional_flag-flag a.battery_charging)

  pub device_class-host_columns :
      (h : HostState x) (c : DeviceClass) → (host_columns h c).device_class ≡ device_class_as_str c
  unfolding host_columns
  device_class-host_columns h c = refl
