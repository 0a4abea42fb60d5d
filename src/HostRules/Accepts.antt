-- ===== src/HostRules/Accepts.antt =====
-- `host_state` against the CHECK constraints of the `runs` table.
use mathlib.Core.Option
use executorch_bencher.Prelude.{
  true, ◌≡◌, refl, arith, Option, flag, ok, is_ok, ◌>>◌, >>-eq-ok, >>=-eq-ok, sym, ap, ◌∙◌,
}
use executorch_bencher.Domain.{
  Platform, android, linux, DeviceClass, internal, external, platform_as_str, device_class_as_str,
}
use executorch_bencher.Externals.{Externals}
use executorch_bencher.Host.{
  HostState, AndroidLabConfig, AndroidDeviceState, is_complete_lab_snapshot, of_android, of_linux,
}
use executorch_bencher.Host.Columns.{
  HostColumns, ranges_check, shape_check, names_check, host_check, host_columns,
}
use executorch_bencher.HostRules.{
  HostInput, host_state, ranges, platform_state, linux_state, lab_config, device_state,
  internal_rules, android_state,
}

module _ {x : Externals} where
  -- The columns that a description states, before any rule.
  unfoldable pub input_columns : HostInput x → Platform → DeviceClass → HostColumns x
  input_columns i p c = record {
    platform = platform_as_str p;
    device_class = device_class_as_str c;
    device_uptime_seconds = i.device_uptime_seconds;
    thermal_throttling = Option.map flag i.thermal_throttling;
    bsp_version = i.bsp_version;
    sumd_driver_version = i.sumd_driver_version;
    battery_charging = Option.map flag i.battery_charging;
    initial_temperature_celsius = i.initial_temperature_celsius;
    max_temperature_celsius = i.max_temperature_celsius;
    gpu_clock_mhz = i.gpu_clock_mhz;
    mif_clock_mhz = i.mif_clock_mhz;
    int_clock_mhz = i.int_clock_mhz;
    host_os = i.host_os;
    host_kernel = i.host_kernel;
    host_cpu_model = i.host_cpu_model;
    host_cpu_count = i.host_cpu_count;
    host_memory_bytes = i.host_memory_bytes;
    host_accelerator = i.host_accelerator;
    host_accelerator_driver = i.host_accelerator_driver;
  }

  ranges_iff :
      (i : HostInput x) (p : Platform) (c : DeviceClass)
      → is_ok (ranges i) ≡ ranges_check (input_columns i p c)
  unfolding ranges ranges_check input_columns
  ranges_iff i p c = ground arith

  linux_iff :
      (i : HostInput x) (c : DeviceClass)
      → is_ok (linux_state i) ≡ shape_check (input_columns i linux c)
  unfolding linux_state shape_check input_columns platform_as_str device_class_as_str
  linux_iff i internal = ground arith
  linux_iff i external = ground arith

  android_iff :
      (i : HostInput x) (c : DeviceClass)
      → is_ok (android_state i c) ≡ shape_check (input_columns i android c)
  unfolding android_state shape_check input_columns platform_as_str device_class_as_str
  android_iff i internal = ground arith
  android_iff i external = ground arith

  names_hold :
      (i : HostInput x) (p : Platform) (c : DeviceClass) → names_check (input_columns i p c) ≡ true
  unfolding names_check input_columns platform_as_str device_class_as_str
  names_hold i android internal = ground arith
  names_hold i android external = ground arith
  names_hold i linux internal = ground arith
  names_hold i linux external = ground arith

  platform_iff :
      (i : HostInput x) (p : Platform) (c : DeviceClass)
      → is_ok (platform_state i p c) ≡ shape_check (input_columns i p c)
  unfolding platform_state
  platform_iff i android c = android_iff i c
  platform_iff i linux c = linux_iff i c

  -- A description is accepted exactly if the columns that it states satisfy every CHECK
  -- constraint that the `runs` table has on them, on each platform and for each device class.
  pub host_state-host_check :
      (i : HostInput x) (p : Platform) (c : DeviceClass)
      → is_ok (host_state i p c) ≡ host_check (input_columns i p c)
  unfolding host_state host_check
  host_state-host_check i p c =
      ground (arith, ranges_iff i p c, platform_iff i p c, names_hold i p c)

  linux_columns :
      (i : HostInput x) (c : DeviceClass) (h : HostState x)
      → linux_state i ≡ ok h
      → host_columns h c ≡ input_columns i linux c
  unfolding linux_state host_columns input_columns
  linux_columns i c (of_linux l) e = ground arith
  linux_columns i c (of_android a) e = absurd (ground arith)

  state_columns :
      (i : HostInput x) (c : DeviceClass) (lab : Option AndroidLabConfig)
      → lab_config i ≡ ok lab
      → host_columns (of_android (device_state i lab)) c ≡ input_columns i android c
  unfolding lab_config device_state host_columns input_columns
  state_columns i c lab e = ground arith

  internal_complete :
      (i : HostInput x) (a : AndroidDeviceState x)
      → is_ok (internal_rules i a) ≡ is_complete_lab_snapshot a
  unfolding internal_rules is_complete_lab_snapshot
  internal_complete i a = ground arith

  -- What an accepted Android snapshot is: the device's state with the lab configuration, and
  -- complete if the device is internal.
  android_parts :
      (i : HostInput x) (c : DeviceClass) (h : HostState x)
      → android_state i c ≡ ok h
      → (lab : Option AndroidLabConfig) × (lab_config i ≡ ok lab)
        × (of_android (device_state i lab) ≡ h)
        × (c ≡ internal → is_complete_lab_snapshot (device_state i lab) ≡ true)
  unfolding android_state
  android_parts i internal h e =
      let (lab, configured, rest) =
        >>=-eq-ok (lab_config i)
          (λ (lab : Option AndroidLabConfig).
            internal_rules i (device_state i lab) >> ok (of_android (device_state i lab)))
          e in
      let (complete, built) = >>-eq-ok (internal_rules i (device_state i lab)) _ rest in
      (lab, configured, cc built, λ _. sym (internal_complete i (device_state i lab)) ∙ complete)
  android_parts i external h e =
      let (lab, configured, built) =
        >>=-eq-ok (lab_config i)
          (λ (lab : Option AndroidLabConfig). ok (of_android (device_state i lab))) e in
      (lab, configured, cc built, λ never. cc never)

  android_columns :
      (i : HostInput x) (c : DeviceClass) (h : HostState x)
      → android_state i c ≡ ok h
      → host_columns h c ≡ input_columns i android c
  android_columns i c h e =
      let (lab, configured, built, _) = android_parts i c h e in
      cc (ap (λ (s : HostState x). host_columns s c) built, state_columns i c lab configured)

  -- An accepted snapshot is stored in exactly the columns that the description states: no field
  -- is dropped, changed or invented.
  pub host_columns-host_state :
      (i : HostInput x) (p : Platform) (c : DeviceClass) (h : HostState x)
      → host_state i p c ≡ ok h
      → host_columns h c ≡ input_columns i p c
  unfolding host_state platform_state
  host_columns-host_state i android c h e = android_columns i c h (>>-eq-ok (ranges i) _ e).1
  host_columns-host_state i linux c h e = linux_columns i c h (>>-eq-ok (ranges i) _ e).1

  linux_only : (i : HostInput x) (a : AndroidDeviceState x) → linux_state i ≡ ok (of_android a) → ⊥
  unfolding linux_state
  linux_only i a e = ground arith

  -- An accepted snapshot of an internal Android device is complete.
  pub host_state_internal :
      (i : HostInput x) (p : Platform) (a : AndroidDeviceState x)
      → host_state i p internal ≡ ok (of_android a)
      → is_complete_lab_snapshot a ≡ true
  unfolding host_state platform_state
  host_state_internal i android a e =
      let (lab, configured, built, complete) =
        android_parts i internal (of_android a) (>>-eq-ok (ranges i) _ e).1 in
      let same : device_state i lab ≡ a = cc built in
      cc (ap is_complete_lab_snapshot same, complete refl)
  host_state_internal i linux a e = absurd (linux_only i a (>>-eq-ok (ranges i) _ e).1)
