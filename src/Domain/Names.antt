-- ===== src/Domain/Names.antt =====
-- The stored name of an enumeration's value: `try_from` reads back exactly what `as_str` writes.
use executorch_bencher.Prelude.{String, ◌≡◌, refl, arith, ok}
use executorch_bencher.Prelude.Text.{eq_iff}
use executorch_bencher.Domain.{
  ExitStatus, exit_status_as_str, exit_status_try_from, CorrectnessResult, correctness_as_str,
  correctness_try_from, Platform, platform_as_str, platform_try_from, DeviceClass,
  device_class_as_str, device_class_try_from,
}

pub exit_status_try_from-as_str :
    (s : ExitStatus) → exit_status_try_from (exit_status_as_str s) ≡ ok s
unfolding exit_status_as_str exit_status_try_from
exit_status_try_from-as_str ExitStatus.succeeded = refl
exit_status_try_from-as_str _ = refl

pub exit_status_as_str-try_from :
    (value : String) (s : ExitStatus)
    → exit_status_try_from value ≡ ok s
    → exit_status_as_str s ≡ value
unfolding exit_status_as_str exit_status_try_from
exit_status_as_str-try_from value s h = ground (
  arith,
  eq_iff value "succeeded",
  eq_iff value "crashed",
  eq_iff value "timed_out",
  eq_iff value "cancelled",
  eq_iff value "infrastructure_error",
)

pub correctness_try_from-as_str :
    (s : CorrectnessResult) → correctness_try_from (correctness_as_str s) ≡ ok s
unfolding correctness_as_str correctness_try_from
correctness_try_from-as_str CorrectnessResult.passed = refl
correctness_try_from-as_str _ = refl

pub correctness_as_str-try_from :
    (value : String) (s : CorrectnessResult)
    → correctness_try_from value ≡ ok s
    → correctness_as_str s ≡ value
unfolding correctness_as_str correctness_try_from
correctness_as_str-try_from value s h = ground (
  arith,
  eq_iff value "passed",
  eq_iff value "failed",
  eq_iff value "not_checked",
  eq_iff value "validator_error",
)

pub platform_try_from-as_str : (p : Platform) → platform_try_from (platform_as_str p) ≡ ok p
unfolding platform_as_str platform_try_from
platform_try_from-as_str Platform.android = refl
platform_try_from-as_str _ = refl

pub platform_as_str-try_from :
    (value : String) (p : Platform) → platform_try_from value ≡ ok p → platform_as_str p ≡ value
unfolding platform_as_str platform_try_from
platform_as_str-try_from value p h = ground (arith, eq_iff value "android", eq_iff value "linux")

pub device_class_try_from-as_str :
    (c : DeviceClass) → device_class_try_from (device_class_as_str c) ≡ ok c
unfolding device_class_as_str device_class_try_from
device_class_try_from-as_str DeviceClass.internal = refl
device_class_try_from-as_str _ = refl

pub device_class_as_str-try_from :
    (value : String) (c : DeviceClass)
    → device_class_try_from value ≡ ok c
    → device_class_as_str c ≡ value
unfolding device_class_as_str device_class_try_from
device_class_as_str-try_from value c h =
    ground (arith, eq_iff value "internal", eq_iff value "external")
