-- ===== src/Domain.antt =====
-- src/domain.rs: the enumerations with their stored names, the SHA-256 digest as a validated text,
-- and the JSON checks. A message is kept as the format string's constructor with its arguments.
pub mod Digest
pub mod Names
use Prim.Native.String.{len}
use executorch_bencher.Prelude.{
  ℕ, String, Bool, ◌&&◌, ◌||◌, Option, some, none, if◌then◌else◌, ◌==◌, leb, Result, ok, err, ◌>>=◌,
  ok_or,
}
use executorch_bencher.Prelude.Text.{str_eq, all_chars}
use executorch_bencher.Externals.{Externals}

pub data InvalidValue : Type 0 where
  invalid_exit_status invalid_correctness_result invalid_platform : String → InvalidValue
  invalid_device_class not_a_sha256 invalid_json bad_command_args : String → InvalidValue
  uncanonical_json uncanonical_command_args env_vars_not_object : InvalidValue

pub data ExitStatus : Type 0 where
  succeeded crashed timed_out cancelled infrastructure_error : ExitStatus

unfoldable pub exit_status_as_str : ExitStatus → String
exit_status_as_str succeeded = "succeeded"
exit_status_as_str crashed = "crashed"
exit_status_as_str timed_out = "timed_out"
exit_status_as_str cancelled = "cancelled"
exit_status_as_str infrastructure_error = "infrastructure_error"

unfoldable pub exit_status_try_from : String → Result InvalidValue ExitStatus
exit_status_try_from value =
    if str_eq value "succeeded"
    then ok succeeded
    else if str_eq value "crashed"
    then ok crashed
    else if str_eq value "timed_out"
    then ok timed_out
    else if str_eq value "cancelled"
    then ok cancelled
    else if str_eq value "infrastructure_error"
    then ok infrastructure_error
    else err (invalid_exit_status value)

pub data CorrectnessResult : Type 0 where
  passed failed not_checked validator_error : CorrectnessResult

unfoldable pub correctness_as_str : CorrectnessResult → String
correctness_as_str passed = "passed"
correctness_as_str failed = "failed"
correctness_as_str not_checked = "not_checked"
correctness_as_str validator_error = "validator_error"

unfoldable pub correctness_try_from : String → Result InvalidValue CorrectnessResult
correctness_try_from value =
    if str_eq value "passed"
    then ok passed
    else if str_eq value "failed"
    then ok failed
    else if str_eq value "not_checked"
    then ok not_checked
    else if str_eq value "validator_error"
    then ok validator_error
    else err (invalid_correctness_result value)

pub data Platform : Type 0 where
  android linux : Platform

unfoldable pub platform_as_str : Platform → String
platform_as_str android = "android"
platform_as_str linux = "linux"

unfoldable pub platform_try_from : String → Result InvalidValue Platform
platform_try_from value =
    if str_eq value "android"
    then ok android
    else if str_eq value "linux"
    then ok linux
    else err (invalid_platform value)

pub data DeviceClass : Type 0 where
  internal external : DeviceClass

unfoldable pub device_class_as_str : DeviceClass → String
device_class_as_str internal = "internal"
device_class_as_str external = "external"

unfoldable pub device_class_try_from : String → Result InvalidValue DeviceClass
device_class_try_from value =
    if str_eq value "internal"
    then ok internal
    else if str_eq value "external"
    then ok external
    else err (invalid_device_class value)

-- `Sha256Hex`. The field is private in the source: values come from `sha256_try_from` alone.
pub record Sha256Hex : Type 0 where
  pub text : String

abbrev pub is_lower_hex : ℕ → Bool
is_lower_hex c = (leb b'0' c && leb c b'9') || (leb b'a' c && leb c b'f')

unfoldable pub is_sha256 : String → Bool
is_sha256 value = len value == 64 && all_chars is_lower_hex value

unfoldable pub sha256_try_from : String → Result InvalidValue Sha256Hex
sha256_try_from value =
    if is_sha256 value then ok (record { text = value }) else err (not_a_sha256 value)

module _ (x : Externals) where
  open x use {
    Json, json_to_string, json_from_str, json_is_object, strings_to_string, strings_from_str,
  }

  unfoldable pub canonicalize : String → Result InvalidValue (Json × String)
  canonicalize raw = do
    value ← ok_or (invalid_json raw) (json_from_str raw)
    text ← ok_or uncanonical_json (json_to_string value)
    ok (value, text)

  unfoldable pub validate_command_args : String → Result InvalidValue String
  validate_command_args raw = do
    args ← ok_or (bad_command_args raw) (strings_from_str raw)
    ok_or uncanonical_command_args (strings_to_string args)

  unfoldable pub validate_json : String → Result InvalidValue String
  validate_json raw = do (value, text) ← canonicalize raw; ok text

  unfoldable pub validate_env_vars : String → Result InvalidValue String
  validate_env_vars raw = do
    (value, text) ← canonicalize raw
    if json_is_object value then ok text else err env_vars_not_object
