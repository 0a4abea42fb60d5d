-- ===== src/RunsWrite/Validated.antt =====
-- A converted request satisfies every CHECK constraint of the `runs` table and passes the guard of
-- `insert_run`.
use Prim.Native.String.{count}
use mathlib.Core.Option
use executorch_bencher.Prelude.{
  ℕ, String, Bool, true, false, not, ◌≡◌, refl, ap, sym, ◌∙◌, Option, ok, transpose_map,
  transpose_map_lem, is_ok_of_eq, is_negative, ◌==◌, flag,
}
use executorch_bencher.Domain.{
  ExitStatus, CorrectnessResult, DeviceClass, internal, external, Platform, exit_status_as_str,
  correctness_as_str, succeeded, crashed, timed_out, cancelled, infrastructure_error, passed,
  failed, not_checked, validator_error,
}
use executorch_bencher.Externals.{Externals}
use executorch_bencher.Host.{HostState, of_android, of_linux, as_android}
use executorch_bencher.Host.Columns.{host_columns, host_check, null_or, is_flag}
use executorch_bencher.HostRules.{HostInput, host_state}
use executorch_bencher.HostRules.Accepts.{
  host_state-host_check, host_columns-host_state, host_state_internal,
}
use executorch_bencher.Runs.{incomplete_internal}
use executorch_bencher.Runs.Row.{NewRun, to_row}
use executorch_bencher.Runs.RoundTrip.{IsDigest, IsDigest?}
use executorch_bencher.Runs.Table.{
  runs_check, values_check, enums_check, is_exit_status, is_correctness_result,
}
use executorch_bencher.RunsWrite.Convert.{
  CreateRunRequest, to_new_run, host_input, non_negative_f64,
}
use executorch_bencher.RunsWrite.Built.{to_new_run-IsBuilt}
use executorch_bencher.RunsWrite.Parts.{
  non_negative_lem, sha_lem, sha?_lem, validate_json_lem, validate_env_vars_lem,
  validate_command_args_lem, non_negative_f64_lem,
}

exit_status_known : (s : ExitStatus) → is_exit_status (exit_status_as_str s) ≡ true
unfolding exit_status_as_str
exit_status_known succeeded = refl
exit_status_known crashed = refl
exit_status_known timed_out = refl
exit_status_known cancelled = refl
exit_status_known infrastructure_error = refl

correctness_known : (c : CorrectnessResult) → is_correctness_result (correctness_as_str c) ≡ true
unfolding correctness_as_str
correctness_known passed = refl
correctness_known failed = refl
correctness_known not_checked = refl
correctness_known validator_error = refl

flag_known : (b : Bool) → is_flag (flag b) ≡ true
flag_known true = refl
flag_known false = refl

enums_hold : {x : Externals} (r : NewRun x) → enums_check (to_row r) ≡ true
unfolding enums_check to_row
enums_hold r = rw (
  exit_status_known r.exit_status,
  correctness_known r.correctness_result,
  flag_known r.git_dirty,
)

decode_lem :
    (x : Externals) (f : String) (v d : Option (Externals.F64 x))
    → transpose_map (non_negative_f64 x f) v ≡ ok d
    → null_or (λ v. Externals.f64_le x (Externals.f64_zero x) v) d ≡ true
decode_lem x f v =
    transpose_map_lem
      (λ (d : Option (Externals.F64 x)).
        null_or (λ v. Externals.f64_le x (Externals.f64_zero x) v) d ≡ true)
      (non_negative_f64 x f) v refl (λ a b h. non_negative_f64_lem x f a b h)

module _ {x : Externals} where
  host_check_lem :
      (i : HostInput x) (p : Platform) (c : DeviceClass) (h : HostState x)
      → host_state i p c ≡ ok h
      → host_check (host_columns h c) ≡ true
  host_check_lem i p c h e =
      ap host_check (host_columns-host_state i p c h e)
      ∙ sym (host_state-host_check i p c)
      ∙ is_ok_of_eq (host_state i p c) e

  guard_lem :
      (i : HostInput x) (p : Platform) (r : NewRun x) (c : DeviceClass) (h : HostState x)
      → r.device_class ≡ c
      → r.host ≡ h
      → host_state i p c ≡ ok h
      → incomplete_internal r ≡ false
  unfolding incomplete_internal as_android
  guard_lem i p r internal (of_android a) cs hs e = rw (cs, hs, host_state_internal i p a e)
  guard_lem i p r internal (of_linux l) cs hs e = rw (cs, hs)
  guard_lem i p r external h cs hs e = rw cs

  pub record IsValidated (r : NewRun x) : Type 0 where
    pub checked : runs_check (to_row r) ≡ true
    pub prompt : IsDigest r.prompt_sha256
    pub executable : IsDigest? r.executable_sha256
    pub complete : incomplete_internal r ≡ false

  -- What the validation steps say of a run's fields, put together.
  IsValidated-of :
      (i : HostInput x) (p : Platform) (r : NewRun x)
      → host_state i p r.device_class ≡ ok r.host
      → not (is_negative r.repetition) ≡ true
      → Externals.json_valid x r.command_args_json ≡ true
      → Externals.json_valid x r.input_parameters_json ≡ true
      → Externals.json_valid x r.env_vars_json ≡ true
      → IsDigest? r.executable_sha256
        × (null_or (λ s. count s == 64) (Option.map (λ s. s.text) r.executable_sha256) ≡ true)
      → IsDigest r.prompt_sha256 × ((count r.prompt_sha256.text == 64) ≡ true)
      → not (is_negative r.input_token_count) ≡ true
      → not (is_negative r.output_token_count) ≡ true
      → Externals.f64_le x (Externals.f64_zero x) r.prefill_tokens_per_sec ≡ true
      → null_or (λ v. Externals.f64_le x (Externals.f64_zero x) v) r.decode_tokens_per_sec ≡ true
      → IsValidated r
  unfolding runs_check to_row values_check
  IsValidated-of i p r host rep args params env exe prompt input output prefill decode =
      let enums : enums_check (to_row r) ≡ true = enums_hold r in
      record {
        checked = rw (
          host_check_lem i p r.device_class r.host host,
          rep,
          args,
          params,
          env,
          exe.1,
          prompt.1,
          input,
          output,
          prefill,
          decode,
          enums,
        );
        prompt = prompt.0;
        executable = exe.0;
        complete = guard_lem i p r r.device_class r.host refl refl host;
      }

  -- A request that is accepted becomes a run whose row satisfies every CHECK constraint of the
  -- table, whose digests have passed the digest check, and which `insert_run`'s guard lets through.
  pub to_new_run-IsValidated :
      (req : CreateRunRequest x) (n : ℕ) (r : NewRun x) → to_new_run x req n ≡ ok r → IsValidated r
  to_new_run-IsValidated req n r h =
      let b = to_new_run-IsBuilt req n r h in
      IsValidated-of (host_input x req) b.named r b.host
        (non_negative_lem "repetition" _ _ b.repetition)
        (validate_command_args_lem x "command_args" _ _ b.command_args)
        (validate_json_lem x "input_parameters" _ _ b.input_parameters)
        (validate_env_vars_lem x "env_vars" _ _ b.env_vars)
        (sha?_lem "executable_sha256" _ _ b.executable_sha256)
        (sha_lem "prompt_sha256" _ _ b.prompt_sha256)
        (non_negative_lem "input_token_count" _ _ b.input_token_count)
        (non_negative_lem "output_token_count" _ _ b.output_token_count)
        (non_negative_f64_lem x "prefill_tokens_per_sec" _ _ b.prefill_tokens_per_sec)
        (decode_lem x "decode_tokens_per_sec" _ _ b.decode_tokens_per_sec)
