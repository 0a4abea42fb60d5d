-- ===== src/RunsWrite/Built.antt =====
-- The steps of `to_new_run` that a request which is accepted has passed, and the values they gave.
use mathlib.Core.Option
use executorch_bencher.Prelude.{
  ℕ, ◌≡◌, refl, ok, map_err, transpose_map, subst, >>=-eq-ok, >>-eq-ok, ok_inj,
}
use executorch_bencher.Domain.{
  Platform, platform_try_from, device_class_try_from, exit_status_try_from, correctness_try_from,
  validate_command_args, validate_json, validate_env_vars,
}
use executorch_bencher.Externals.{Externals}
use executorch_bencher.HostRules.{host_state, non_negative}
use executorch_bencher.Runs.Row.{NewRun}
use executorch_bencher.RunsWrite.Convert.{
  CreateRunRequest, quote, not_empty, an_object, to_new_run, host_input, sha, non_negative_f64,
  output_preview,
}

module _ {x : Externals} where
  open x use {json_display}

  -- What the request gives the run as it is, but for the references.
  pub record IsPassedOn (n : ℕ) (req : CreateRunRequest x) (run : NewRun x) : Type 0 where
    pub id : run.id ≡ req.id
    pub started_at : run.started_at ≡ req.started_at
    pub finished_at : run.finished_at ≡ req.finished_at
    pub command_line : run.command_line ≡ req.command_line
    pub env_allowlist_version : run.env_allowlist_version ≡ req.env_allowlist_version
    pub collector_version : run.collector_version ≡ req.collector_version
    pub device_serial : run.device_serial ≡ req.device_serial
    pub device_model : run.device_model ≡ req.device_model
    pub git_commit_sha : run.git_commit_sha ≡ req.git_commit_sha
    pub git_dirty : run.git_dirty ≡ req.git_dirty
    pub git_branch : run.git_branch ≡ req.git_branch
    pub git_commit_timestamp : run.git_commit_timestamp ≡ req.git_commit_timestamp
    pub git_commit_subject : run.git_commit_subject ≡ req.git_commit_subject
    pub error_summary : run.error_summary ≡ req.error_summary
    pub output_preview :
        run.output_preview ≡ Option.map (λ p. output_preview p n) req.output_preview

  -- What the steps gave.
  pub record IsBuilt (n : ℕ) (req : CreateRunRequest x) (run : NewRun x) : Type 0 where
    pub named : Platform
    pub platform : map_err (quote "platform") (platform_try_from req.platform) ≡ ok named
    pub device_class :
        map_err (quote "device_class") (device_class_try_from req.device_class)
        ≡ ok run.device_class
    pub exit_status :
        map_err (quote "exit_status") (exit_status_try_from req.exit_status) ≡ ok run.exit_status
    pub correctness_result :
        map_err (quote "correctness_result") (correctness_try_from req.correctness_result)
        ≡ ok run.correctness_result
    pub repetition : non_negative "repetition" req.repetition ≡ ok run.repetition
    pub command_args :
        map_err (quote "command_args") (validate_command_args x (json_display req.command_args))
        ≡ ok run.command_args_json
    pub input_parameters :
        map_err (quote "input_parameters") (validate_json x (json_display req.input_parameters))
        ≡ ok run.input_parameters_json
    pub env_vars :
        map_err (quote "env_vars") (validate_env_vars x (json_display req.env_vars))
        ≡ ok run.env_vars_json
    pub host : host_state (host_input x req) named run.device_class ≡ ok run.host
    pub executable_sha256 :
        transpose_map (sha "executable_sha256") req.executable_sha256 ≡ ok run.executable_sha256
    pub prompt_sha256 : sha "prompt_sha256" req.prompt_sha256 ≡ ok run.prompt_sha256
    pub input_token_count :
        non_negative "input_token_count" req.input_token_count ≡ ok run.input_token_count
    pub output_token_count :
        non_negative "output_token_count" req.output_token_count ≡ ok run.output_token_count
    pub prefill_tokens_per_sec :
        non_negative_f64 x "prefill_tokens_per_sec" req.prefill_tokens_per_sec
        ≡ ok run.prefill_tokens_per_sec
    pub decode_tokens_per_sec :
        transpose_map (non_negative_f64 x "decode_tokens_per_sec") req.decode_tokens_per_sec
        ≡ ok run.decode_tokens_per_sec
    pub passed_on : IsPassedOn n req run

  pub to_new_run-IsBuilt :
      (req : CreateRunRequest x) (n : ℕ) (run : NewRun x)
      → to_new_run x req n ≡ ok run
      → IsBuilt n req run
  unfolding to_new_run
  to_new_run-IsBuilt req n run h0 =
      let (platform, e1, h1) =
        >>=-eq-ok (map_err (quote "platform") (platform_try_from req.platform)) _ h0 in
      let (class, e2, h2) =
        >>=-eq-ok (map_err (quote "device_class") (device_class_try_from req.device_class)) _ h1 in
      let (status, e3, h3) =
        >>=-eq-ok (map_err (quote "exit_status") (exit_status_try_from req.exit_status)) _ h2 in
      let (correct, e4, h4) =
        >>=-eq-ok
          (map_err (quote "correctness_result") (correctness_try_from req.correctness_result)) _
          h3 in
      let (repetition, e5, h5) = >>=-eq-ok (non_negative "repetition" req.repetition) _ h4 in
      let (args, e6, h6) =
        >>=-eq-ok
          (map_err (quote "command_args") (validate_command_args x (json_display req.command_args)))
          _ h5 in
      let (object, h7) = >>-eq-ok (an_object x req.input_parameters) _ h6 in
      let (parameters, e8, h8) =
        >>=-eq-ok
          (map_err (quote "input_parameters") (validate_json x (json_display req.input_parameters)))
          _ h7 in
      let (env, e9, h9) =
        >>=-eq-ok (map_err (quote "env_vars") (validate_env_vars x (json_display req.env_vars))) _
          h8 in
      let (serial, h10) = >>-eq-ok (not_empty "device_serial" req.device_serial) _ h9 in
      let (commit, h11) = >>-eq-ok (not_empty "git_commit_sha" req.git_commit_sha) _ h10 in
      let (host, e12, h12) = >>=-eq-ok (host_state (host_input x req) platform class) _ h11 in
      let (exe, e13, h13) =
        >>=-eq-ok (transpose_map (sha "executable_sha256") req.executable_sha256) _ h12 in
      let (prompt, e14, h14) = >>=-eq-ok (sha "prompt_sha256" req.prompt_sha256) _ h13 in
      let (input, e15, h15) =
        >>=-eq-ok (non_negative "input_token_count" req.input_token_count) _ h14 in
      let (output, e16, h16) =
        >>=-eq-ok (non_negative "output_token_count" req.output_token_count) _ h15 in
      let (prefill, e17, h17) =
        >>=-eq-ok (non_negative_f64 x "prefill_tokens_per_sec" req.prefill_tokens_per_sec) _ h16 in
      let (decode, e18, h18) =
        >>=-eq-ok
          (transpose_map (non_negative_f64 x "decode_tokens_per_sec") req.decode_tokens_per_sec) _
          h17 in
      subst (IsBuilt n req) (ok_inj h18) (record {
        named = platform;
        platform = e1;
        device_class = e2;
        exit_status = e3;
        correctness_result = e4;
        repetition = e5;
        command_args = e6;
        input_parameters = e8;
        env_vars = e9;
        host = e12;
        executable_sha256 = e13;
        prompt_sha256 = e14;
        input_token_count = e15;
        output_token_count = e16;
        prefill_tokens_per_sec = e17;
        decode_tokens_per_sec = e18;
        passed_on = record {
          id = refl;
          started_at = refl;
          finished_at = refl;
          command_line = refl;
          env_allowlist_version = refl;
          collector_version = refl;
          device_serial = refl;
          device_model = refl;
          git_commit_sha = refl;
          git_dirty = refl;
          git_branch = refl;
          git_commit_timestamp = refl;
          git_commit_subject = refl;
          error_summary = refl;
          output_preview = refl;
        };
      })
