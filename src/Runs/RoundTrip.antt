-- ===== src/Runs/RoundTrip.antt =====
-- A run's row is read back as the run.
use mathlib.Core.Option
use executorch_bencher.Prelude.{
  String, Bool, true, false, ◌≡◌, refl, Option, none, some, ok, flag, is_nonzero, transpose_map,
}
use executorch_bencher.Domain.{Sha256Hex, is_sha256, sha256_try_from}
use executorch_bencher.Domain.Digest.{sha256_try_from_of_is_sha256}
use executorch_bencher.Domain.Names.{
  exit_status_try_from-as_str, correctness_try_from-as_str, device_class_try_from-as_str,
}
use executorch_bencher.Externals.{Externals}
use executorch_bencher.Host.RoundTrip.{host_state_from_row-host_columns, device_class-host_columns}
use executorch_bencher.Runs.Row.{NewRun, Run, to_row, row_to_run, parse_uuid, parse_optional_uuid}

-- A digest's private text has passed the check.
abbrev pub IsDigest : Sha256Hex → Type 0
IsDigest d = is_sha256 d.text ≡ true

abbrev pub IsDigest? : Option Sha256Hex → Type 0
IsDigest? none = Unit
IsDigest? (some d) = IsDigest d

digest_again : (d : Sha256Hex) → IsDigest d → sha256_try_from d.text ≡ ok d
digest_again d h = sha256_try_from_of_is_sha256 d.text h

digest?_again :
    (d : Option Sha256Hex)
    → IsDigest? d
    → transpose_map sha256_try_from (Option.map (λ s. s.text) d) ≡ ok d
digest?_again none h = refl
digest?_again (some d) h = rw (digest_again d h, transpose_map)

flag_again : (b : Bool) → is_nonzero (flag b) ≡ b
flag_again true = refl
flag_again false = refl

module _ (x : Externals) where
  open x use {Uuid, uuid_to_string, uuid_parse_str-to_string}

  parse_uuid-to_string : (f : String) (u : Uuid) → parse_uuid x f (uuid_to_string u) ≡ ok u
  unfolding parse_uuid
  parse_uuid-to_string f u = rw uuid_parse_str-to_string

  parse_optional_uuid-to_string :
      (f : String) (u : Option Uuid) → parse_optional_uuid x f (Option.map uuid_to_string u) ≡ ok u
  unfolding parse_optional_uuid
  parse_optional_uuid-to_string f none = refl
  parse_optional_uuid-to_string f (some u) = rw (parse_uuid-to_string f u, transpose_map)

module _ {x : Externals} where
  -- The run as it is read: the same fields.
  unfoldable pub as_run : NewRun x → Run x
  as_run r = record {
    id = r.id;
    started_at = r.started_at;
    finished_at = r.finished_at;
    repetition = r.repetition;
    command_args_json = r.command_args_json;
    command_line = r.command_line;
    input_parameters_json = r.input_parameters_json;
    env_vars_json = r.env_vars_json;
    env_allowlist_version = r.env_allowlist_version;
    collector_version = r.collector_version;
    device_class = r.device_class;
    device_serial = r.device_serial;
    device_model = r.device_model;
    host = r.host;
    git_commit_sha = r.git_commit_sha;
    git_dirty = r.git_dirty;
    git_branch = r.git_branch;
    git_commit_timestamp = r.git_commit_timestamp;
    git_commit_subject = r.git_commit_subject;
    executable_sha256 = r.executable_sha256;
    model_asset_id = r.model_asset_id;
    prompt_sha256 = r.prompt_sha256;
    input_token_count = r.input_token_count;
    output_token_count = r.output_token_count;
    prefill_tokens_per_sec = r.prefill_tokens_per_sec;
    decode_tokens_per_sec = r.decode_tokens_per_sec;
    exit_status = r.exit_status;
    correctness_result = r.correctness_result;
    input_artifact_id = r.input_artifact_id;
    output_artifact_id = r.output_artifact_id;
    output_preview = r.output_preview;
    stdout_artifact_id = r.stdout_artifact_id;
    stderr_artifact_id = r.stderr_artifact_id;
    crash_artifact_id = r.crash_artifact_id;
    error_summary = r.error_summary;
  }

  -- The row of any run, whatever its optional fields hold, is read back as that run, field by
  -- field, if its digests are ones that passed the check.
  pub row_to_run-to_row :
      (r : NewRun x)
      → IsDigest r.prompt_sha256
      → IsDigest? r.executable_sha256
      → row_to_run x (to_row r) ≡ ok (as_run r)
  unfolding row_to_run to_row as_run
  row_to_run-to_row r prompt executable = simp (
    host_state_from_row-host_columns,
    device_class-host_columns,
    parse_uuid-to_string,
    parse_optional_uuid-to_string,
    digest_again r.prompt_sha256 prompt,
    digest?_again r.executable_sha256 executable,
    device_class_try_from-as_str,
    exit_status_try_from-as_str,
    correctness_try_from-as_str,
    flag_again,
  )
