-- ===== src/RunsApi/Echo.antt =====
-- What is posted as a run is what `get_run_handler` shows of it afterwards.
use mathlib.Core.Option
use executorch_bencher.Prelude.{
  ℕ, String, ◌≡◌, refl, subst, some, ok, map_err-eq-ok, sym, ap, ◌∙◌, ◌⊎◌, inl, inr,
}
use executorch_bencher.ApiError.{plain, internal_error}
use executorch_bencher.ArtifactStore.Machine.{Machine}
use executorch_bencher.Artifacts.Handlers.{Reply, success, failure}
use executorch_bencher.Domain.{Sha256Hex}
use executorch_bencher.Domain.Names.{
  platform_as_str-try_from, device_class_as_str-try_from, exit_status_as_str-try_from,
  correctness_as_str-try_from,
}
use executorch_bencher.Externals.{Externals}
use executorch_bencher.Host.{thermal_throttling}
use executorch_bencher.Host.Columns.{host_columns}
use executorch_bencher.Host.RoundTrip.{optional_flag-flag}
use executorch_bencher.HostRules.Accepts.{host_columns-host_state}
use executorch_bencher.Runs.{get_run, insert_run}
use executorch_bencher.Runs.Row.{NewRun, Run}
use executorch_bencher.Runs.RoundTrip.{as_run}
use executorch_bencher.Runs.Store.{Failed, get_run-insert_run}
use executorch_bencher.Runs.Table.{RunsTable}
use executorch_bencher.RunsApi.Detail.{
  RunResponse, stored_json, build_run_response, run_reply, get_run_handler,
}
use executorch_bencher.RunsWrite.Convert.{
  CreateRunRequest, to_new_run, quote, sha, non_negative_f64,
}
use executorch_bencher.RunsWrite.Handler.{Body, parsed, created, Pool, App, create_run}
use executorch_bencher.RunsWrite.Built.{IsBuilt, to_new_run-IsBuilt}
use executorch_bencher.RunsWrite.Validated.{IsValidated, to_new_run-IsValidated}
use executorch_bencher.RunsWrite.Answers.{create_run-created}
use executorch_bencher.RunsWrite.Kept.{
  IsReadBack, non_negative-same, sha-same, transpose_map-same, validate_json-same,
  validate_env_vars-same, non_negative_f64-same,
}
use executorch_bencher.RunsApi.Shown.{
  described, shown_host, described-input, platform-host_state, IsEcho,
}

-- Both JSON objects of the request are read back as they are written.
abbrev pub AreReadBack : {x : Externals} → CreateRunRequest x → Type 0
AreReadBack {x} req = IsReadBack x req.input_parameters × IsReadBack x req.env_vars

module _ (x : Externals) where
  open x use {Json, json_display}

  stored_json-display :
      (json_string : String → Json) (v : Json) (s : String)
      → IsReadBack x v
      → s ≡ json_display v
      → stored_json x json_string s ≡ v
  unfolding stored_json
  stored_json-display json_string v s back h = rw (h, back)

abbrev pub unreadable_run : {A : Type 0} → Reply A
unreadable_run = failure (internal_error (plain "internal error reading run"))

unparsed :
    {x : Externals} {q r : CreateRunRequest x} → ◌≡◌ {A = Body x} (parsed q) (parsed r) → r ≡ q
unparsed h = cc

module _ {x : Externals} (p : Pool x) (m : Machine) (artifact_root : String)
    (json_string : String → Externals.Json x) (db : RunsTable.Db (Pool.runs p))
    (s : Machine.State m) where
  open x use {json_display}

  shown : Run x → RunResponse x
  shown = build_run_response p m artifact_root json_string db s

  shown_host-columns :
      (run : NewRun x)
      → shown_host (shown (as_run run)) ≡ described (host_columns run.host run.device_class)
  unfolding shown shown_host described host_columns build_run_response as_run
  shown_host-columns run =
      rw (optional_flag-flag (thermal_throttling run.host), optional_flag-flag) refl

  build-IsEcho :
      (n : ℕ) (req : CreateRunRequest x) (run : NewRun x)
      → AreReadBack req
      → IsBuilt n req run
      → IsEcho n req (shown (as_run run))
  unfolding shown build_run_response as_run
  build-IsEcho n req run (inputs, env) b = record {
    id = b.passed_on.id;
    started_at = b.passed_on.started_at;
    finished_at = b.passed_on.finished_at;
    repetition = non_negative-same "repetition" _ _ b.repetition;
    command_line = b.passed_on.command_line;
    env_allowlist_version = b.passed_on.env_allowlist_version;
    collector_version = b.passed_on.collector_version;
    input_parameters =
        stored_json-display x json_string _ _ inputs
          (validate_json-same x "input_parameters" _ _ inputs b.input_parameters);
    env_vars =
        stored_json-display x json_string _ _ env
          (validate_env_vars-same x "env_vars" _ _ env b.env_vars);
    platform =
        platform-host_state _ b.named run.device_class run.host b.host
        ∙ platform_as_str-try_from _ _ (map_err-eq-ok (quote "platform") _ b.platform);
    device_class =
        device_class_as_str-try_from _ _ (map_err-eq-ok (quote "device_class") _ b.device_class);
    device_serial = b.passed_on.device_serial;
    device_model = b.passed_on.device_model;
    host =
        shown_host-columns run
        ∙ ap described (host_columns-host_state _ b.named run.device_class run.host b.host)
        ∙ described-input _ b.named run.device_class;
    git_commit_sha = b.passed_on.git_commit_sha;
    git_dirty = b.passed_on.git_dirty;
    git_branch = b.passed_on.git_branch;
    git_commit_timestamp = b.passed_on.git_commit_timestamp;
    git_commit_subject = b.passed_on.git_commit_subject;
    executable_sha256 =
        transpose_map-same Sha256Hex.text (sha "executable_sha256") (sha-same "executable_sha256")
          req.executable_sha256 run.executable_sha256 b.executable_sha256;
    prompt_sha256 = sha-same "prompt_sha256" _ _ b.prompt_sha256;
    input_token_count = non_negative-same "input_token_count" _ _ b.input_token_count;
    output_token_count = non_negative-same "output_token_count" _ _ b.output_token_count;
    prefill_tokens_per_sec =
        non_negative_f64-same x "prefill_tokens_per_sec" _ _ b.prefill_tokens_per_sec;
    decode_tokens_per_sec =
        ap (λ f. f run.decode_tokens_per_sec) (sym Option.map-id)
        ∙ transpose_map-same (λ v. v) (non_negative_f64 x "decode_tokens_per_sec")
            (non_negative_f64-same x "decode_tokens_per_sec") req.decode_tokens_per_sec
            run.decode_tokens_per_sec b.decode_tokens_per_sec;
    exit_status =
        exit_status_as_str-try_from _ _ (map_err-eq-ok (quote "exit_status") _ b.exit_status);
    correctness_result =
        correctness_as_str-try_from _ _
          (map_err-eq-ok (quote "correctness_result") _ b.correctness_result);
    output_preview = b.passed_on.output_preview;
    error_summary = b.passed_on.error_summary;
  }

  unreadable-or-shown :
      (run : NewRun x)
      → Failed (get_run (Pool.runs p) db run.id)
        ⊎ (get_run (Pool.runs p) db run.id ≡ ok (some (as_run run)))
      → (get_run_handler p m artifact_root json_string db s run.id ≡ unreadable_run)
        ⊎ (get_run_handler p m artifact_root json_string db s run.id ≡ success (shown (as_run run)))
  unfolding get_run_handler run_reply shown internal_error
  unreadable-or-shown run (inl (e, h)) = inl (rw h)
  unreadable-or-shown run (inr h) = inr (rw h)

module _ {x : Externals} (p : Pool x) (m : Machine) (artifact_root : String)
    (json_string : String → Externals.Json x) where
  open p use {runs}

  -- Either the database could not be read, or the response repeats the request.
  abbrev pub IsShown : ℕ → CreateRunRequest x → Reply (RunResponse x) → Type 0
  IsShown n req reply =
      (reply ≡ unreadable_run) ⊎ ((r : RunResponse x) × (reply ≡ success r) × IsEcho n req r)

  stored-IsShown :
      (n : ℕ) (db : RunsTable.Db runs) (req : CreateRunRequest x) (run : NewRun x)
      (s : Machine.State m)
      → AreReadBack req
      → IsBuilt n req run
      → IsValidated run
      → (insert_run runs db run).0 ≡ ok tt
      → IsShown n req
          (get_run_handler p m artifact_root json_string (insert_run runs db run).1 s run.id)
  stored-IsShown n db req run s back built valid inserted =
      elim (unreadable-or-shown p m artifact_root json_string (insert_run runs db run).1 s run
        (get_run-insert_run runs db run valid.checked valid.prompt valid.executable inserted)) [
          | inl broken ↦ inl broken
          | inr found ↦
              inr (_, found, build-IsEcho p m artifact_root json_string _ s n req run back built)
        ]

  -- After `create_run` has answered 201 to a request whose JSON objects are read back as they are
  -- written, `get_run_handler` at the request's ID, whatever the files then are, either answers that
  -- the database could not be read, or answers a response that repeats the request: times,
  -- repetition, input parameters, environment, device, host, commit, digests, token counts, rates
  -- and outcome are the ones posted, and the output preview is the first `n` characters of the one
  -- posted.
  pub get_run_handler-create_run :
      (n : ℕ) (app : App p) (req : CreateRunRequest x) (r : Run x) (s : Machine.State m)
      → AreReadBack req
      → (create_run p n app (parsed req)).0 ≡ created r
      → IsShown n req (
          get_run_handler p m artifact_root json_string
            (create_run p n app (parsed req)).1.db
            s
            req.id)
  get_run_handler-create_run n app req r s back answered =
      let (h, same) = create_run-created p n app (parsed req) r answered in
      let converted : to_new_run x req n ≡ ok h.run =
        subst (λ q. to_new_run x q n ≡ ok h.run) (unparsed h.is_parsed) h.converted in
      let built = to_new_run-IsBuilt req n h.run converted in
      let after : (create_run p n app (parsed req)).1.db ≡ (insert_run runs app.db h.run).1 =
        ap (λ (a : App p). a.db) h.announced in
      subst (λ db. IsShown n req (get_run_handler p m artifact_root json_string db s req.id))
        (sym after)
        (subst
          (λ id.
            IsShown n req
              (get_run_handler p m artifact_root json_string (insert_run runs app.db h.run).1 s id))
          built.passed_on.id
          (stored-IsShown n app.db req h.run s back built
            (to_new_run-IsValidated req n h.run converted) h.inserted))
