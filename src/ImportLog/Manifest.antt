-- ===== src/ImportLog/Manifest.antt =====
-- src/bin/import_observer_log.rs: the manifest, and the run that a record of the log becomes.
use Prim.Native.String.{count}
use executorch_bencher.Prelude.{
  ℕ, zero, suc, ◌-◌, ℤ, pos, is_not_positive, int_eq, String, Bool, true, false, ◌&&◌, Option, some,
  none, List, [], ◌∷◌, Result, ok, map_err, ok_or, ◌>>=◌, if◌then◌else◌,
}
use executorch_bencher.Prelude.Text.{str_eq, ◌<>◌}
use executorch_bencher.ArtifactStore.{ArtifactStoreError}
use executorch_bencher.Domain.{
  InvalidValue, ExitStatus, succeeded, exit_status_try_from, Platform, DeviceClass,
}
use executorch_bencher.Externals.{Externals}
use executorch_bencher.Host.{HostState}
use executorch_bencher.HostRules.{FieldError, HostInput}
use executorch_bencher.HostRules
use executorch_bencher.ImportLog.Parse.{Observer, Record, strip_prefix}
use executorch_bencher.ModelRegistry.{ModelRegistryError}
use executorch_bencher.Runs.{RunsError}

-- The errors of an import, by the format string that makes the text.
pub data ImportError : Type 0 where
  host_error : FieldError → ImportError
  repetitions_start_at_one : String → ℤ → ImportError
  no_model_entry : String → ImportError
  no_failure_entry : String → ℤ → ℕ → ImportError
  model_error : String → ModelRegistryError → ImportError
  not_readable hash_differs : String → ImportError
  storing_stdout : ArtifactStoreError → ImportError
  observer_json : String → ImportError
  bad_epoch : ℤ → ImportError
  bad_exit_status : InvalidValue → ImportError
  no_timestamp : String → ℤ → ImportError
  bad_args : ImportError
  not_inserted : RunsError → ImportError

pub record HostSpec : Type 0 where
  pub hostname : String
  pub device_model : Option String
  pub os : Option String
  pub kernel : Option String
  pub cpu_model : Option String
  pub cpu_count : Option ℤ
  pub memory_bytes : Option ℤ
  pub accelerator : Option String
  pub accelerator_driver : Option String

pub record ModelSpec : Type 0 where
  pub path : String
  pub on_device_path : Option String
  pub sha256 : String
  pub tokenizer_path : String

module _ (x : Externals) where
  pub record FailureSpec : Type 0 where
    pub tag : String
    pub rep : ℤ
    pub exit_status : String
    pub error_summary : String
    pub started_at : Option (Externals.DateTime x)

  pub record GitSpec : Type 0 where
    pub commit_sha : String
    pub branch : Option String
    pub commit_timestamp : Option (Externals.DateTime x)
    pub commit_subject : Option String
    pub dirty : Bool

  -- The fields that the columns of a run are made of; those that go into its JSON alone are left out.
  pub record Manifest : Type 0 where
    pub collector_version : String
    pub host : HostSpec
    pub git : GitSpec
    pub prompt_token_count : Option ℤ
    pub args_template : List String
    pub executable_name : String
    pub models : List (String × ModelSpec)
    pub skip_tags : List (String × String)
    pub failures : List FailureSpec

-- `BTreeMap::get`
unfoldable pub lookup {ℓ} : {A : Type ℓ} → String → List (String × A) → Option A
lookup key [] = none
lookup key ((k, a) ∷ rest) = let found = lookup key rest in if str_eq k key then some a else found

-- `str::replace`; the first number counts the characters of a match that are still to be passed.
unfoldable pub replace_from : ℕ → String → String → String → String
unfolding strip_prefix
replace_from skip pattern by String.[] = ""
replace_from (suc skip) pattern by (String.◌∷◌ c s) = replace_from skip pattern by s
replace_from zero pattern by (String.◌∷◌ c s) =
    at_match (strip_prefix pattern (String.◌∷◌ c s)) (replace_from (count pattern - 1) pattern by s)
      (replace_from zero pattern by s)
  where
    at_match : Option String → String → String → String
    at_match none matched rest = String.◌∷◌ c rest
    at_match (some after) matched rest = by <> matched

abbrev pub replace : String → String → String → String
replace pattern by s = replace_from 0 pattern by s

unfoldable pub or_text : String → Option String → String
or_text other none = other
or_text other (some s) = s

-- One argument of the command line.
unfoldable pub fill_arg :
    ModelSpec → (prompt_path_on_host prompt_text : Option String) → String → String
unfolding replace_from or_text
fill_arg spec prompt_path prompt_text a = replace "{prompt_text}" (or_text "" prompt_text) (
    replace "{prompt_path}" (or_text "" prompt_path) (
      replace "{tokenizer}" spec.tokenizer_path (
        replace "{model_on_device}" (or_text spec.path spec.on_device_path)
          (replace "{model}" spec.path a))))

-- `args.join(" ")`
unfoldable pub join : List String → String
join [] = ""
join (a ∷ []) = a
join (a ∷ b ∷ rest) = a <> " " <> join (b ∷ rest)

module _ (x : Externals) where
  open x use {Uuid, DateTime, F64, f64_zero}

  unfoldable pub host_state : HostSpec → Platform → DeviceClass → Result ImportError (HostState x)
  host_state h platform device_class = map_err host_error (
      HostRules.host_state
        (record {
          host_os = h.os;
          host_kernel = h.kernel;
          host_cpu_model = h.cpu_model;
          host_cpu_count = h.cpu_count;
          host_memory_bytes = h.memory_bytes;
          host_accelerator = h.accelerator;
          host_accelerator_driver = h.accelerator_driver;
          device_uptime_seconds = none;
          thermal_throttling = none;
          bsp_version = none;
          sumd_driver_version = none;
          gpu_clock_mhz = none;
          mif_clock_mhz = none;
          int_clock_mhz = none;
          battery_charging = none;
          initial_temperature_celsius = none;
          max_temperature_celsius = none;
        })
        platform device_class)

  -- `failures.iter().find(|f| f.tag == record.tag && f.rep == record.rep)`
  unfoldable pub find_failure : List (FailureSpec x) → String → ℤ → Option (FailureSpec x)
  find_failure [] tag rep = none
  find_failure (f ∷ rest) tag rep =
      let found = find_failure rest tag rep in
      if str_eq f.tag tag && int_eq f.rep rep then some f else found

  -- The failure of a record without an observer line.
  unfoldable pub failure_of :
      List (FailureSpec x)
      → Record x
      → Option (Observer x)
      → Result ImportError (Option (FailureSpec x))
  unfolding find_failure
  failure_of failures r (some o) = ok none
  failure_of failures r none = do
    f ← ok_or (no_failure_entry r.tag r.rep r.line_number) (find_failure failures r.tag r.rep)
    ok (some f)

  -- The end of the last observed record of those before, which come latest first.
  unfoldable pub last_seen : List (Record x) → Option ℤ
  last_seen [] = none
  last_seen (r ∷ before) = observed r.observer (last_seen before)
    where
      observed : Option (Observer x) → Option ℤ → Option ℤ
      observed none rest = rest
      observed (some o) rest = some o.inference_end_ms

  pub record Timing : Type 0 where
    pub started_at : DateTime
    pub finished_at : Option DateTime
    pub exit_status : ExitStatus
    pub error_summary : Option String
    -- whether `started_at_estimated` is noted in the run's JSON
    pub estimated : Bool

  -- `DateTime::from_timestamp_millis` is chrono's.
  module _ (from_millis : ℤ → Option DateTime) where
    unfoldable pub epoch_ms : ℤ → Result ImportError DateTime
    epoch_ms ms = ok_or (bad_epoch ms) (from_millis ms)

    unfoldable pub failure_start :
        List (Record x) → Record x → Option DateTime → Result ImportError (DateTime × Bool)
    unfolding epoch_ms last_seen
    failure_start before r (some t) = ok (t, false)
    failure_start before r none = do
      seen ← ok_or (no_timestamp r.tag r.rep) (last_seen before)
      t ← epoch_ms seen
      ok (t, true)

    -- The branch of both being absent, which the source calls unreachable, cannot be asked for.
    unfoldable pub failed_timing :
        List (Record x) → Record x → FailureSpec x → Result ImportError Timing
    unfolding failure_start exit_status_try_from
    failed_timing before r f = do
      status ← map_err bad_exit_status (exit_status_try_from f.exit_status)
      (started, estimated) ← failure_start before r f.started_at
      ok (record {
        started_at = started;
        finished_at = none;
        exit_status = status;
        error_summary = some f.error_summary;
        estimated = estimated;
      })

    unfoldable pub observed_timing : Observer x → Result ImportError Timing
    unfolding epoch_ms
    observed_timing o = do
      started ← epoch_ms o.model_load_start_ms
      finished ← epoch_ms o.inference_end_ms
      ok (record {
        started_at = started;
        finished_at = some finished;
        exit_status = succeeded;
        error_summary = none;
        estimated = false;
      })

  pub record Measured : Type 0 where
    pub prompt_tokens : ℤ
    pub generated_tokens : ℤ
    pub prefill : F64
    pub decode : Option F64

  abbrev or_zero : Option ℤ → ℤ
  or_zero none = pos 0
  or_zero (some n) = n

  unfoldable pub measured : Option ℤ → Option (Observer x) → Measured
  measured prompt_token_count (some o) = record {
    prompt_tokens = o.prompt_tokens;
    generated_tokens = o.generated_tokens;
    prefill = o.prefill_token_per_sec;
    decode = if is_not_positive o.generated_tokens then none else o.decode_token_per_sec;
  }
  measured prompt_token_count none = record {
    prompt_tokens = or_zero prompt_token_count;
    generated_tokens = pos 0;
    prefill = f64_zero;
    decode = none;
  }
