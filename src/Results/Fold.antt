-- ===== src/Results/Fold.antt =====
-- src/results.rs, `results`: the selected rows, the configuration key, and the fold over the rows.
use mathlib.Core.Option
use executorch_bencher.Prelude.{
  ℕ, ◌+◌, ◌%◌, ◌^◌, ℤ, pos, String, Bool, true, false, Option, none, some, List, [], ◌∷◌, Result,
  ok, ◌>>=◌, ok_or, map_err, is_nonzero, ◌==◌, if◌then◌else◌,
}
use executorch_bencher.Domain.{
  Platform, platform_try_from, DeviceClass, device_class_try_from, ExitStatus, succeeded,
  exit_status_try_from, CorrectnessResult, failed, correctness_try_from,
}
use executorch_bencher.Externals.{Externals}
use executorch_bencher.Host.Columns.{RowError, invalid_stored, invalid_stored_uuid}

module _ (x : Externals) where
  open x use {Uuid, DateTime, F64}

  pub record ConfigKey : Type 0 where
    pub platform : Platform
    pub device_class : DeviceClass
    pub device_serial : String
    pub model_asset_id : Uuid
    pub git_commit_sha : String
    pub git_dirty : Bool
    pub sumd_driver_version : Option String
    pub bsp_version : Option String
    pub gpu_clock_mhz : Option ℤ
    pub mif_clock_mhz : Option ℤ
    pub int_clock_mhz : Option ℤ
    pub host_accelerator : Option String
    pub prompt_sha256 : String

  -- The columns of the query.
  pub record Selected : Type 0 where
    pub platform : String
    pub device_class : String
    pub device_serial : String
    pub device_model : Option String
    pub model_asset_id : String
    pub git_commit_sha : String
    pub git_dirty : ℤ
    pub sumd_driver_version : Option String
    pub bsp_version : Option String
    pub gpu_clock_mhz : Option ℤ
    pub mif_clock_mhz : Option ℤ
    pub int_clock_mhz : Option ℤ
    pub host_accelerator : Option String
    pub prompt_sha256 : String
    pub git_branch : Option String
    pub git_commit_timestamp : Option DateTime
    pub git_commit_subject : Option String
    pub input_token_count : ℤ
    pub started_at : DateTime
    pub exit_status : String
    pub correctness_result : String
    pub thermal_throttling : Option ℤ
    pub prefill_tokens_per_sec : F64
    pub decode_tokens_per_sec : Option F64
    pub model_original_name : Option String

  -- A row with its parsed columns.
  pub record Sample : Type 0 where
    pub key : ConfigKey
    pub exit_status : ExitStatus
    pub correctness : CorrectnessResult
    pub throttled : Bool
    pub row : Selected

  pub record Accumulator : Type 0 where
    pub device_model : Option String
    pub model_original_name : String
    pub git_branch : Option String
    pub git_commit_timestamp : Option DateTime
    pub git_commit_subject : Option String
    pub input_token_count : ℤ
    pub prefill : List F64
    pub decode : List F64
    pub total_runs : ℕ
    pub not_succeeded : ℕ
    pub correctness_failed : ℕ
    pub throttled : ℕ
    pub first_started_at : Option DateTime
    pub last_started_at : Option DateTime

-- `== Some(1)`
abbrev pub is_one : Option ℤ → Bool
is_one (some (pos n)) = n == 1
is_one _ = false

-- `+= 1` on a `u64`
unfoldable pub bump : ℕ → ℕ
bump n = (n + 1) % 2 ^ 64

abbrev pub first_of {ℓ} : {A : Type ℓ} → Option A → Option A → Option A
first_of none later = later
first_of (some a) later = some a

abbrev pub push {ℓ} : {A : Type ℓ} → List A → A → List A
push [] a = a ∷ []
push (b ∷ rest) a = b ∷ push rest a

abbrev pub push_some {ℓ} : {A : Type ℓ} → List A → Option A → List A
push_some l none = l
push_some l (some a) = push l a

abbrev pub is_succeeded : ExitStatus → Bool
is_succeeded succeeded = true
is_succeeded _ = false

abbrev pub is_failed : CorrectnessResult → Bool
is_failed failed = true
is_failed _ = false

module _ {x : Externals} where
  unfoldable pub parse_sample : Selected x → Result RowError (Sample x)
  parse_sample row = do
    platform ← map_err invalid_stored (platform_try_from row.platform)
    device_class ← map_err invalid_stored (device_class_try_from row.device_class)
    model_asset_id ←
        ok_or (invalid_stored_uuid "model_asset_id") (Externals.uuid_parse_str x row.model_asset_id)
    exit_status ← map_err invalid_stored (exit_status_try_from row.exit_status)
    correctness ← map_err invalid_stored (correctness_try_from row.correctness_result)
    ok (record {
      key = record {
        platform = platform;
        device_class = device_class;
        device_serial = row.device_serial;
        model_asset_id = model_asset_id;
        git_commit_sha = row.git_commit_sha;
        git_dirty = is_nonzero row.git_dirty;
        sumd_driver_version = row.sumd_driver_version;
        bsp_version = row.bsp_version;
        gpu_clock_mhz = row.gpu_clock_mhz;
        mif_clock_mhz = row.mif_clock_mhz;
        int_clock_mhz = row.int_clock_mhz;
        host_accelerator = row.host_accelerator;
        prompt_sha256 = row.prompt_sha256;
      };
      exit_status = exit_status;
      correctness = correctness;
      throttled = is_one row.thermal_throttling;
      row = row;
    })

  -- `Accumulator::default()`
  abbrev pub new_accumulator : Accumulator x
  new_accumulator = record {
    device_model = none;
    model_original_name = "";
    git_branch = none;
    git_commit_timestamp = none;
    git_commit_subject = none;
    input_token_count = pos 0;
    prefill = [];
    decode = [];
    total_runs = 0;
    not_succeeded = 0;
    correctness_failed = 0;
    throttled = 0;
    first_started_at = none;
    last_started_at = none;
  }

  -- What one row adds to its group.
  unfoldable pub accumulate : Accumulator x → Sample x → Accumulator x
  accumulate acc s =
      let won = is_succeeded s.exit_status in
      record {
        device_model = first_of acc.device_model s.row.device_model;
        model_original_name =
            if acc.total_runs == 0
            then Option.get_or s.row.model_original_name ""
            else acc.model_original_name;
        git_branch = first_of acc.git_branch s.row.git_branch;
        git_commit_timestamp = first_of acc.git_commit_timestamp s.row.git_commit_timestamp;
        git_commit_subject = first_of acc.git_commit_subject s.row.git_commit_subject;
        input_token_count =
            if acc.total_runs == 0 then s.row.input_token_count else acc.input_token_count;
        prefill = if won then push acc.prefill s.row.prefill_tokens_per_sec else acc.prefill;
        decode = if won then push_some acc.decode s.row.decode_tokens_per_sec else acc.decode;
        total_runs = bump acc.total_runs;
        not_succeeded = if won then acc.not_succeeded else bump acc.not_succeeded;
        correctness_failed =
            if won
            then if is_failed s.correctness
              then bump acc.correctness_failed
              else acc.correctness_failed
            else acc.correctness_failed;
        throttled = if s.throttled then bump acc.throttled else acc.throttled;
        first_started_at = first_of acc.first_started_at (some s.row.started_at);
        last_started_at = some s.row.started_at;
      }

-- The map of the groups, whose keys are compared for equality as the derived `Eq` does.
module _ {x : Externals} (same : ConfigKey x → ConfigKey x → Bool) where
  abbrev pub Groups : Type 0
  Groups = List (ConfigKey x × Accumulator x)

  -- `groups.entry(key).or_default()`, and the row accumulated into it
  unfoldable pub add_sample : Groups → Sample x → Groups
  add_sample [] s = (s.key, accumulate new_accumulator s) ∷ []
  add_sample ((k, acc) ∷ rest) s =
      let later = add_sample rest s in
      if same k s.key then (k, accumulate acc s) ∷ rest else (k, acc) ∷ later

  -- The loop over the rows of the query.
  unfoldable pub collect : Groups → List (Selected x) → Result RowError Groups
  collect groups [] = ok groups
  collect groups (row ∷ rows) = do s ← parse_sample row; collect (add_sample groups s) rows
