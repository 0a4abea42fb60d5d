-- ===== src/Runs/Filter.antt =====
-- src/runs.rs, `RunListFilter`: the conditions that a filter adds to the query of the list.
use executorch_bencher.Prelude.{
  ℤ, pos, String, Bool, true, false, Option, none, some, List, [], ◌∷◌,
}
use mathlib.Core.Option
use executorch_bencher.Domain.{
  Platform, platform_as_str, DeviceClass, device_class_as_str, ExitStatus, exit_status_as_str,
  CorrectnessResult, correctness_as_str, Sha256Hex,
}
use executorch_bencher.Externals.{Externals}

pub record RunListFilter (x : Externals) : Type 0 where
  pub platform : Option Platform
  pub device_class : Option DeviceClass
  pub device_serial : Option String
  pub model_asset_id : Option (Externals.Uuid x)
  pub git_commit_sha : Option String
  pub git_branch : Option String
  pub git_dirty : Option Bool
  pub sumd_driver_version : Option String
  pub bsp_version : Option String
  pub gpu_clock_mhz : Option ℤ
  pub mif_clock_mhz : Option ℤ
  pub int_clock_mhz : Option ℤ
  pub host_accelerator : Option String
  pub prompt_sha256 : Option Sha256Hex
  pub exit_status : Option ExitStatus
  pub correctness_result : Option CorrectnessResult

-- A bound value.
pub data Value : Type 0 where
  text : String → Value
  integer : ℤ → Value

-- `" AND r.{column} = "` with its value
abbrev pub Clause : Type 0
Clause = String × Value

-- `if let Some(v) = ... { qb.push(..).push_bind(..) }`, one after another
unfoldable pub push_set : List (String × Option Value) → List Clause
push_set [] = []
push_set ((column, none) ∷ rest) = push_set rest
push_set ((column, some v) ∷ rest) = (column, v) ∷ push_set rest

-- `v as i64`
abbrev pub as_integer : Bool → ℤ
as_integer true = pos 1
as_integer false = pos 0

module _ {x : Externals} where
  open x use {uuid_to_string}

  abbrev pub fields : RunListFilter x → List (String × Option Value)
  fields f =
      ("platform", Option.map (λ v. text (platform_as_str v)) f.platform)
      ∷ ("device_class", Option.map (λ v. text (device_class_as_str v)) f.device_class)
      ∷ ("device_serial", Option.map text f.device_serial)
      ∷ ("model_asset_id", Option.map (λ v. text (uuid_to_string v)) f.model_asset_id)
      ∷ ("git_commit_sha", Option.map text f.git_commit_sha)
      ∷ ("git_branch", Option.map text f.git_branch)
      ∷ ("git_dirty", Option.map (λ v. integer (as_integer v)) f.git_dirty)
      ∷ ("sumd_driver_version", Option.map text f.sumd_driver_version)
      ∷ ("bsp_version", Option.map text f.bsp_version)
      ∷ ("gpu_clock_mhz", Option.map integer f.gpu_clock_mhz)
      ∷ ("mif_clock_mhz", Option.map integer f.mif_clock_mhz)
      ∷ ("int_clock_mhz", Option.map integer f.int_clock_mhz)
      ∷ ("host_accelerator", Option.map text f.host_accelerator)
      ∷ ("prompt_sha256", Option.map (λ v. text (Sha256Hex.text v)) f.prompt_sha256)
      ∷ ("exit_status", Option.map (λ v. text (exit_status_as_str v)) f.exit_status)
      ∷ ("correctness_result", Option.map (λ v. text (correctness_as_str v)) f.correctness_result)
      ∷ []

  unfoldable pub push_where_clauses : RunListFilter x → List Clause
  unfolding push_set
  push_where_clauses f = push_set (fields f)
