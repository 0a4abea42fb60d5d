-- ===== src/Runs/Filtered.antt =====
-- The clauses of a filter (src/runs.rs), against the rows of the table.
use executorch_bencher.Prelude.{
  ℤ, String, ◌≡◌, ◌↔◌, Option, none, some, List, [], ◌∷◌, if◌then◌else◌,
}
use mathlib.Core.Option
use executorch_bencher.Domain.{
  platform_as_str, device_class_as_str, exit_status_as_str, correctness_as_str, Sha256Hex,
}
use executorch_bencher.Externals.{Externals}
use executorch_bencher.Prelude.Lists.{All}
use executorch_bencher.Prelude.Search.{product_iff}
use executorch_bencher.Prelude.Text.{str_eq}
use executorch_bencher.Runs.Filter.{
  RunListFilter, Value, text, integer, Clause, push_set, as_integer, fields, push_where_clauses,
}
use executorch_bencher.Runs.Row.{RunRow}

abbrev pub column : String → List (String × Option Value) → Option Value
column name [] = none
column name ((c, v) ∷ rest) = if str_eq c name then v else column name rest

-- A field that is set has this property.
abbrev pub Sets : {A : Type 0} → Option A → (A → Type 0) → Type 0
Sets none P = Unit
Sets (some a) P = P a

is_text : (s t : String) → (◌≡◌ {A = Option Value} (some (text s)) (some (text t))) ↔ (s ≡ t)
is_text s t = (λ h. cc, λ h. cc)

is_integer : (m n : ℤ) → (◌≡◌ {A = Option Value} (some (integer m)) (some (integer n))) ↔ (m ≡ n)
is_integer m n = (λ h. cc, λ h. cc)

is_optional_text :
    (o : Option String) (t : String) → (Option.map text o ≡ some (text t)) ↔ (o ≡ some t)
is_optional_text none t = (λ h. cc, λ h. cc)
is_optional_text (some s) t = (λ h. cc, λ h. cc)

is_optional_integer :
    (o : Option ℤ) (n : ℤ) → (Option.map integer o ≡ some (integer n)) ↔ (o ≡ some n)
is_optional_integer none n = (λ h. cc, λ h. cc)
is_optional_integer (some m) n = (λ h. cc, λ h. cc)

-- Every one of these.
abbrev pub Each : List (Type 0) → Type 0
Each [] = Unit
Each (A ∷ rest) = A × Each rest

infixr 4 ◌&◌
abbrev ◌&◌ : {A B C D : Type 0} → A ↔ B → C ↔ D → (A × C) ↔ (B × D)
f & g = product_iff f g

module _ {x : Externals} where
  open x use {uuid_to_string}

  -- The columns of a row that clauses can name.
  abbrev pub columns : RunRow x → List (String × Option Value)
  columns r =
      ("platform", some (text r.host.platform))
      ∷ ("device_class", some (text r.host.device_class))
      ∷ ("device_serial", some (text r.device_serial))
      ∷ ("sumd_driver_version", Option.map text r.host.sumd_driver_version)
      ∷ ("bsp_version", Option.map text r.host.bsp_version)
      ∷ ("gpu_clock_mhz", Option.map integer r.host.gpu_clock_mhz)
      ∷ ("mif_clock_mhz", Option.map integer r.host.mif_clock_mhz)
      ∷ ("int_clock_mhz", Option.map integer r.host.int_clock_mhz)
      ∷ ("host_accelerator", Option.map text r.host.host_accelerator)
      ∷ ("git_commit_sha", some (text r.git_commit_sha))
      ∷ ("git_dirty", some (integer r.git_dirty))
      ∷ ("git_branch", Option.map text r.git_branch)
      ∷ ("model_asset_id", some (text r.model_asset_id))
      ∷ ("prompt_sha256", some (text r.prompt_sha256))
      ∷ ("exit_status", some (text r.exit_status))
      ∷ ("correctness_result", some (text r.correctness_result))
      ∷ []

  -- `column = value` is true: not so if the column is NULL.
  abbrev pub Holds : RunRow x → Clause → Type 0
  Holds r (name, v) = column name (columns r) ≡ some v

  -- Every field of the filter that is set is what the row has.
  abbrev pub Matches : RunListFilter x → RunRow x → Type 0
  Matches f r = Each (
      (Sets f.platform (λ v. r.host.platform ≡ platform_as_str v))
      ∷ (Sets f.device_class (λ v. r.host.device_class ≡ device_class_as_str v))
      ∷ (Sets f.device_serial (λ v. r.device_serial ≡ v))
      ∷ (Sets f.model_asset_id (λ v. r.model_asset_id ≡ uuid_to_string v))
      ∷ (Sets f.git_commit_sha (λ v. r.git_commit_sha ≡ v))
      ∷ (Sets f.git_branch (λ v. r.git_branch ≡ some v))
      ∷ (Sets f.git_dirty (λ v. r.git_dirty ≡ as_integer v))
      ∷ (Sets f.sumd_driver_version (λ v. r.host.sumd_driver_version ≡ some v))
      ∷ (Sets f.bsp_version (λ v. r.host.bsp_version ≡ some v))
      ∷ (Sets f.gpu_clock_mhz (λ v. r.host.gpu_clock_mhz ≡ some v))
      ∷ (Sets f.mif_clock_mhz (λ v. r.host.mif_clock_mhz ≡ some v))
      ∷ (Sets f.int_clock_mhz (λ v. r.host.int_clock_mhz ≡ some v))
      ∷ (Sets f.host_accelerator (λ v. r.host.host_accelerator ≡ some v))
      ∷ (Sets f.prompt_sha256 (λ v. r.prompt_sha256 ≡ Sha256Hex.text v))
      ∷ (Sets f.exit_status (λ v. r.exit_status ≡ exit_status_as_str v))
      ∷ (Sets f.correctness_result (λ v. r.correctness_result ≡ correctness_as_str v))
      ∷ [])

  -- A clause that is pushed only if its field is set.
  abbrev HoldsSet : RunRow x → String × Option Value → Type 0
  HoldsSet r (name, none) = Unit
  HoldsSet r (name, some v) = Holds r (name, v)

  push_set-All :
      (r : RunRow x) (l : List (String × Option Value))
      → All (Holds r) (push_set l) ↔ All (HoldsSet r) l
  unfolding push_set
  push_set-All r [] = (λ h. h, λ h. h)
  push_set-All r ((name, none) ∷ rest) =
      let (f, g) = push_set-All r rest in (λ h. (tt, f h), λ h. g h.1)
  push_set-All r ((name, some v) ∷ rest) =
      let (f, g) = push_set-All r rest in (λ h. (h.0, f h.1), λ h. (h.0, g h.1))

  -- A column that is not NULL, of texts or of integers, and one that may be.
  filled :
      {A : Type 0} {P : A → Type 0} {g : A → Value} (name : String) (r : RunRow x) (o : Option A)
      → ((a : A) → Holds r (name, g a) ↔ P a)
      → HoldsSet r (name, Option.map g o) ↔ Sets o P
  filled name r none k = (λ h. h, λ h. h)
  filled name r (some a) k = k a

  fields-Matches : (f : RunListFilter x) (r : RunRow x) → All (HoldsSet r) (fields f) ↔ Matches f r
  fields-Matches f r =
      filled "platform" r f.platform (λ v. is_text r.host.platform (platform_as_str v))
      & filled "device_class" r f.device_class
          (λ v. is_text r.host.device_class (device_class_as_str v))
      & filled "device_serial" r f.device_serial (λ v. is_text r.device_serial v)
      & filled "model_asset_id" r f.model_asset_id
          (λ v. is_text r.model_asset_id (uuid_to_string v))
      & filled "git_commit_sha" r f.git_commit_sha (λ v. is_text r.git_commit_sha v)
      & filled "git_branch" r f.git_branch (λ v. is_optional_text r.git_branch v)
      & filled "git_dirty" r f.git_dirty (λ v. is_integer r.git_dirty (as_integer v))
      & filled "sumd_driver_version" r f.sumd_driver_version
          (λ v. is_optional_text r.host.sumd_driver_version v)
      & filled "bsp_version" r f.bsp_version (λ v. is_optional_text r.host.bsp_version v)
      & filled "gpu_clock_mhz" r f.gpu_clock_mhz (λ v. is_optional_integer r.host.gpu_clock_mhz v)
      & filled "mif_clock_mhz" r f.mif_clock_mhz (λ v. is_optional_integer r.host.mif_clock_mhz v)
      & filled "int_clock_mhz" r f.int_clock_mhz (λ v. is_optional_integer r.host.int_clock_mhz v)
      & filled "host_accelerator" r f.host_accelerator
          (λ v. is_optional_text r.host.host_accelerator v)
      & filled "prompt_sha256" r f.prompt_sha256 (λ v. is_text r.prompt_sha256 (Sha256Hex.text v))
      & filled "exit_status" r f.exit_status (λ v. is_text r.exit_status (exit_status_as_str v))
      & filled "correctness_result" r f.correctness_result
          (λ v. is_text r.correctness_result (correctness_as_str v))
      & (λ h. h, λ h. h)

  -- The clauses that a filter adds hold of a row exactly if the row has every value that the filter
  -- sets; a column that is NULL has none.
  pub push_where_clauses_lem :
      (f : RunListFilter x) (r : RunRow x) → All (Holds r) (push_where_clauses f) ↔ Matches f r
  unfolding push_where_clauses
  push_where_clauses_lem f r =
      let (to_fields, of_fields) = push_set-All r (fields f) in
      let (to, of) = fields-Matches f r in (λ h. to (to_fields h), λ h. of_fields (of h))
