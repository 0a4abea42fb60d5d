-- ===== src/ImportLog/Import.antt =====
-- src/bin/import_observer_log.rs: the loop over the records of a log.
use executorch_bencher.Prelude.{
  ℕ, zero, suc, ℤ, pos, negsuc, is_negative, int_eq, String, Bool, true, false, ◌&&◌, Option, some,
  none, List, [], ◌∷◌, Result, ok, err, is_some, if◌then◌else◌, not,
}
use executorch_bencher.Prelude.Text.{str_eq}
use executorch_bencher.Prelude.Action.{Action, pure, fail, attempt, or_err, ◌>>=◌}
use executorch_bencher.ArtifactStore.Machine.{Hasher, Machine}
use executorch_bencher.Domain.{DeviceClass, Sha256Hex}
use executorch_bencher.Externals.{Externals}
use executorch_bencher.Host.{HostState}
use executorch_bencher.ImportLog.Manifest.{
  ImportError, model_error, not_readable, hash_differs, ModelSpec, Manifest, lookup,
}
use executorch_bencher.ImportLog.Parse.{Record}
use executorch_bencher.ModelRegistry.{ModelAsset, find_by_sha256}
use executorch_bencher.ModelRegistry.Registry.{Files, ModelsTable}
use executorch_bencher.ModelRegistry.Storage.{register}
use executorch_bencher.Runs.Table.{RunsTable}

-- The files and the tables that an import changes.
pub record World {x : Externals} (m : Machine) (mt : ModelsTable x) (rt : RunsTable x)
    : Type 0 where
  pub disk : Machine.State m
  pub models : ModelsTable.Db mt
  pub runs : RunsTable.Db rt

-- What the loop knows before it starts: the parsed host, the prompt's artifact, the hashes, the
-- repetitions that were imported before, and what the machine makes up for each record.
pub record Setting (x : Externals) : Type 0 where
  pub manifest : Manifest x
  pub device_class : DeviceClass
  pub host : HostState x
  pub prompt_sha256 : Sha256Hex
  pub prompt_artifact : Externals.Uuid x
  pub prompt_path_on_host : Option String
  pub prompt_text : Option String
  pub executable_sha256 : Option Sha256Hex
  pub imported : List (String × ℤ)
  pub artifact_root : String
  pub temporary_dir : String
  pub new_id : ℕ → Externals.Uuid x
  pub now : ℕ → Externals.DateTime x
  pub now_text : ℕ → String

-- `imported.contains(..)`
unfoldable pub contains : List (String × ℤ) → String → ℤ → Bool
contains [] tag repetition = false
contains ((t, n) ∷ rest) tag repetition =
    let later = contains rest tag repetition in
    if str_eq t tag && int_eq n repetition then true else later

-- `record.rep - 1` on an `i64` above the least
unfoldable pub minus_one : ℤ → ℤ
minus_one (pos zero) = negsuc 0
minus_one (pos (suc n)) = pos n
minus_one (negsuc n) = negsuc (suc n)

pub record Counts : Type 0 where
  pub inserted : ℕ
  pub skipped_existing : ℕ
  pub skipped_tags : ℕ

-- What the loop does with a record.
pub data Triage : Type 0 where
  skip_tag skip_existing : Triage
  bad_repetition : Triage
  process : ℤ → Triage

module _ {x : Externals} where
  unfoldable pub triage_repetition : Setting x → Record x → ℤ → Triage
  unfolding contains
  triage_repetition setting r repetition =
      if is_negative repetition
      then bad_repetition
      else if contains setting.imported r.tag repetition
      then skip_existing
      else process repetition

  unfoldable pub triage : Setting x → Record x → Triage
  unfolding triage_repetition lookup minus_one
  triage setting r =
      if is_some (lookup r.tag setting.manifest.skip_tags)
      then skip_tag
      else triage_repetition setting r (minus_one r.rep)

module _ {x : Externals} (h : Hasher) (m : Machine) (mt : ModelsTable x) (rt : RunsTable x)
    (files : Files x) (readable : String → Bool) where
  open x use {Uuid, DateTime, json_from_str, strings_to_string}

  abbrev pub put_disk {ℓ} :
      {E : Type 0} {A : Type ℓ}
      → World m mt rt
      → Result E A × Machine.State m
      → Result E A × World m mt rt
  put_disk w (r, s) = (r, record w { disk = s })

  abbrev pub on_disk {ℓ} :
      {E : Type 0} {A : Type ℓ} → Action E (Machine.State m) A → Action E (World m mt rt) A
  on_disk f w = put_disk w (f w.disk)

  abbrev pub put_models {ℓ} :
      {E : Type 0} {A : Type ℓ}
      → World m mt rt
      → Result E A × ModelsTable.Db mt
      → Result E A × World m mt rt
  put_models w (r, s) = (r, record w { models = s })

  abbrev pub on_models {ℓ} :
      {E : Type 0} {A : Type ℓ} → Action E (ModelsTable.Db mt) A → Action E (World m mt rt) A
  on_models f w = put_models w (f w.models)

  -- `register` and the check of its hash, or the asset that is there.
  unfoldable pub check_hash : ModelSpec → ModelAsset x → Result ImportError (ModelAsset x)
  check_hash spec asset =
      if str_eq asset.sha256 spec.sha256 then ok asset else err (hash_differs spec.path)

  unfoldable pub register_spec :
      Uuid
      → DateTime
      → String
      → ModelSpec
      → Option (ModelAsset x)
      → Action ImportError (ModelsTable.Db mt) (ModelAsset x)
  unfolding check_hash register
  register_spec id now tag spec (some asset) = pure asset
  register_spec id now tag spec none =
      if not (readable spec.path) then fail (not_readable spec.path) else (do
        asset ← or_err (model_error tag) (register h mt files id now spec.path)
        attempt (λ s. check_hash spec asset))

  unfoldable pub resolve_model :
      Uuid → DateTime → String → ModelSpec → Action ImportError (ModelsTable.Db mt) (ModelAsset x)
  unfolding register_spec find_by_sha256
  resolve_model id now tag spec = do
    found ←
        or_err (model_error tag) (attempt (λ s. find_by_sha256 x (mt.select_sha256 s) spec.sha256))
    register_spec id now tag spec found

  -- The models resolved so far, by their tags.
  abbrev pub Cache : Type 0
  Cache = List (String × ModelAsset x)

  unfoldable pub cached_model :
      Uuid
      → DateTime
      → String
      → ModelSpec
      → Cache
      → Option (ModelAsset x)
      → Action ImportError (ModelsTable.Db mt) (ModelAsset x × Cache)
  unfolding resolve_model
  cached_model id now tag spec cache (some asset) = pure (asset, cache)
  cached_model id now tag spec cache none = do
    asset ← resolve_model id now tag spec
    pure (asset, (tag, asset) ∷ cache)
