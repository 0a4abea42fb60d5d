-- ===== src/Models/Handlers.antt =====
-- src/models_api.rs: the handlers.
use executorch_bencher.Prelude.{
  ℤ, String, Bool, Option, none, some, List, [], ◌∷◌, map, Result, ok, err,
}
use executorch_bencher.ApiError.{
  ApiError, plain, rejected, of_registry, of_value, invalid_request, invalid_field, internal_error,
  not_found, not_implemented,
}
use executorch_bencher.Artifacts.Handlers.{Reply, success, failure}
use executorch_bencher.ArtifactStore.Machine.{Hasher}
use executorch_bencher.Domain.{InvalidValue, Sha256Hex, sha256_try_from}
use executorch_bencher.Events.{Event, model_registered, EventBus, publish}
use executorch_bencher.Externals.{Externals}
use executorch_bencher.ModelRegistry.{
  ModelStorageMode, external, managed, ModelRegistryError, io, db, not_a_regular_file, invalid_mode,
  invalid_id, disappeared, vanished, no_matching_row, no_external_path, ModelAsset, ModelRow,
  get_model_asset, find_by_sha256, list_model_assets,
}
use executorch_bencher.ModelRegistry.Registry.{Files, ModelsTable}
use executorch_bencher.ModelRegistry.Storage.{register, verify_full}
use executorch_bencher.Models.Paths.{validate_register_path}
use executorch_bencher.Sqlx.{SqlxError}

unfoldable pub registry_error_response : ModelRegistryError → ApiError
registry_error_response (not_a_regular_file path) =
    invalid_request (rejected "not a regular file: " path)
registry_error_response (io e) = internal_error (plain "internal storage error")
registry_error_response (db e) = internal_error (plain "internal storage error")
registry_error_response (invalid_mode e) = invalid_request (of_registry (invalid_mode e))
registry_error_response (invalid_id e) = invalid_request (of_registry (invalid_id e))
registry_error_response disappeared = invalid_request (of_registry disappeared)
registry_error_response vanished = invalid_request (of_registry vanished)
registry_error_response no_matching_row = invalid_request (of_registry no_matching_row)
registry_error_response no_external_path = invalid_request (of_registry no_external_path)

pub record ModelAssetResponse (x : Externals) : Type 0 where
  pub id : Externals.Uuid x
  pub sha256 : String
  pub original_name : String
  pub size_bytes : ℤ
  pub model_format : String
  pub storage_mode : ModelStorageMode
  pub external_path : Option String
  pub registered_at : Externals.DateTime x
  pub last_verified_at : Option (Externals.DateTime x)
  pub available : Bool

-- The part of `AppState` that registering changes.
pub record App {x : Externals} (t : ModelsTable x) : Type 0 where
  pub db : ModelsTable.Db t
  pub events : EventBus (Event x)

module _ {x : Externals} where
  unfoldable pub from_asset : ModelAsset x → ModelAssetResponse x
  from_asset asset = record {
    id = asset.id;
    sha256 = asset.sha256;
    original_name = asset.original_name;
    size_bytes = asset.size_bytes;
    model_format = asset.model_format;
    storage_mode = asset.storage_mode;
    external_path = asset.external_path;
    registered_at = asset.registered_at;
    last_verified_at = asset.last_verified_at;
    available = asset.available;
  }

module _ {x : Externals} (h : Hasher) (t : ModelsTable x) (files : Files x) where
  open x use {Uuid, DateTime}
  open t use {Db, select_id, select_sha256}

  -- `match ExternalModelStorage.register(..)`
  unfoldable pub after_register :
      EventBus (Event x)
      → Result ModelRegistryError (ModelAsset x) × Db
      → Reply (ModelAssetResponse x) × App t
  unfolding registry_error_response from_asset
  after_register events (err e, s) =
      (failure (registry_error_response e), record { db = s; events = events })
  after_register events (ok asset, s) = (
    success (from_asset asset),
    record {
      db = s;
      events =
          (publish events (
            model_registered (record {
              id = asset.id;
              original_name = asset.original_name;
              sha256 = asset.sha256;
            }))).0;
    },
  )

  -- From the outcome of `validate_register_path` on.
  unfoldable pub register_path :
      Uuid → DateTime → Result ApiError String → App t → Reply (ModelAssetResponse x) × App t
  unfolding after_register register
  register_path id now (err e) app = (failure e, app)
  register_path id now (ok path) app =
      after_register app.events (register h t files id now path app.db)

  unfoldable pub register_model :
      (canonicalize : String → Option String) (is_file : String → Bool)
      → List String
      → Uuid
      → DateTime
      → String
      → App t
      → Reply (ModelAssetResponse x) × App t
  unfolding register_path validate_register_path
  register_model canonicalize is_file roots id now raw app =
      register_path id now (validate_register_path canonicalize is_file roots raw) app

  abbrev to_list : Option (ModelAsset x) → List (ModelAsset x)
  to_list none = []
  to_list (some asset) = asset ∷ []

  unfoldable pub list_reply :
      Result ModelRegistryError (List (ModelAsset x)) → Reply (List (ModelAssetResponse x))
  unfolding from_asset registry_error_response
  list_reply (err e) = failure (registry_error_response e)
  list_reply (ok assets) = success (map from_asset assets)

  unfoldable pub found_list :
      Result ModelRegistryError (Option (ModelAsset x)) → Reply (List (ModelAssetResponse x))
  unfolding list_reply
  found_list (err e) = list_reply (err e)
  found_list (ok asset) = list_reply (ok (to_list asset))

  unfoldable pub list_by_digest :
      Result InvalidValue Sha256Hex → Db → Reply (List (ModelAssetResponse x))
  unfolding found_list find_by_sha256
  list_by_digest (err e) s = failure (invalid_field "sha256" (of_value e))
  list_by_digest (ok sha256) s = found_list (find_by_sha256 x (select_sha256 s) sha256.text)

  -- `select_all` is the listing query.
  unfoldable pub list_models :
      (Db → Result SqlxError (List (ModelRow x)))
      → Option String
      → Db
      → Reply (List (ModelAssetResponse x))
  unfolding list_by_digest list_reply list_model_assets sha256_try_from
  list_models select_all (some raw) s = list_by_digest (sha256_try_from raw) s
  list_models select_all none s = list_reply (list_model_assets x (select_all s))

  unfoldable pub asset_reply :
      Result ModelRegistryError (Option (ModelAsset x)) → Reply (ModelAssetResponse x)
  unfolding from_asset registry_error_response
  asset_reply (ok (some asset)) = success (from_asset asset)
  asset_reply (ok none) = failure (not_found (plain "model asset not found"))
  asset_reply (err e) = failure (registry_error_response e)

  unfoldable pub get_model : Uuid → Db → Reply (ModelAssetResponse x)
  unfolding asset_reply get_model_asset
  get_model id s = asset_reply (get_model_asset x (select_id s) id)

  unfoldable pub after_verify :
      Result ModelRegistryError (ModelAsset x) × Db → Reply (ModelAssetResponse x) × Db
  unfolding from_asset registry_error_response
  after_verify (ok verified, s) = (success (from_asset verified), s)
  after_verify (err e, s) = (failure (registry_error_response e), s)

  unfoldable pub verify_mode :
      DateTime → ModelAsset x → ModelStorageMode → Db → Reply (ModelAssetResponse x) × Db
  unfolding after_verify verify_full
  verify_mode now asset managed s = (
    failure (not_implemented (plain "verification for managed-mode models is not yet implemented")),
    s,
  )
  verify_mode now asset external s = after_verify (verify_full h t files now asset s)

  unfoldable pub verify_found :
      DateTime
      → Result ModelRegistryError (Option (ModelAsset x))
      → Db
      → Reply (ModelAssetResponse x) × Db
  unfolding registry_error_response verify_mode
  verify_found now (ok none) s = (failure (not_found (plain "model asset not found")), s)
  verify_found now (err e) s = (failure (registry_error_response e), s)
  verify_found now (ok (some asset)) s = verify_mode now asset asset.storage_mode s

  unfoldable pub verify_model : DateTime → Uuid → Db → Reply (ModelAssetResponse x) × Db
  unfolding verify_found get_model_asset
  verify_model now id s = verify_found now (get_model_asset x (select_id s) id) s
