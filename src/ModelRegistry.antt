-- ===== src/ModelRegistry.antt =====
-- src/model_registry.rs: the records of model assets and how they are read.
pub mod Registry
pub mod Storage
pub mod Read
pub mod Verified
pub mod Verdicts
pub mod Verify
pub mod Registered
use executorch_bencher.Prelude.{
  ℤ, String, List, [], ◌∷◌, Bool, Option, Result, ok, err, ◌>>=◌, map_err, ok_or, transpose_map,
  is_nonzero, if◌then◌else◌,
}
use executorch_bencher.Prelude.Text.{str_eq}
use executorch_bencher.ArtifactStore.{IoError}
use executorch_bencher.Externals.{Externals}
use executorch_bencher.Sqlx.{SqlxError}

pub data ModelStorageMode : Type 0 where
  external managed : ModelStorageMode

unfoldable pub storage_mode_as_str : ModelStorageMode → String
storage_mode_as_str external = "external"
storage_mode_as_str managed = "managed"

-- `ModelRegistryError`; the texts of `Other` are the constructors from `invalid_mode` on.
pub data ModelRegistryError : Type 0 where
  io : IoError → ModelRegistryError
  db : SqlxError → ModelRegistryError
  not_a_regular_file : String → ModelRegistryError
  invalid_mode invalid_id : String → ModelRegistryError
  disappeared vanished no_matching_row no_external_path : ModelRegistryError

unfoldable pub storage_mode_try_from : String → Result ModelRegistryError ModelStorageMode
storage_mode_try_from value =
    if str_eq value "external"
    then ok external
    else if str_eq value "managed"
    then ok managed
    else err (invalid_mode value)

module _ (x : Externals) where
  open x use {Uuid, DateTime, uuid_to_string, uuid_parse_str}

  pub record ModelAsset : Type 0 where
    pub id : Uuid
    pub sha256 : String
    pub original_name : String
    pub size_bytes : ℤ
    pub model_format : String
    pub storage_mode : ModelStorageMode
    pub external_path : Option String
    pub relative_path : Option String
    pub file_modified_at : Option DateTime
    pub registered_at : DateTime
    pub last_verified_at : Option DateTime
    pub available : Bool

  -- A row of the `model_assets` table.
  pub record ModelRow : Type 0 where
    pub id : String
    pub sha256 : String
    pub original_name : String
    pub size_bytes : ℤ
    pub model_format : String
    pub storage_mode : String
    pub external_path : Option String
    pub relative_path : Option String
    pub file_modified_at : Option DateTime
    pub registered_at : DateTime
    pub last_verified_at : Option DateTime
    pub available : ℤ

  unfoldable pub row_to_asset : ModelRow → Result ModelRegistryError ModelAsset
  row_to_asset row = do
    id ← ok_or (invalid_id row.id) (uuid_parse_str row.id)
    storage_mode ← storage_mode_try_from row.storage_mode
    ok (record {
      id = id;
      sha256 = row.sha256;
      original_name = row.original_name;
      size_bytes = row.size_bytes;
      model_format = row.model_format;
      storage_mode = storage_mode;
      external_path = row.external_path;
      relative_path = row.relative_path;
      file_modified_at = row.file_modified_at;
      registered_at = row.registered_at;
      last_verified_at = row.last_verified_at;
      available = is_nonzero row.available;
    })

  -- The query is the database's: its answer by the text of the ID.
  unfoldable pub get_model_asset :
      (String → Result SqlxError (Option ModelRow))
      → Uuid
      → Result ModelRegistryError (Option ModelAsset)
  get_model_asset select id = do
    row ← map_err db (select (uuid_to_string id))
    transpose_map row_to_asset row

  -- The lookup by digest.
  unfoldable pub find_by_sha256 :
      (String → Result SqlxError (Option ModelRow))
      → String
      → Result ModelRegistryError (Option ModelAsset)
  find_by_sha256 select sha256 = do row ← map_err db (select sha256); transpose_map row_to_asset row

  unfoldable pub rows_to_assets : List ModelRow → Result ModelRegistryError (List ModelAsset)
  unfolding row_to_asset
  rows_to_assets [] = ok []
  rows_to_assets (row ∷ rows) = do
    asset ← row_to_asset row
    assets ← rows_to_assets rows
    ok (asset ∷ assets)

  -- The rows come in the order of their registration.
  unfoldable pub list_model_assets :
      Result SqlxError (List ModelRow) → Result ModelRegistryError (List ModelAsset)
  unfolding rows_to_assets
  list_model_assets answer = do rows ← map_err db answer; rows_to_assets rows
