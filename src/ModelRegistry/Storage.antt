-- ===== src/ModelRegistry/Storage.antt =====
-- src/model_registry.rs: `ExternalModelStorage` and its three operations.
use executorch_bencher.Prelude.{
  ℤ, pos, String, Bool, false, ◌&&◌, Option, some, none, int_eq, Result, ok, err, ok_or,
  if◌then◌else◌,
}
use executorch_bencher.Prelude.Action.{Action, pure, attempt, ◌>>=◌}
use executorch_bencher.Artifacts.Names.{file_name}
use executorch_bencher.ArtifactStore.{IoError}
use executorch_bencher.ArtifactStore.Machine.{Hasher}
use executorch_bencher.ArtifactStore.Store.{as_i64}
use executorch_bencher.Externals.{Externals}
use executorch_bencher.ModelRegistry.{
  ModelRegistryError, io, db, not_a_regular_file, disappeared, vanished, no_matching_row,
  no_external_path, ModelAsset, ModelRow, find_by_sha256,
}
use executorch_bencher.ModelRegistry.Registry.{
  Metadata, Files, ModelsTable, hash_file, refetch, refind, mark_unavailable,
}
use executorch_bencher.Sqlx.{SqlxError, is_unique}

module _ {x : Externals} (h : Hasher) (t : ModelsTable x) (files : Files x) where
  open x use {Uuid, DateTime, datetime_eq, uuid_to_string}
  open t use {Db, insert_row, update_content, select_sha256}

  -- `metadata.modified()?`
  unfoldable pub modified_of : Metadata x → Result ModelRegistryError DateTime
  modified_of metadata = or_io metadata.modified
    where
      or_io : Result IoError DateTime → Result ModelRegistryError DateTime
      or_io (ok time) = ok time
      or_io (err e) = err (io e)

  -- `match update_result`
  unfoldable pub after_update :
      ModelAsset x
      → Result SqlxError (Unit {0}) × Db
      → Result ModelRegistryError (ModelAsset x) × Db
  unfolding refetch mark_unavailable
  after_update asset (ok done, s) = refetch t disappeared asset.id s
  after_update asset (err e, s) =
      if is_unique e then mark_unavailable t asset s else (err (db e), s)

  unfoldable pub rehash_and_reconcile :
      DateTime → ModelAsset x → String → ℤ → DateTime → Action ModelRegistryError Db (ModelAsset x)
  unfolding hash_file after_update
  rehash_and_reconcile now asset path size_bytes modified_at = do
    sha256 ← attempt (λ s. hash_file x h files path)
    λ s.
        after_update asset
          (update_content sha256 size_bytes modified_at now (uuid_to_string asset.id) s)

  -- The metadata of a regular file.
  unfoldable pub regular : Option (Metadata x) → Option (Metadata x)
  regular none = none
  regular (some metadata) = if metadata.is_file then some metadata else none

  -- `register` on what `metadata` answers.
  unfoldable pub regular_or : String → Option (Metadata x) → Result ModelRegistryError (Metadata x)
  unfolding regular
  regular_or path metadata = ok_or (not_a_regular_file path) (regular metadata)

  unfoldable pub original_name : String → Option String → String
  original_name path none = path
  original_name path (some name) = name

  -- What the INSERT binds.
  unfoldable pub model_row : Uuid → DateTime → String → String → ℤ → DateTime → ModelRow x
  unfolding original_name file_name
  model_row id now source_path sha256 size_bytes modified_at = record {
    id = uuid_to_string id;
    sha256 = sha256;
    original_name = original_name source_path (file_name source_path);
    size_bytes = size_bytes;
    model_format = "pte";
    storage_mode = "external";
    external_path = some source_path;
    relative_path = none;
    file_modified_at = some modified_at;
    registered_at = now;
    last_verified_at = some now;
    available = pos 1;
  }

  -- `match insert_result`
  unfoldable pub after_insert :
      String
      → Uuid
      → Result SqlxError (Unit {0}) × Db
      → Result ModelRegistryError (ModelAsset x) × Db
  unfolding refetch refind
  after_insert sha256 id (ok done, s) = refetch t vanished id s
  after_insert sha256 id (err e, s) =
      if is_unique e then refind t no_matching_row sha256 s else (err (db e), s)

  unfoldable pub reuse_or_insert :
      Option (ModelAsset x) → ModelRow x → Uuid → Action ModelRegistryError Db (ModelAsset x)
  unfolding after_insert
  reuse_or_insert (some existing) row id = pure existing
  reuse_or_insert none row id = λ s. after_insert row.sha256 id (insert_row row s)

  -- The ID and the time are those that the call makes up.
  unfoldable pub register : Uuid → DateTime → String → Action ModelRegistryError Db (ModelAsset x)
  unfolding regular_or hash_file modified_of reuse_or_insert model_row find_by_sha256
  register id now source_path = do
    metadata ← attempt (λ s. regular_or source_path (files.metadata source_path))
    sha256 ← attempt (λ s. hash_file x h files source_path)
    modified_at ← attempt (λ s. modified_of metadata)
    existing ← attempt (λ s. find_by_sha256 x (select_sha256 s) sha256)
    reuse_or_insert existing (model_row id now source_path sha256 (as_i64 metadata.len) modified_at)
        id

  abbrev pub is_modified_at : Option DateTime → DateTime → Bool
  is_modified_at none time = false
  is_modified_at (some old) time = datetime_eq old time

  unfoldable pub is_unchanged : ModelAsset x → ℤ → DateTime → Bool
  is_unchanged asset size_bytes modified_at =
      asset.available
      && int_eq asset.size_bytes size_bytes
      && is_modified_at asset.file_modified_at modified_at

  -- `verify` and `verify_full` on the metadata of a regular file, if there is one.
  unfoldable pub verify_file :
      DateTime
      → ModelAsset x
      → String
      → Option (Metadata x)
      → Action ModelRegistryError Db (ModelAsset x)
  unfolding mark_unavailable modified_of is_unchanged rehash_and_reconcile
  verify_file now asset path none = mark_unavailable t asset
  verify_file now asset path (some metadata) = do
    modified_at ← attempt (λ s. modified_of metadata)
    let size_bytes = as_i64 metadata.len
    (if is_unchanged asset size_bytes modified_at
        then pure asset
        else rehash_and_reconcile now asset path size_bytes modified_at)

  unfoldable pub verify_full_file :
      DateTime
      → ModelAsset x
      → String
      → Option (Metadata x)
      → Action ModelRegistryError Db (ModelAsset x)
  unfolding mark_unavailable modified_of rehash_and_reconcile
  verify_full_file now asset path none = mark_unavailable t asset
  verify_full_file now asset path (some metadata) = do
    modified_at ← attempt (λ s. modified_of metadata)
    rehash_and_reconcile now asset path (as_i64 metadata.len) modified_at

  unfoldable pub verify : DateTime → ModelAsset x → Action ModelRegistryError Db (ModelAsset x)
  unfolding verify_file regular
  verify now asset = do
    path ← attempt (λ s. ok_or no_external_path asset.external_path)
    verify_file now asset path (regular (files.metadata path))

  unfoldable pub verify_full : DateTime → ModelAsset x → Action ModelRegistryError Db (ModelAsset x)
  unfolding verify_full_file regular
  verify_full now asset = do
    path ← attempt (λ s. ok_or no_external_path asset.external_path)
    verify_full_file now asset path (regular (files.metadata path))
