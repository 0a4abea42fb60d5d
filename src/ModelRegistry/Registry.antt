-- ===== src/ModelRegistry/Registry.antt =====
-- src/model_registry.rs: registering and verifying external models. The files are what the calls of
-- this run of a function find; the registry never writes one.
use executorch_bencher.Prelude.{
  ℕ, ℤ, pos, String, Bool, ◌≡◌, ◌≢◌, Option, some, none, List, [], ◌∷◌, map, Result, ok, err,
  if◌then◌else◌,
}
use executorch_bencher.Prelude.Lists.{All}
use executorch_bencher.Prelude.Text.{str_eq}
use executorch_bencher.Prelude.Action.{Action, attempt, or_err, ◌>>◌}
use executorch_bencher.ArtifactStore.{IoError}
use executorch_bencher.ArtifactStore.Machine.{Bytes, Hasher}
use executorch_bencher.ArtifactStore.Store.{hex_encode}
use executorch_bencher.Externals.{Externals}
use executorch_bencher.ModelRegistry.{
  ModelRegistryError, io, db, disappeared, ModelAsset, ModelRow, get_model_asset, find_by_sha256,
}
use executorch_bencher.Sqlx.{SqlxError}

-- `tokio::fs::metadata`: whether it is a regular file, its length, and its modification time.
pub record Metadata (x : Externals) : Type 0 where
  pub is_file : Bool
  pub len : ℕ
  pub modified : Result IoError (Externals.DateTime x)

-- The file system as the registry sees it. A reader is the answers of its reads.
pub record Files (x : Externals) : Type 0 where
  pub metadata : String → Option (Metadata x)
  pub open_file : String → Result IoError (List (Result IoError Bytes))

-- The `model_assets` table.
pub record ModelsTable (x : Externals) : Type 1 where
  pub Db : Type 0
  pub select_id : Db → String → Result SqlxError (Option (ModelRow x))
  pub select_sha256 : Db → String → Result SqlxError (Option (ModelRow x))
  pub insert_row : ModelRow x → Action SqlxError Db (Unit {0})
  -- the two UPDATEs, by the ID they name last
  pub set_unavailable : String → Action SqlxError Db (Unit {0})
  pub update_content :
      String
      → ℤ
      → Externals.DateTime x
      → Externals.DateTime x
      → String
      → Action SqlxError Db (Unit {0})
  -- the rows that the table has
  pub rows : Db → List (ModelRow x)

module _ {x : Externals} where
  -- What the UPDATEs do to a row.
  abbrev pub as_unavailable : ModelRow x → ModelRow x
  as_unavailable r = record r { available = pos 0 }

  abbrev pub with_content :
      String → ℤ → Externals.DateTime x → Externals.DateTime x → ModelRow x → ModelRow x
  with_content sha256 size modified now r = record r {
    sha256 = sha256;
    size_bytes = size;
    file_modified_at = some modified;
    last_verified_at = some now;
    available = pos 1;
  }

  abbrev pub where_id : String → (ModelRow x → ModelRow x) → ModelRow x → ModelRow x
  where_id id f r = if str_eq r.id id then f r else r

-- What SQLite documents of these statements.
pub record IsModelsTable {x : Externals} (t : ModelsTable x) : Type 1 where
  -- An answer is one of the rows, with what was asked for.
  pub select_id_lem :
      (s : ModelsTable.Db t) (id : String) (r : ModelRow x)
      → t.select_id s id ≡ ok (some r)
      → (r.id ≡ id) × ((P : ModelRow x → Type 0) → All P (t.rows s) → P r)
  pub select_sha256_lem :
      (s : ModelsTable.Db t) (sha : String) (r : ModelRow x)
      → t.select_sha256 s sha ≡ ok (some r)
      → (r.sha256 ≡ sha) × ((P : ModelRow x → Type 0) → All P (t.rows s) → P r)
  -- The primary key.
  pub insert_row-fresh :
      (r : ModelRow x) (s : ModelsTable.Db t)
      → (t.insert_row r s).0 ≡ ok tt
      → All (λ q. q.id ≢ r.id) (t.rows s)
  pub insert_row-ok :
      (r : ModelRow x) (s : ModelsTable.Db t)
      → (t.insert_row r s).0 ≡ ok tt
      → t.rows (t.insert_row r s).1 ≡ r ∷ t.rows s
  pub insert_row-err :
      (r : ModelRow x) (e : SqlxError) (s : ModelsTable.Db t)
      → (t.insert_row r s).0 ≡ err e
      → t.rows (t.insert_row r s).1 ≡ t.rows s
  pub set_unavailable-ok :
      (id : String) (s : ModelsTable.Db t)
      → (t.set_unavailable id s).0 ≡ ok tt
      → t.rows (t.set_unavailable id s).1 ≡ map (where_id id as_unavailable) (t.rows s)
  pub update_content-ok :
      (sha : String) (size : ℤ) (modified now : Externals.DateTime x) (id : String)
      (s : ModelsTable.Db t)
      → (t.update_content sha size modified now id s).0 ≡ ok tt
      → t.rows (t.update_content sha size modified now id s).1
        ≡ map (where_id id (with_content sha size modified now)) (t.rows s)

module _ (x : Externals) (h : Hasher) where
  -- The loop of `hash_file`, over the answers of the reads.
  unfoldable pub hash_loop :
      Hasher.Sha256 h → List (Result IoError Bytes) → Result ModelRegistryError (Hasher.Sha256 h)
  hash_loop hasher [] = ok hasher
  hash_loop hasher (err e ∷ rest) = err (io e)
  hash_loop hasher (ok [] ∷ rest) = ok hasher
  hash_loop hasher (ok (b ∷ bs) ∷ rest) = hash_loop (h.update hasher (b ∷ bs)) rest

  unfoldable pub hash_opened :
      Result IoError (List (Result IoError Bytes)) → Result ModelRegistryError (Hasher.Sha256 h)
  unfolding hash_loop
  hash_opened (err e) = err (io e)
  hash_opened (ok reader) = hash_loop h.new reader

  unfoldable pub finish_hash :
      Result ModelRegistryError (Hasher.Sha256 h) → Result ModelRegistryError String
  finish_hash (err e) = err e
  finish_hash (ok hasher) = ok (hex_encode (h.finalize hasher))

  unfoldable pub hash_file : Files x → String → Result ModelRegistryError String
  unfolding hash_opened finish_hash
  hash_file files path = finish_hash (hash_opened (files.open_file path))

module _ {x : Externals} (t : ModelsTable x) where
  open t use {Db, select_id, select_sha256, set_unavailable}

  unfoldable pub require :
      ModelRegistryError
      → Result ModelRegistryError (Option (ModelAsset x))
      → Result ModelRegistryError (ModelAsset x)
  require e (err f) = err f
  require e (ok none) = err e
  require e (ok (some asset)) = ok asset

  -- `get_model_asset(..)?.ok_or_else(..)`
  unfoldable pub refetch :
      ModelRegistryError → Externals.Uuid x → Action ModelRegistryError Db (ModelAsset x)
  unfolding require get_model_asset
  refetch e id = attempt (λ s. require e (get_model_asset x (select_id s) id))

  unfoldable pub refind : ModelRegistryError → String → Action ModelRegistryError Db (ModelAsset x)
  unfolding require find_by_sha256
  refind e sha256 = attempt (λ s. require e (find_by_sha256 x (select_sha256 s) sha256))

  unfoldable pub mark_unavailable : ModelAsset x → Action ModelRegistryError Db (ModelAsset x)
  unfolding refetch
  mark_unavailable asset = do
    or_err db (set_unavailable (Externals.uuid_to_string x asset.id))
    refetch disappeared asset.id
