-- ===== src/ArtifactStore.antt =====
-- src/artifact_store.rs: the records of artifacts and how they are read.
pub mod Machine
pub mod Copy
pub mod Paths
pub mod Keeps
pub mod Stored
pub mod Recorded
pub mod Ingest
pub mod Maintenance
pub mod Cleanup
pub mod Store
use executorch_bencher.Prelude.{ℤ, String, Option, Result, ok, ◌>>=◌, map_err, ok_or, transpose_map}
use executorch_bencher.ArtifactKind.{
  ArtifactKind, kind_try_from, Compression, compression_try_from, InvalidName,
}
use executorch_bencher.Externals.{Externals}
use executorch_bencher.Sqlx.{SqlxError}

-- `std::io::Error`, by what the program asks of it: the marker `UploadSizeLimitExceeded` inside, the
-- kind `NotFound`, or another failure, with its text.
pub data IoError : Type 0 where
  size_limit_exceeded : IoError
  not_found other_io : String → IoError

-- `ArtifactStoreError`; the texts of `Other` are the constructors from `invalid_name` on.
pub data ArtifactStoreError : Type 0 where
  io : IoError → ArtifactStoreError
  db : SqlxError → ArtifactStoreError
  file_missing : ArtifactStoreError
  invalid_name : InvalidName → ArtifactStoreError
  invalid_id invalid_stored_id : String → ArtifactStoreError
  no_matching_row : ArtifactStoreError

pub record ArtifactRecord (x : Externals) : Type 0 where
  pub id : Externals.Uuid x
  pub sha256 : String
  pub size_bytes : ℤ
  pub kind : ArtifactKind
  pub original_filename : Option String
  pub storage_path : String
  pub media_type : Option String
  pub compression : Compression
  pub created_at : String

-- A row of the `artifacts` table.
pub record ArtifactRow : Type 0 where
  pub id : String
  pub sha256 : String
  pub size_bytes : ℤ
  pub kind : String
  pub original_filename : Option String
  pub storage_path : String
  pub media_type : Option String
  pub compression : String
  pub created_at : String

module _ (x : Externals) where
  open x use {Uuid, uuid_to_string, uuid_parse_str}

  unfoldable pub row_to_record : ArtifactRow → Result ArtifactStoreError (ArtifactRecord x)
  row_to_record row = do
    id ← ok_or (invalid_id row.id) (uuid_parse_str row.id)
    kind ← map_err invalid_name (kind_try_from row.kind)
    compression ← map_err invalid_name (compression_try_from row.compression)
    ok (record {
      id = id;
      sha256 = row.sha256;
      size_bytes = row.size_bytes;
      kind = kind;
      original_filename = row.original_filename;
      storage_path = row.storage_path;
      media_type = row.media_type;
      compression = compression;
      created_at = row.created_at;
    })

  -- The query is the database's: its answer by the text of the ID.
  unfoldable pub get_artifact_record :
      (String → Result SqlxError (Option ArtifactRow))
      → Uuid
      → Result ArtifactStoreError (Option (ArtifactRecord x))
  get_artifact_record select id = do
    row ← map_err db (select (uuid_to_string id))
    transpose_map row_to_record row
