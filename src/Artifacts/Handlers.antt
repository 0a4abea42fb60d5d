-- ===== src/Artifacts/Handlers.antt =====
-- src/artifacts_api.rs: the handlers. A failing answer is the `ApiError` that it is made of.
use executorch_bencher.Prelude.{
  ℕ, ℤ, String, Bool, true, false, ◌&&◌, ◌||◌, not, Option, none, some, List, Result, ok, err,
  if◌then◌else◌,
}
use executorch_bencher.Prelude.Text.{◌<>◌}
use executorch_bencher.ApiError.{
  ApiError, plain, invalid_artifact_kind, of_store, invalid_request, not_found,
  artifact_file_missing, payload_too_large, internal_error,
}
use executorch_bencher.ArtifactKind.{ArtifactKind, Compression, InvalidName, kind_try_from}
use executorch_bencher.Artifacts.Limits.{limited}
use executorch_bencher.Artifacts.Names.{content_disposition}
use executorch_bencher.ArtifactStore.{
  IoError, size_limit_exceeded, ArtifactStoreError, io, db, file_missing, invalid_name, invalid_id,
  invalid_stored_id, no_matching_row, ArtifactRecord, ArtifactRow, get_artifact_record,
}
use executorch_bencher.ArtifactStore.Machine.{Bytes, Hasher, Machine}
use executorch_bencher.ArtifactStore.Maintenance.{artifact_file_exists, open_artifact_content}
use executorch_bencher.ArtifactStore.Store.{StoredArtifact, store_artifact}
use executorch_bencher.Events.{Event, artifact_created, EventBus, publish}
use executorch_bencher.Externals.{Externals}
use executorch_bencher.Sqlx.{SqlxError}

unfoldable pub store_error_response : ArtifactStoreError → ApiError
store_error_response file_missing = artifact_file_missing (plain "artifact file is missing on disk")
store_error_response (io e) = internal_error (plain "internal storage error")
store_error_response (db e) = internal_error (plain "internal storage error")
store_error_response (invalid_name e) = invalid_request (of_store (invalid_name e))
store_error_response (invalid_id e) = invalid_request (of_store (invalid_id e))
store_error_response (invalid_stored_id e) = invalid_request (of_store (invalid_stored_id e))
store_error_response no_matching_row = invalid_request (of_store no_matching_row)

-- The arms of `match store_artifact(..)` that fail.
unfoldable pub upload_error : ArtifactStoreError → ApiError
unfolding store_error_response
upload_error (io size_limit_exceeded) =
    payload_too_large (plain "artifact exceeds the maximum upload size")
upload_error e = store_error_response e

-- What a handler answers.
pub data Reply {ℓ} (A : Type ℓ) : Type ℓ where
  success : A → Reply A
  failure : ApiError → Reply A

pub record UploadResponse (x : Externals) : Type 0 where
  pub id : Externals.Uuid x
  pub sha256 : String
  pub size_bytes : ℤ
  pub compression : String

pub record ArtifactMetadataResponse (x : Externals) : Type 0 where
  pub id : Externals.Uuid x
  pub kind : ArtifactKind
  pub original_filename : Option String
  pub size_bytes : ℤ
  pub media_type : Option String
  pub compression : Compression
  pub sha256 : String
  pub created_at : String
  pub available : Bool
  pub content_url : String
  pub download_url : String

-- The headers and the body of a served artifact.
pub record Served : Type 0 where
  pub content_type : String
  pub disposition : Option String
  pub body : Option Bytes

-- The part of `AppState` that an upload changes.
pub record App (x : Externals) (m : Machine) : Type 0 where
  pub state : Machine.State m
  pub events : EventBus (Event x)

module _ (x : Externals) (h : Hasher) (m : Machine) where
  -- `Ok(stored)` and `Err(..)` of `store_artifact`
  unfoldable pub after_store :
      ArtifactKind
      → EventBus (Event x)
      → Result ArtifactStoreError (StoredArtifact x) × Machine.State m
      → Reply (UploadResponse x) × App x m
  unfolding upload_error
  after_store kind events (err e, s) =
      (failure (upload_error e), record { state = s; events = events })
  after_store kind events (ok stored, s) = (
    success (record {
      id = stored.id;
      sha256 = stored.sha256;
      size_bytes = stored.size_bytes;
      compression = stored.compression;
    }),
    record {
      state = s;
      events =
          (publish events (
            artifact_created (record {
              id = stored.id;
              kind = kind;
              sha256 = stored.sha256;
              size_bytes = stored.size_bytes;
            }))).0;
    },
  )

  module _ (artifact_root temporary_dir : String) (max_artifact_upload_bytes : ℕ) where
    -- From the outcome of `ArtifactKind::try_from` on. The content type is the header's, where it
    -- is a text; the body is the answers of its stream.
    unfoldable pub upload_kind :
        (tmp_id id : Externals.Uuid x) (created_at : String) (kind_text : String)
        → Result InvalidName ArtifactKind
        → (original_name content_type : Option String) → List (Result IoError Bytes)
        → App x m
        → Reply (UploadResponse x) × App x m
    unfolding after_store store_artifact
    upload_kind tmp_id id created_at kind_text (err e) original_name content_type body app =
        (failure (invalid_request (invalid_artifact_kind kind_text)), app)
    upload_kind tmp_id id created_at kind_text (ok kind) original_name content_type body app =
        after_store kind app.events (
          store_artifact x h m artifact_root temporary_dir tmp_id id created_at kind original_name
            content_type (limited max_artifact_upload_bytes 0 body) app.state)

    unfoldable pub upload_artifact :
        (tmp_id id : Externals.Uuid x) (created_at : String) (kind : String)
        → (original_name content_type : Option String) → List (Result IoError Bytes)
        → App x m
        → Reply (UploadResponse x) × App x m
    unfolding upload_kind
    upload_artifact tmp_id id created_at kind =
        upload_kind tmp_id id created_at kind (kind_try_from kind)

-- Serving. `select` is the query by ID, and `is_header_value` the check of the HTTP library.
module _ (x : Externals) (m : Machine)
    (select : Machine.State m → String → Result SqlxError (Option ArtifactRow))
    (artifact_root : String) where
  open x use {Uuid, uuid_to_string}

  unfoldable pub build_metadata_response :
      Machine.State m → ArtifactRecord x → ArtifactMetadataResponse x
  unfolding artifact_file_exists
  build_metadata_response s r = record {
    id = r.id;
    kind = r.kind;
    original_filename = r.original_filename;
    size_bytes = r.size_bytes;
    media_type = r.media_type;
    compression = r.compression;
    sha256 = r.sha256;
    created_at = r.created_at;
    available = artifact_file_exists x m s artifact_root r;
    content_url = "/api/v1/artifacts/" <> uuid_to_string r.id <> "/content";
    download_url = "/api/v1/artifacts/" <> uuid_to_string r.id <> "/download";
  }

  unfoldable pub metadata_of :
      Machine.State m
      → Result ArtifactStoreError (Option (ArtifactRecord x))
      → Reply (ArtifactMetadataResponse x)
  unfolding store_error_response build_metadata_response
  metadata_of s (ok (some r)) = success (build_metadata_response s r)
  metadata_of s (ok none) = failure (not_found (plain "artifact not found"))
  metadata_of s (err e) = failure (store_error_response e)

  unfoldable pub artifact_metadata : Machine.State m → Uuid → Reply (ArtifactMetadataResponse x)
  unfolding metadata_of
  artifact_metadata s id = metadata_of s (get_artifact_record x (select s) id)

  module _ (is_header_value : String → Bool)
      (open_file : String → Machine.State m → Result IoError (Unit {0})) where
    -- The response builder, with the headers in their order.
    unfoldable pub build_content_response : Bool → ArtifactRecord x → Option Bytes → Reply Served
    build_content_response attachment r body =
        let content_type = media_type_or r.media_type in
        if is_header_value content_type
          && (not attachment || is_header_value (content_disposition r))
        then success (record {
          content_type = content_type;
          disposition = if attachment then some (content_disposition r) else none;
          body = body;
        })
        else failure (internal_error (plain "internal error building artifact response"))
      where
        media_type_or : Option String → String
        media_type_or none = "application/octet-stream"
        media_type_or (some t) = t

    unfoldable pub after_opened :
        Bool → ArtifactRecord x → Result ArtifactStoreError (Option Bytes) → Reply Served
    unfolding store_error_response build_content_response
    after_opened attachment r (err e) = failure (store_error_response e)
    after_opened attachment r (ok body) = build_content_response attachment r body

    unfoldable pub content_of :
        Machine.State m
        → Bool
        → Result ArtifactStoreError (Option (ArtifactRecord x))
        → Reply Served
    unfolding store_error_response after_opened open_artifact_content
    content_of s attachment (ok none) = failure (not_found (plain "artifact not found"))
    content_of s attachment (err e) = failure (store_error_response e)
    content_of s attachment (ok (some r)) =
        after_opened attachment r (open_artifact_content x m open_file s artifact_root r)

    unfoldable pub stream_artifact_content : Machine.State m → Uuid → Bool → Reply Served
    unfolding content_of
    stream_artifact_content s id attachment =
        content_of s attachment (get_artifact_record x (select s) id)

    unfoldable pub artifact_content : Machine.State m → Uuid → Reply Served
    unfolding stream_artifact_content
    artifact_content s id = stream_artifact_content s id false

    unfoldable pub artifact_download : Machine.State m → Uuid → Reply Served
    unfolding stream_artifact_content
    artifact_download s id = stream_artifact_content s id true
