-- ===== src/Artifacts/Uploads.antt =====
-- `upload_artifact`: what an upload leaves behind, accepted or refused.
use text.Mathlib.Text.{starts_with}
use executorch_bencher.Prelude.{
  ℕ, ◌≤◌, String, Option, some, false, List, Result, ok, err, ◌≡◌, ◌⊎◌, inl, inr, refl,
}
use executorch_bencher.Prelude.Lists.{length, All}
use executorch_bencher.Prelude.Text.{path_join}
use executorch_bencher.ApiError.{ApiError}
use executorch_bencher.ArtifactKind.{ArtifactKind, InvalidName, kind_try_from}
use executorch_bencher.Artifacts.Limits.{limited, Fits, bytes_read-limited-le}
use executorch_bencher.Artifacts.Handlers.{
  Reply, success, failure, UploadResponse, App, after_store, upload_kind, upload_artifact,
  upload_error,
}
use executorch_bencher.ArtifactStore.{IoError, ArtifactStoreError}
use executorch_bencher.ArtifactStore.Copy.{bytes_read}
use executorch_bencher.ArtifactStore.Ingest.{
  HasStored, store_artifact-HasStored, store_artifact-IsConsistent,
}
use executorch_bencher.ArtifactStore.Keeps.{IsConsistent}
use executorch_bencher.ArtifactStore.Machine.{Bytes, Hasher, Machine, IsMachine}
use executorch_bencher.ArtifactStore.Store.{StoredArtifact, store_artifact}
use executorch_bencher.Events.{artifact_created, publish}
use executorch_bencher.Externals.{Externals}

module _ (x : Externals) (h : Hasher) (m : Machine) (L : IsMachine m)
    (artifact_root temporary_dir : String) (limit : ℕ) (tmp_id id : Externals.Uuid x)
    (created_at : String) where
  -- The upload was stored, within the limit, and its event was published.
  pub record IsUploaded (kind_text : String) (body : List (Result IoError Bytes)) (app : App x m)
      (answer : Reply (UploadResponse x) × App x m) : Type 0 where
    pub kind : ArtifactKind
    pub stored : StoredArtifact x
    pub is_kind : kind_try_from kind_text ≡ ok kind
    pub kept : HasStored x h m L artifact_root kind (limited limit 0 body) stored answer.1.state
    pub was_sent : bytes_read body ≡ some kept.bytes
    pub within_limit : length kept.bytes ≤ limit
    pub announced :
        answer.1.events
        ≡ (publish app.events (
            artifact_created (record {
              id = stored.id;
              kind = kind;
              sha256 = stored.sha256;
              size_bytes = stored.size_bytes;
            }))).0
    pub answered :
        answer.0
        ≡ success (record {
          id = stored.id;
          sha256 = stored.sha256;
          size_bytes = stored.size_bytes;
          compression = stored.compression;
        })

  -- An error, no event, and still a file for every row.
  pub record IsTurnedAway (app : App x m) (answer : Reply (UploadResponse x) × App x m)
      : Type 0 where
    pub error : ApiError
    pub answered : answer.0 ≡ failure error
    pub silent : answer.1.events ≡ app.events
    pub consistent : IsConsistent m artifact_root answer.1.state

  stored-cases :
      (kind_text : String) (kind : ArtifactKind) (body : List (Result IoError Bytes))
      (app : App x m) (o : Result ArtifactStoreError (StoredArtifact x) × Machine.State m)
      → kind_try_from kind_text ≡ ok kind
      → All (Fits limit) body
      → ((a : StoredArtifact x)
          → o.0 ≡ ok a
          → HasStored x h m L artifact_root kind (limited limit 0 body) a o.1)
      → IsConsistent m artifact_root o.1
      → IsTurnedAway app (after_store x h m kind app.events o)
        ⊎ IsUploaded kind_text body app (after_store x h m kind app.events o)
  unfolding after_store
  stored-cases kind_text kind body app (err e, s) k fits f c =
      inl (record { error = upload_error e; answered = refl; silent = refl; consistent = c })
  stored-cases kind_text kind body app (ok a, s) k fits f c =
      let has = f a refl in
      let (sent, small) = bytes_read-limited-le limit body has.bytes fits has.was_read in
      inr (record {
        kind = kind;
        stored = a;
        is_kind = k;
        kept = has;
        was_sent = sent;
        within_limit = small;
        announced = refl;
        answered = refl;
      })

  kind-cases :
      (kind_text : String) (k : Result InvalidName ArtifactKind)
      (original_name content_type : Option String) (body : List (Result IoError Bytes))
      (app : App x m)
      → kind_try_from kind_text ≡ k
      → starts_with (path_join temporary_dir (Externals.uuid_to_string x tmp_id)) artifact_root
        ≡ false
      → All (Fits limit) body
      → IsConsistent m artifact_root app.state
      → IsTurnedAway app (
          upload_kind x h m artifact_root temporary_dir limit tmp_id id created_at kind_text k
            original_name content_type body app)
        ⊎ IsUploaded kind_text body app (
            upload_kind x h m artifact_root temporary_dir limit tmp_id id created_at kind_text k
              original_name content_type body app)
  unfolding upload_kind
  kind-cases kind_text (err e) original_name content_type body app k apart fits c =
      inl (record { error = _; answered = refl; silent = refl; consistent = c })
  kind-cases kind_text (ok kind) original_name content_type body app k apart fits c =
      stored-cases kind_text kind body app
        (store_artifact x h m artifact_root temporary_dir tmp_id id created_at kind original_name
          content_type (limited limit 0 body) app.state)
        k fits
        (λ a e.
          store_artifact-HasStored x h m L artifact_root temporary_dir tmp_id id created_at kind
            original_name content_type (limited limit 0 body) apart app.state a c e)
        (store_artifact-IsConsistent x h m L artifact_root temporary_dir tmp_id id created_at kind
          original_name content_type (limited limit 0 body) apart app.state c)

  -- Starting with a file for every row, with a temporary file that is not beneath the artifact
  -- root and a body in slices that fit in memory: an upload is either turned away with an error,
  -- no event and still a file for every row, or its kind is valid, its body is stored with its own
  -- digest and size, has at most `limit` bytes, one event with its ID, kind, digest and size was
  -- published, and the answer has the same ID, digest and size.
  pub upload_artifact-cases :
      (kind_text : String) (original_name content_type : Option String)
      (body : List (Result IoError Bytes)) (app : App x m)
      → starts_with (path_join temporary_dir (Externals.uuid_to_string x tmp_id)) artifact_root
        ≡ false
      → All (Fits limit) body
      → IsConsistent m artifact_root app.state
      → IsTurnedAway app (
          upload_artifact x h m artifact_root temporary_dir limit tmp_id id created_at kind_text
            original_name content_type body app)
        ⊎ IsUploaded kind_text body app (
            upload_artifact x h m artifact_root temporary_dir limit tmp_id id created_at kind_text
              original_name content_type body app)
  unfolding upload_artifact
  upload_artifact-cases kind_text original_name content_type body app =
      kind-cases kind_text _ original_name content_type body app refl
