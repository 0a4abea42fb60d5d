-- ===== src/ArtifactStore/Store.antt =====
-- src/artifact_store.rs: `copy_hashing`, `store_artifact` and the functions they use.
use Prim.Native.Char.{Char}
use Prim.Native.String.{slice}
use executorch_bencher.Prelude.{
  ℕ, zero, suc, ◌+◌, ◌-◌, ◌/◌, ◌%◌, ◌^◌, ℤ, pos, negsuc, String, Option, none, some, List, [], ◌∷◌,
  ltb, Result, ok, err, map_err, ok_or, transpose_map, if◌then◌else◌,
}
use executorch_bencher.Prelude.Lists.{length}
use executorch_bencher.Prelude.Text.{path_join}
use executorch_bencher.Prelude.Action.{
  Action, pure, fail, attempt, or_err, ignore, inspect_err, ◌>>=◌, ◌>>◌,
}
use executorch_bencher.Externals.{Externals}
use executorch_bencher.ArtifactKind.{
  ArtifactKind, Compression, uncompressed, zstd, compresses, compression_as_str, kind_as_str,
}
use executorch_bencher.ArtifactStore.{
  IoError, ArtifactStoreError, io, db, invalid_stored_id, no_matching_row, ArtifactRow,
}
use executorch_bencher.ArtifactStore.Machine.{Bytes, Hasher, Machine}
use executorch_bencher.Sqlx.{SqlxError, is_unique}

pub record StoredArtifact (x : Externals) : Type 0 where
  pub id : Externals.Uuid x
  pub sha256 : String
  pub size_bytes : ℤ
  pub storage_path : String
  pub compression : String

-- The character of a text at a place, and a digit of `{:x}`.
unfoldable pub nth_char : String → ℕ → Char
nth_char String.[] n = "0"
nth_char (String.◌∷◌ c s) zero = c
nth_char (String.◌∷◌ c s) (suc n) = nth_char s n

unfoldable pub hex_digit : ℕ → Char
unfolding nth_char
hex_digit n = nth_char "0123456789abcdef" n

unfoldable pub hex_encode : Bytes → String
unfolding hex_digit
hex_encode [] = ""
hex_encode (byte ∷ bytes) =
    String.◌∷◌ (hex_digit (byte / 16)) (String.◌∷◌ (hex_digit (byte % 16)) (hex_encode bytes))

-- `PathBuf::from("sha256").join(&sha256_hex[0..2])`, the directory of the next path
unfoldable pub relative_dir_for : String → String
relative_dir_for sha256_hex = path_join "sha256" (slice sha256_hex 0 2)

unfoldable pub relative_path_for : String → String
unfolding relative_dir_for
relative_path_for sha256_hex = path_join (relative_dir_for sha256_hex) sha256_hex

-- `as i64` of a `u64`
unfoldable pub as_i64 : ℕ → ℤ
as_i64 n = if ltb n (2 ^ 63) then pos n else negsuc (2 ^ 64 - n - 1)

module _ (x : Externals) (h : Hasher) (m : Machine) where
  open x use {Uuid, uuid_to_string, uuid_parse_str}
  open h use {Sha256, update}
  open m use {
    State, create_dir_all, create, remove_file, rename, write_all, shutdown, exists, insert_row,
    select_id,
  }

  unfoldable pub parse_existing :
      Result ArtifactStoreError (Option String) → Result ArtifactStoreError (Option Uuid)
  parse_existing (err e) = err e
  parse_existing (ok row) =
      transpose_map (λ id. ok_or (invalid_stored_id id) (uuid_parse_str id)) row

  unfoldable pub find_existing : String → ℤ → State → Result ArtifactStoreError (Option Uuid)
  unfolding parse_existing
  find_existing sha256_hex size_bytes s =
      parse_existing (map_err db (select_id sha256_hex size_bytes s))

  -- The loop: the answers of `reader.read`, a slice or an error, in their order. An empty slice
  -- is the end, and the end of the list stands for it.
  unfoldable pub copy_loop :
      Compression
      → String
      → Sha256
      → ℕ
      → List (Result IoError Bytes)
      → Action ArtifactStoreError State (Sha256 × ℕ)
  copy_loop c path hasher total [] = pure (hasher, total)
  copy_loop c path hasher total (err e ∷ rest) = fail (io e)
  copy_loop c path hasher total (ok [] ∷ rest) = pure (hasher, total)
  copy_loop c path hasher total (ok (byte ∷ bytes) ∷ rest) = do
    or_err io (write_all c path (byte ∷ bytes))
    copy_loop c path (update hasher (byte ∷ bytes)) ((total + length (byte ∷ bytes)) % 2 ^ 64) rest

  unfoldable pub copy_hashing :
      Compression
      → String
      → List (Result IoError Bytes)
      → Action ArtifactStoreError State (String × ℕ)
  unfolding copy_loop
  copy_hashing c path reader = do
    (hasher, total) ← copy_loop c path h.new 0 reader
    or_err io (shutdown c path)
    pure (hex_encode (h.finalize hasher), total)

  -- `if metadata(final).is_ok() { remove(tmp)? } else if let Err(err) = rename(tmp, final) { .. }`
  unfoldable pub after_rename :
      String
      → String
      → Result IoError (Unit {0}) × State
      → Result ArtifactStoreError (Unit {0}) × State
  after_rename tmp_path final_path (ok done, s) = (ok done, s)
  after_rename tmp_path final_path (err e, s) =
      if exists s final_path then ignore (or_err io (remove_file tmp_path)) s else (err (io e), s)

  unfoldable pub land : String → String → Action ArtifactStoreError State (Unit {0})
  unfolding after_rename
  land tmp_path final_path s =
      if exists s final_path
      then or_err io (remove_file tmp_path) s
      else after_rename tmp_path final_path (rename tmp_path final_path s)

  abbrev stored_as : String → ℤ → String → Compression → Uuid → StoredArtifact x
  stored_as sha256_hex size_bytes storage_path compression id = record {
    id = id;
    sha256 = sha256_hex;
    size_bytes = size_bytes;
    storage_path = storage_path;
    compression = compression_as_str compression;
  }

  -- `match insert_result`
  unfoldable pub after_insert :
      String
      → ℤ
      → Uuid
      → Result SqlxError (Unit {0}) × State
      → Result ArtifactStoreError Uuid × State
  unfolding find_existing
  after_insert sha256_hex size_bytes id (ok done, s) = (ok id, s)
  after_insert sha256_hex size_bytes id (err e, s) =
      if is_unique e
      then (do
        existing ← attempt (find_existing sha256_hex size_bytes)
        attempt (λ t. ok_or no_matching_row existing))
          s
      else (err (db e), s)

  unfoldable pub find_or_insert :
      Option Uuid → ArtifactRow → Uuid → Action ArtifactStoreError State Uuid
  unfolding after_insert
  find_or_insert (some existing) row id = pure existing
  find_or_insert none row id = λ s. after_insert row.sha256 row.size_bytes id (insert_row row s)

  -- What the INSERT binds.
  unfoldable pub new_row :
      Uuid
      → String
      → ArtifactKind
      → (original_filename media_type : Option String) → String
      → ℤ
      → Compression
      → ArtifactRow
  new_row id created_at kind filename media sha256_hex size_bytes compression = record {
    id = uuid_to_string id;
    sha256 = sha256_hex;
    size_bytes = size_bytes;
    kind = kind_as_str kind;
    original_filename = filename;
    storage_path = relative_path_for sha256_hex;
    media_type = media;
    compression = compression_as_str compression;
    created_at = created_at;
  }

  abbrev pub stored_compression : ArtifactKind → Compression
  stored_compression kind = if compresses kind then zstd else uncompressed

  -- `store_artifact` from the end of the copy on.
  unfoldable pub store_copied :
      (artifact_root tmp_path : String)
      → Uuid
      → String
      → ArtifactKind
      → (original_filename media_type : Option String) → String × ℕ
      → Action ArtifactStoreError State (StoredArtifact x)
  unfolding land find_or_insert find_existing new_row
  store_copied artifact_root tmp_path id created_at kind filename media (sha256_hex, total) = do
    let size_bytes = as_i64 total
    or_err io (create_dir_all (path_join artifact_root (relative_dir_for sha256_hex)))
    land tmp_path (path_join artifact_root (relative_path_for sha256_hex))
    existing ← attempt (find_existing sha256_hex size_bytes)
    stored ←
        find_or_insert existing
          (new_row id created_at kind filename media sha256_hex size_bytes
            (stored_compression kind))
          id
    pure (
        stored_as sha256_hex size_bytes (relative_path_for sha256_hex) (stored_compression kind)
          stored)

  -- The IDs and the time are those that the machine makes up on the way.
  unfoldable pub store_artifact :
      (artifact_root temporary_dir : String) (tmp_id id : Uuid) (created_at : String)
      → ArtifactKind
      → (original_filename media_type : Option String) → List (Result IoError Bytes)
      → Action ArtifactStoreError State (StoredArtifact x)
  unfolding copy_hashing store_copied
  store_artifact artifact_root temporary_dir tmp_id id created_at kind filename media reader = do
    or_err io (create_dir_all temporary_dir)
    let tmp_path = path_join temporary_dir (uuid_to_string tmp_id)
    or_err io (create tmp_path)
    copied ←
        inspect_err (copy_hashing (stored_compression kind) tmp_path reader) (remove_file tmp_path)
    store_copied artifact_root tmp_path id created_at kind filename media copied

  -- The whole content at once, as a reader of one slice.
  unfoldable pub store_artifact_bytes :
      (artifact_root temporary_dir : String) (tmp_id id : Uuid) (created_at : String)
      → ArtifactKind
      → (original_filename media_type : Option String) → Bytes
      → Action ArtifactStoreError State (StoredArtifact x)
  unfolding store_artifact
  store_artifact_bytes artifact_root temporary_dir tmp_id id created_at kind filename media bytes =
      store_artifact artifact_root temporary_dir tmp_id id created_at kind filename media
        (ok bytes ∷ [])
