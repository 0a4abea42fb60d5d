-- ===== src/ArtifactStore/Maintenance.antt =====
-- src/artifact_store.rs: reading an artifact's file, and the removal of abandoned uploads.
use executorch_bencher.Prelude.{
  ℕ, ◌+◌, ◌-◌, ◌%◌, ◌^◌, String, Bool, true, false, Option, none, some, List, [], ◌∷◌, leb, Result,
  ok, err, if◌then◌else◌,
}
use executorch_bencher.Prelude.Text.{path_join}
use executorch_bencher.Prelude.Action.{Action}
use executorch_bencher.Externals.{Externals}
use executorch_bencher.ArtifactKind.{Compression}
use executorch_bencher.ArtifactStore.{
  IoError, not_found, ArtifactStoreError, io, file_missing, ArtifactRecord,
}
use executorch_bencher.ArtifactStore.Machine.{Bytes, Machine}

module _ (x : Externals) where
  -- `metadata(path).is_ok()` is the machine's.
  unfoldable pub artifact_file_exists :
      (m : Machine) → Machine.State m → String → ArtifactRecord x → Bool
  artifact_file_exists m s artifact_root record_ =
      m.exists s (path_join artifact_root record_.storage_path)

  module _ {ℓ} {A : Type ℓ} where
    -- `match File::open(path)`; `decode` is what the reader, behind its decoder, is.
    unfoldable pub after_open :
        (Compression → A) → Compression → Result IoError (Unit {0}) → Result ArtifactStoreError A
    after_open decode compression (ok file) = ok (decode compression)
    after_open decode compression (err (not_found e)) = err file_missing
    after_open decode compression (err e) = err (io e)

  -- The content that a caller reads to its end.
  unfoldable pub open_artifact_content :
      (m : Machine)
      → (String → Machine.State m → Result IoError (Unit {0}))
      → Machine.State m
      → String
      → ArtifactRecord x
      → Result ArtifactStoreError (Option Bytes)
  unfolding after_open
  open_artifact_content m open_file s artifact_root record_ =
      let path = path_join artifact_root record_.storage_path in
      after_open (λ c. m.content s c path) record_.compression (open_file path s)

-- A directory entry as `entry.metadata()` leaves it: unreadable, or whether it is a file and its
-- modification time, if the system tells it.
pub record Entry : Type 0 where
  pub path : String
  pub metadata : Option (Bool × Option ℕ)

-- `age >= retention && is_file`, with the early `continue`s as `false`. The age is a difference of
-- times that stops at zero.
unfoldable pub is_abandoned : (now retention : ℕ) → Option (Bool × Option ℕ) → Bool
is_abandoned now retention none = false
is_abandoned now retention (some (false, modified)) = false
is_abandoned now retention (some (true, none)) = false
is_abandoned now retention (some (true, some modified)) = leb retention (now - modified)

module _ (m : Machine) where
  open m use {State, remove_file}

  -- `if .. && remove_file(path).is_ok() { removed += 1 }` on a `usize`
  unfoldable pub after_remove : ℕ → Result IoError (Unit {0}) × State → ℕ × State
  after_remove removed (ok done, s) = ((removed + 1) % 2 ^ 64, s)
  after_remove removed (err e, s) = (removed, s)

  unfoldable pub cleanup_entry : (now retention : ℕ) → Entry → ℕ × State → ℕ × State
  unfolding is_abandoned after_remove
  cleanup_entry now retention entry (removed, s) =
      if is_abandoned now retention entry.metadata
      then after_remove removed (remove_file entry.path s)
      else (removed, s)

  -- The loop: the answers of `next_entry`, which ends the function by its error.
  unfoldable pub cleanup_loop :
      (now retention : ℕ)
      → List (Result IoError Entry)
      → ℕ × State
      → Result ArtifactStoreError ℕ × State
  unfolding cleanup_entry
  cleanup_loop now retention [] (removed, s) = (ok removed, s)
  cleanup_loop now retention (err e ∷ rest) (removed, s) = (err (io e), s)
  cleanup_loop now retention (ok entry ∷ rest) (removed, s) =
      cleanup_loop now retention rest (cleanup_entry now retention entry (removed, s))

  -- `read_dir` answers the entries, or an error.
  unfoldable pub cleanup_abandoned_temp_files :
      Result IoError (List (Result IoError Entry))
      → (now retention : ℕ) → Action ArtifactStoreError State ℕ
  unfolding cleanup_loop
  cleanup_abandoned_temp_files (err (not_found e)) now retention s = (ok 0, s)
  cleanup_abandoned_temp_files (err e) now retention s = (err (io e), s)
  cleanup_abandoned_temp_files (ok entries) now retention s =
      cleanup_loop now retention entries (0, s)
