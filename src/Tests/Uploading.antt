-- ===== src/Tests/Uploading.antt =====
-- A log of three bytes is stored on an empty disk; abandoned uploads are removed.
use executorch_bencher.Prelude.{
  arith, ℕ, pos, some, none, true, ◌≡◌, refl, ok, [], ◌∷◌, List, Result,
}
use executorch_bencher.Prelude.Text.{eq_iff}
use executorch_bencher.ArtifactKind.{stdout, zstd, compresses, compression_as_str}
use executorch_bencher.ArtifactStore.{IoError}
use executorch_bencher.ArtifactStore.Copy.{copy_hashing-HasCopied, HasCopied}
use executorch_bencher.ArtifactStore.Cleanup.{Swept, cleanup_abandoned_temp_files-Swept}
use executorch_bencher.ArtifactStore.Ingest.{
  HasStored, store_artifact-HasStored, store_artifact-IsConsistent,
}
use executorch_bencher.ArtifactStore.Keeps.{IsConsistent}
use executorch_bencher.ArtifactStore.Maintenance.{Entry, cleanup_abandoned_temp_files}
use executorch_bencher.ArtifactStore.Store.{
  StoredArtifact, copy_hashing, copy_loop, store_artifact, store_copied, land, after_rename,
  find_existing, parse_existing, find_or_insert, after_insert, new_row, hex_encode, hex_digit,
  nth_char, relative_path_for, relative_dir_for, as_i64,
}
use executorch_bencher.Tests.Disk.{Disk, disk, disk-IsMachine, hasher}
use executorch_bencher.Tests.Instance.{toy}

abbrev pub empty_disk : Disk
empty_disk = record { files = λ p. none; table = [] }

-- Two slices, and the end.
abbrev pub log : List (Result IoError (List ℕ))
log = ok (1 ∷ 2 ∷ []) ∷ ok (3 ∷ []) ∷ ok [] ∷ []

copied :
    (copy_hashing toy hasher disk zstd "/t/u" log (disk.create "/t/u" empty_disk).1).0
    ≡ ok ("0300000000000000000000000000000000000000000000000000000000000000", 3)
unfolding copy_hashing copy_loop hex_encode hex_digit nth_char
copied = refl

copy_hashing-HasCopied_example :
    HasCopied toy hasher disk disk-IsMachine empty_disk zstd "/t/u" log
      ("0300000000000000000000000000000000000000000000000000000000000000", 3)
      (copy_hashing toy hasher disk zstd "/t/u" log (disk.create "/t/u" empty_disk).1).1
copy_hashing-HasCopied_example =
    copy_hashing-HasCopied toy hasher disk disk-IsMachine empty_disk zstd "/t/u" log
      ("0300000000000000000000000000000000000000000000000000000000000000", 3) refl copied

abbrev stored : StoredArtifact toy
stored = record {
  id = "artifact-1";
  sha256 = "0300000000000000000000000000000000000000000000000000000000000000";
  size_bytes = pos 3;
  storage_path = "sha256/03/0300000000000000000000000000000000000000000000000000000000000000";
  compression = "zstd";
}

was_stored :
    (store_artifact toy hasher disk "/a" "/t" "u" "artifact-1" "2026" stdout none none log
      empty_disk).0
    ≡ ok stored
unfolding store_artifact store_copied copy_hashing copy_loop hex_encode hex_digit nth_char land
    after_rename find_existing parse_existing find_or_insert after_insert new_row relative_path_for
    relative_dir_for as_i64 compresses compression_as_str
was_stored = refl

store_artifact-HasStored_example :
    HasStored toy hasher disk disk-IsMachine "/a" stdout log stored
      (store_artifact toy hasher disk "/a" "/t" "u" "artifact-1" "2026" stdout none none log
        empty_disk).1
store_artifact-HasStored_example =
    store_artifact-HasStored toy hasher disk disk-IsMachine "/a" "/t" "u" "artifact-1" "2026" stdout
      none none log refl empty_disk stored tt was_stored

store_artifact-IsConsistent_example :
    IsConsistent disk "/a"
      (store_artifact toy hasher disk "/a" "/t" "u" "artifact-1" "2026" stdout none none log
        empty_disk).1
store_artifact-IsConsistent_example =
    store_artifact-IsConsistent toy hasher disk disk-IsMachine "/a" "/t" "u" "artifact-1" "2026"
      stdout none none log refl empty_disk tt

-- An old file and a recent one.
abbrev entries : List (Result IoError Entry)
entries =
    ok (record { path = "/t/old"; metadata = some (true, some 10) })
    ∷ ok (record { path = "/t/new"; metadata = some (true, some 95) })
    ∷ []

cleanup_abandoned_temp_files-Swept_example :
    Swept disk disk-IsMachine 100 50 "/t/new" 0 2 empty_disk
      (cleanup_abandoned_temp_files disk (ok entries) 100 50 empty_disk)
cleanup_abandoned_temp_files-Swept_example =
    cleanup_abandoned_temp_files-Swept disk disk-IsMachine 100 50 "/t/new" entries empty_disk
      (λ old e. cc ((eq_iff "/t/new" "/t/old").1 e), (λ (t, same, le) e. ground arith, tt))
