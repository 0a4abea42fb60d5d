-- ===== src/Tests/Serving.antt =====
-- Uploads, limits and the names of downloads.
use executorch_bencher.Prelude.{pos, some, none, ◌≡◌, ◌⊎◌, refl, ok, [], ◌∷◌, List, Result, arith}
use executorch_bencher.ArtifactKind.{prompt, uncompressed}
use executorch_bencher.ArtifactStore.{IoError, ArtifactRecord}
use executorch_bencher.ArtifactStore.Copy.{bytes_read}
use executorch_bencher.ArtifactStore.Machine.{Bytes}
use executorch_bencher.Artifacts.Encoding.{
  plain, percent_decode, percent_decode-percent_encode_utf8,
}
use executorch_bencher.Artifacts.Handlers.{App, upload_artifact}
use executorch_bencher.Artifacts.Headers.{IsAttachment, content_disposition-IsAttachment}
use executorch_bencher.Artifacts.Limits.{limited, poll_read, within, bytes_read-limited}
use executorch_bencher.Artifacts.Names.{
  content_disposition, download_basename, percent_encode_utf8, utf8,
}
use executorch_bencher.Artifacts.Uploads.{IsTurnedAway, IsUploaded, upload_artifact-cases}
use executorch_bencher.Events.{empty_bus}
use executorch_bencher.Tests.Disk.{disk, disk-IsMachine, hasher}
use executorch_bencher.Tests.Instance.{toy}
use executorch_bencher.Tests.Request.{digest}

abbrev body : List (Result IoError Bytes)
body = ok (1 ∷ 2 ∷ []) ∷ ok (3 ∷ []) ∷ []

abbrev start : App toy disk
start = record { state = record { files = λ p. none; table = [] }; events = empty_bus }

upload_artifact-cases_example :
    IsTurnedAway toy hasher disk disk-IsMachine "/a" "/t" 100 "u" "artifact-1" "2026" start (
      upload_artifact toy hasher disk "/a" "/t" 100 "u" "artifact-1" "2026" "stdout" none none body
        start)
    ⊎ IsUploaded toy hasher disk disk-IsMachine "/a" "/t" 100 "u" "artifact-1" "2026" "stdout" body
        start
        (upload_artifact toy hasher disk "/a" "/t" 100 "u" "artifact-1" "2026" "stdout" none none
          body start)
upload_artifact-cases_example =
    upload_artifact-cases toy hasher disk disk-IsMachine "/a" "/t" 100 "u" "artifact-1" "2026"
      "stdout" none none body start refl (omega arith, (omega arith, tt)) tt

bytes_read-limited_example : bytes_read (limited 2 0 body) ≡ within 2 0 (bytes_read body)
bytes_read-limited_example = bytes_read-limited 2 body (omega arith, (omega arith, tt))

-- Three bytes are more than two.
cut_off : bytes_read (limited 2 0 body) ≡ none
unfolding limited poll_read
cut_off = refl

abbrev record_ : ArtifactRecord toy
record_ = record {
  id = "artifact-1";
  sha256 = digest;
  size_bytes = pos 3;
  kind = prompt;
  original_filename = some "../etc/pass\"wd";
  storage_path = "sha256/01/0123";
  media_type = none;
  compression = uncompressed;
  created_at = "2026";
}

content_disposition-IsAttachment_example :
    IsAttachment (download_basename record_) (content_disposition record_)
content_disposition-IsAttachment_example = content_disposition-IsAttachment record_

percent_decode-percent_encode_utf8_example :
    percent_decode plain (percent_encode_utf8 "é b") ≡ utf8 "é b"
percent_decode-percent_encode_utf8_example = percent_decode-percent_encode_utf8 "é b"
