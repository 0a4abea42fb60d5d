-- ===== src/ArtifactKind.antt =====
-- src/artifact_store.rs: the kinds of artifacts and the ways their bytes are stored.
use executorch_bencher.Prelude.{
  String, Bool, true, false, ◌≡◌, refl, arith, Result, ok, err, if◌then◌else◌,
}
use executorch_bencher.Prelude.Text.{str_eq, eq_iff}

pub data ArtifactKind : Type 0 where
  prompt stdout stderr output crash_log logcat correctness_report : ArtifactKind

unfoldable pub kind_as_str : ArtifactKind → String
kind_as_str prompt = "prompt"
kind_as_str stdout = "stdout"
kind_as_str stderr = "stderr"
kind_as_str output = "output"
kind_as_str crash_log = "crash_log"
kind_as_str logcat = "logcat"
kind_as_str correctness_report = "correctness_report"

unfoldable pub compresses : ArtifactKind → Bool
compresses prompt = false
compresses stdout = true
compresses stderr = true
compresses output = false
compresses crash_log = true
compresses logcat = true
compresses correctness_report = true

-- `invalid artifact kind`, `invalid compression mode`
pub data InvalidName : Type 0 where
  invalid_kind invalid_compression : String → InvalidName

unfoldable pub kind_try_from : String → Result InvalidName ArtifactKind
kind_try_from value =
    if str_eq value "prompt"
    then ok prompt
    else if str_eq value "stdout"
    then ok stdout
    else if str_eq value "stderr"
    then ok stderr
    else if str_eq value "output"
    then ok output
    else if str_eq value "crash_log"
    then ok crash_log
    else if str_eq value "logcat"
    then ok logcat
    else if str_eq value "correctness_report"
    then ok correctness_report
    else err (invalid_kind value)

pub data Compression : Type 0 where
  uncompressed zstd : Compression

unfoldable pub compression_as_str : Compression → String
compression_as_str uncompressed = "none"
compression_as_str zstd = "zstd"

unfoldable pub compression_try_from : String → Result InvalidName Compression
compression_try_from value =
    if str_eq value "none"
    then ok uncompressed
    else if str_eq value "zstd"
    then ok zstd
    else err (invalid_compression value)

pub kind_try_from-as_str : (k : ArtifactKind) → kind_try_from (kind_as_str k) ≡ ok k
unfolding kind_as_str kind_try_from
kind_try_from-as_str prompt = refl
kind_try_from-as_str _ = refl

pub kind_as_str-try_from :
    (value : String) (k : ArtifactKind) → kind_try_from value ≡ ok k → kind_as_str k ≡ value
unfolding kind_as_str kind_try_from
kind_as_str-try_from value k h = ground (
  arith,
  eq_iff value "prompt",
  eq_iff value "stdout",
  eq_iff value "stderr",
  eq_iff value "output",
  eq_iff value "crash_log",
  eq_iff value "logcat",
  eq_iff value "correctness_report",
)

pub compression_try_from-as_str :
    (c : Compression) → compression_try_from (compression_as_str c) ≡ ok c
unfolding compression_as_str compression_try_from
compression_try_from-as_str uncompressed = refl
compression_try_from-as_str zstd = refl
