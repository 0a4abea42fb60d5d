-- ===== src/Domain/Digest.antt =====
-- The digest check: 64 bytes of lowercase hexadecimal are 64 characters, which is what the
-- database's `length(...) = 64` counts.
use Prim.Native.Char.{Char, code, len_utf8, len_utf8_def}
use mathlib.Core.Bool.{and-eq-true_iff}
use Prim.Native.String.{len, count}
use Prim.Native.String.len as bytes
use Prim.Native.String.count as chars
use executorch_bencher.Prelude.{ℕ, ◌==◌, String, ◌≡◌, refl, true, ◌<◌, arith, ok, ◌∙◌, sym}
use executorch_bencher.Prelude.Text.{all_chars}
use executorch_bencher.Domain.{Sha256Hex, is_lower_hex, is_sha256, sha256_try_from}

hex-lt : (c : ℕ) → is_lower_hex c ≡ true → c < 128
hex-lt c h = ground arith

pub len_utf8_hex : (c : Char) → is_lower_hex (code c) ≡ true → len_utf8 c ≡ 1
len_utf8_hex c h = len_utf8_def c ∙ ground (arith, hex-lt (code c) h)

count-eq-len : (s : String) → all_chars is_lower_hex s ≡ true → count s ≡ len s
count-eq-len String.[] h = refl
count-eq-len (String.◌∷◌ c s) h =
    let (here, later) = (and-eq-true_iff (is_lower_hex (code c)) (all_chars is_lower_hex s)).0 h in
    chars.cons c s ∙ omega (arith, count-eq-len s later, len_utf8_hex c here) ∙ sym (bytes.cons c s)

-- An accepted digest is the text itself, passes the check again, and has 64 characters.
pub sha256_try_from_lem :
    (value : String) (d : Sha256Hex)
    → sha256_try_from value ≡ ok d
    → (d.text ≡ value) × (is_sha256 value ≡ true) × (count value ≡ 64)
unfolding sha256_try_from is_sha256
sha256_try_from_lem value d h =
    let checked : is_sha256 value ≡ true = ground arith in
    let (size, hex) =
      (and-eq-true_iff (len value == 64) (all_chars is_lower_hex value)).0 checked in
    (ground arith, checked, count-eq-len value hex ∙ ground arith)

-- A text is accepted exactly if it passes the check.
pub sha256_try_from_of_is_sha256 :
    (value : String) → is_sha256 value ≡ true → sha256_try_from value ≡ ok (record { text = value })
unfolding sha256_try_from
sha256_try_from_of_is_sha256 value h = rw h
