-- ===== src/ArtifactStore/Paths.antt =====
-- The texts of digests and the paths made of them.
use Prim.Native.Char.{Char, code}
use Prim.Native.Nat.{Ordering}
use Prim.Native.String.{len, slice, fits}
use Prim.Native.String.len as bytes
use Prim.Native.String.slice as slices
use mathlib.Core.Bool.{and-eq-true_iff}
use text.Mathlib.Text.{starts_with}
use text.Mathlib.TextLemmas.{nil-append, cons-append}
use text.Mathlib.TextPositions.{starts_with-append}
use executorch_bencher.Prelude.{
  ℕ, zero, suc, ◌*◌, ◌/◌, ◌%◌, ◌==◌, String, true, false, ◌≡◌, refl, ap, [], ◌∷◌, arith,
}
use executorch_bencher.Prelude.Lists.{length}
use executorch_bencher.Prelude.Text.{all_chars, path_join, is_absolute, ◌<>◌}
use executorch_bencher.Domain.{is_lower_hex, is_sha256}
use executorch_bencher.Domain.Digest.{len_utf8_hex}
use executorch_bencher.ArtifactStore.Machine.{Bytes, Hasher}
use executorch_bencher.ArtifactStore.Store.{
  nth_char, hex_digit, hex_encode, relative_dir_for, relative_path_for,
}

nth_char_hex :
    (s : String) (n : ℕ)
    → all_chars is_lower_hex s ≡ true
    → is_lower_hex (code (nth_char s n)) ≡ true
unfolding nth_char
nth_char_hex String.[] n h = refl
nth_char_hex (String.◌∷◌ c s) zero h = ((and-eq-true_iff _ _).0 h).0
nth_char_hex (String.◌∷◌ c s) (suc n) h = nth_char_hex s n ((and-eq-true_iff _ _).0 h).1

hex_digit_hex : (n : ℕ) → is_lower_hex (code (hex_digit n)) ≡ true
unfolding hex_digit
hex_digit_hex n = nth_char_hex "0123456789abcdef" n refl

hex_encode_all : (b : Bytes) → all_chars is_lower_hex (hex_encode b) ≡ true
unfolding hex_encode
hex_encode_all [] = refl
hex_encode_all (b ∷ bs) =
    (and-eq-true_iff _ _).1
      (hex_digit_hex (b / 16), (and-eq-true_iff _ _).1 (hex_digit_hex (b % 16), hex_encode_all bs))

len-hex_encode : (b : Bytes) → len (hex_encode b) ≡ 2 * length b
unfolding hex_encode
len-hex_encode [] = refl
len-hex_encode (b ∷ bs) = omega (
  arith,
  bytes.cons (hex_digit (b / 16)) (String.◌∷◌ (hex_digit (b % 16)) (hex_encode bs)),
  bytes.cons (hex_digit (b % 16)) (hex_encode bs),
  len_utf8_hex (hex_digit (b / 16)) (hex_digit_hex (b / 16)),
  len_utf8_hex (hex_digit (b % 16)) (hex_digit_hex (b % 16)),
  len-hex_encode bs,
)

-- The text of a digest is 64 digits of lowercase hexadecimal.
pub is_sha256-finalize :
    (h : Hasher) (d : Hasher.Sha256 h) → is_sha256 (hex_encode (h.finalize d)) ≡ true
unfolding is_sha256
is_sha256-finalize h d = (and-eq-true_iff _ _).1 (
  ground (arith, len-hex_encode (h.finalize d), h.finalize-length d),
  hex_encode_all (h.finalize d),
)

-- A path that is not absolute is put beneath its base.
pub starts_with-path_join :
    (base path : String) → is_absolute path ≡ false → starts_with (path_join base path) base ≡ true
starts_with-path_join base path h =
    ground (arith, starts_with-append base path, starts_with-append base ("/" <> path))

is_absolute-fits :
    (o : Ordering) (c : Char) (s : String)
    → (code c == b'/') ≡ false
    → is_absolute (fits o c s) ≡ false
is_absolute-fits Ordering.lt c s h = h
is_absolute-fits Ordering.eq c s h = h
is_absolute-fits Ordering.gt c s h = refl

is_absolute-slice : (v : String) (n : ℕ) → is_absolute v ≡ false → is_absolute (slice v 0 n) ≡ false
is_absolute-slice String.[] n h = rw slices.nil
is_absolute-slice (String.◌∷◌ c s) n h = rw slices.cons-zero (is_absolute-fits _ c _ h)

is_absolute-append :
    (c : Char) (s t : String) → is_absolute (String.◌∷◌ c s <> t) ≡ is_absolute (String.◌∷◌ c s)
is_absolute-append c s t = ap is_absolute (cons-append c s t)

is_absolute-path_join :
    (base path : String)
    → is_absolute base ≡ false
    → is_absolute path ≡ false
    → is_absolute (path_join base path) ≡ false
is_absolute-path_join String.[] path h k = ground (arith, nil-append path)
is_absolute-path_join (String.◌∷◌ c s) path h k =
    ground (arith, is_absolute-append c s path, is_absolute-append c s ("/" <> path))

is_absolute-hex :
    (c : Char) (s : String) → is_lower_hex (code c) ≡ true → is_absolute (String.◌∷◌ c s) ≡ false
is_absolute-hex c s h = ground arith

is_absolute-digest : (v : String) → is_sha256 v ≡ true → is_absolute v ≡ false
unfolding is_sha256
is_absolute-digest String.[] h = refl
is_absolute-digest (String.◌∷◌ c s) h =
    is_absolute-hex c s ((and-eq-true_iff _ _).0 ((and-eq-true_iff _ _).0 h).1).0

-- A digest names a relative path.
pub relative_path-relative :
    (v : String) → is_sha256 v ≡ true → is_absolute (relative_path_for v) ≡ false
unfolding relative_path_for relative_dir_for
relative_path-relative v h =
    let plain = is_absolute-digest v h in
    is_absolute-path_join (path_join "sha256" (slice v 0 2)) v
      (is_absolute-path_join "sha256" (slice v 0 2) refl (is_absolute-slice v 2 plain)) plain
