-- ===== src/Artifacts/Names.antt =====
-- src/artifacts_api.rs: the names of downloads, in the header `Content-Disposition`.
use Prim.Native.Nat.{compare, Ordering}
use Prim.Native.Char.{Char, char, code, IsScalar}
use Prim.Native.String.{slice}
use executorch_bencher.Prelude.{
  ℕ, ◌+◌, ◌/◌, ◌%◌, String, Bool, true, false, not, ◌&&◌, ◌||◌, Option, some, none, List, [], ◌∷◌,
  ◌++◌, ltb, leb, ◌==◌, if◌then◌else◌, ◌≡◌, arith,
}
use executorch_bencher.Prelude.Text.{◌<>◌, str_eq, is_empty, is_blank}
use executorch_bencher.Externals.{Externals}
use executorch_bencher.ArtifactKind.{kind_as_str}
use executorch_bencher.ArtifactStore.{ArtifactRecord}
use executorch_bencher.ArtifactStore.Machine.{Bytes}
use executorch_bencher.ArtifactStore.Store.{nth_char}

-- The components of a path, at its slashes.
unfoldable pub split_step : Char → Bool → String × List String → String × List String
split_step c true (first, rest) = ("", first ∷ rest)
split_step c false (first, rest) = (String.◌∷◌ c first, rest)

unfoldable pub split_path : String → String × List String
unfolding split_step
split_path String.[] = ("", [])
split_path (String.◌∷◌ c s) = split_step c (code c == b'/') (split_path s)

-- The last component that is neither empty nor `.`.
unfoldable pub last_component : Option String → List String → Option String
last_component found [] = found
last_component found (name ∷ rest) =
    last_component (if is_empty name || str_eq name "." then found else some name) rest

-- `Path::file_name`: the last component, unless it is `..`.
unfoldable pub unless_parent : Option String → Option String
unless_parent none = none
unless_parent (some name) = if str_eq name ".." then none else some name

unfoldable pub file_name : String → Option String
unfolding split_path last_component unless_parent
file_name name =
    let (first, rest) = split_path name in unless_parent (last_component none (first ∷ rest))

unfoldable pub file_name_of : Option String → Option String
unfolding file_name
file_name_of none = none
file_name_of (some name) = file_name name

unfoldable pub or_else_name : String → Option String → String
or_else_name other none = other
or_else_name other (some name) = if is_empty name then other else name

unfoldable pub download_basename : {x : Externals} → ArtifactRecord x → String
unfolding file_name_of or_else_name
download_basename record_ =
    or_else_name (kind_as_str record_.kind <> "-" <> slice record_.sha256 0 12 <> ".bin")
      (file_name_of record_.original_filename)

-- `(c.is_ascii_graphic() || c == ' ') && !matches!(c, '"' | '\\' | ';')`
abbrev pub is_safe : ℕ → Bool
is_safe c = leb 0x20 c && leb c 0x7E && not (c == b'"' || c == b'\\' || c == b';')

unfoldable pub sanitize : String → String
sanitize String.[] = ""
sanitize (String.◌∷◌ c s) = String.◌∷◌ (if is_safe (code c) then c else "_") (sanitize s)

-- `trim_matches('_')`
unfoldable pub trim_start : String → String
trim_start String.[] = ""
trim_start (String.◌∷◌ c s) =
    let rest = trim_start s in if code c == b'_' then rest else String.◌∷◌ c s

unfoldable pub trim_end : String → String
trim_end String.[] = ""
trim_end (String.◌∷◌ c s) =
    let rest = trim_end s in if is_empty rest && code c == b'_' then "" else String.◌∷◌ c rest

unfoldable pub ascii_filename : String → String
unfolding sanitize trim_start trim_end
ascii_filename name =
    let sanitized = sanitize name in
    if is_blank (trim_end (trim_start sanitized)) then "download.bin" else sanitized

-- The bytes of a character in UTF-8.
unfoldable pub utf8_char : ℕ → Bytes
utf8_char c =
    if ltb c 0x80
    then (c ∷ [])
    else if ltb c 0x800
    then ((0xC0 + c / 64) ∷ (0x80 + c % 64) ∷ [])
    else if ltb c 0x10000
    then ((0xE0 + c / 4096) ∷ (0x80 + c / 64 % 64) ∷ (0x80 + c % 64) ∷ [])
    else ((0xF0 + c / 262144)
        ∷ (0x80 + c / 4096 % 64)
        ∷ (0x80 + c / 64 % 64)
        ∷ (0x80 + c % 64)
        ∷ [])

-- `name.bytes()`
unfoldable pub utf8 : String → Bytes
unfolding utf8_char
utf8 String.[] = []
utf8 (String.◌∷◌ c s) = utf8_char (code c) ++ utf8 s

abbrev pub is_alphanumeric : ℕ → Bool
is_alphanumeric b =
    (leb b'0' b && leb b b'9') || (leb b'A' b && leb b b'Z') || (leb b'a' b && leb b b'z')

abbrev pub is_unreserved : ℕ → Bool
is_unreserved b = is_alphanumeric b || b == b'-' || b == b'.' || b == b'_' || b == b'~'

pub is_scalar : (n : ℕ) → compare (n % 128) 55296 ≡ Ordering.lt → IsScalar (n % 128)
is_scalar n h = rw h tt

pub is_ascii : (n : ℕ) → compare (n % 128) 55296 ≡ Ordering.lt
is_ascii n = ground arith

-- `byte as char` at an ASCII byte
unfoldable pub byte_as_char : ℕ → Char
byte_as_char byte = char (byte % 128) (is_scalar byte (is_ascii byte))

-- A digit of `{:X}`.
unfoldable pub upper_hex_digit : ℕ → Char
unfolding nth_char
upper_hex_digit n = nth_char "0123456789ABCDEF" n

-- The loop over the bytes.
unfoldable pub percent_encode : Bytes → String
unfolding byte_as_char upper_hex_digit
percent_encode [] = ""
percent_encode (byte ∷ bytes) =
    let rest = percent_encode bytes in
    if is_unreserved byte
    then String.◌∷◌ (byte_as_char byte) rest
    else String.◌∷◌ "%"
        (String.◌∷◌ (upper_hex_digit (byte / 16)) (String.◌∷◌ (upper_hex_digit (byte % 16)) rest))

unfoldable pub percent_encode_utf8 : String → String
unfolding percent_encode utf8
percent_encode_utf8 name = percent_encode (utf8 name)

unfoldable pub content_disposition : {x : Externals} → ArtifactRecord x → String
unfolding download_basename ascii_filename percent_encode_utf8
content_disposition record_ =
    let original = download_basename record_ in
    let ascii = ascii_filename original in
    if str_eq ascii original
    then "attachment; filename=\"" <> ascii <> "\""
    else "attachment; filename=\""
      <> ascii
      <> "\"; filename*=UTF-8''"
      <> percent_encode_utf8 original
