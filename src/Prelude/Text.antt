-- ===== src/Prelude/Text.antt =====
-- Texts: the tests of `str` that the source makes, over the native `String`.
use Prim.Native.Nat.{ℕ}
use Prim.Native.Char.{code}
use Prim.Native.String.{String, len}
pub use Prim.Native.String.{◌++◌ as ◌<>◌}
use mathlib.Core.Bool.{Bool, true, false, ◌&&◌, ◌||◌}
use executorch_bencher.Prelude.Tests.{leb, ◌==◌, if◌then◌else◌}
pub use text.Mathlib.Text.{◌==◌ as str_eq}
pub use text.Mathlib.TextEquality.{eq_iff}
pub use text.Mathlib.TextPositions.{eq_refl}

-- `s.chars().all(p)`
abbrev pub all_chars : (ℕ → Bool) → String → Bool
all_chars p String.[] = true
all_chars p (String.◌∷◌ c s) = p (code c) && all_chars p s

-- `char::is_whitespace`: Unicode's White_Space.
abbrev pub is_whitespace : ℕ → Bool
is_whitespace c =
    (leb 9 c && leb c 13)
    || c == 32
    || c == 0x85
    || c == 0xA0
    || c == 0x1680
    || (leb 0x2000 c && leb c 0x200A)
    || c == 0x2028
    || c == 0x2029
    || c == 0x202F
    || c == 0x205F
    || c == 0x3000

-- `s.trim().is_empty()`
abbrev pub is_blank : String → Bool
is_blank s = all_chars is_whitespace s

-- `s.is_empty()`
abbrev pub is_empty : String → Bool
is_empty s = len s == 0

-- `s.ends_with(c)` at an ASCII character
abbrev pub ends_with_char : ℕ → String → Bool
ends_with_char c String.[] = false
ends_with_char c (String.◌∷◌ d s) = if is_empty s then code d == c else ends_with_char c s

-- `Path::is_absolute` on Unix
abbrev pub is_absolute : String → Bool
is_absolute String.[] = false
is_absolute (String.◌∷◌ c s) = code c == b'/'

-- `Path::join` on Unix: an absolute path stands for itself.
abbrev pub path_join : String → String → String
path_join base path =
    if is_absolute path
    then path
    else if is_empty base || ends_with_char b'/' base
    then base <> path
    else base <> "/" <> path
