-- ===== src/Models/Paths.antt =====
-- src/models_api.rs: `validate_register_path`, and what it uses of `std::path`.
use executorch_bencher.Prelude.{
  String, Bool, true, false, not, ◌&&◌, ◌||◌, Option, some, none, List, [], ◌∷◌, ◌==◌, Result, ok,
  err, if◌then◌else◌,
}
use Prim.Native.Char.{Char, code}
use executorch_bencher.Prelude.Text.{str_eq, is_empty, is_absolute}
use executorch_bencher.ApiError.{ApiError, plain, of_path, invalid_field}
use executorch_bencher.Artifacts.Names.{split_path, file_name}

-- A text at its last dot: what is before it and after it.
unfoldable pub dot_step : Char → String → Option (String × String) → Option (String × String)
dot_step c s (some (before, after)) = some (String.◌∷◌ c before, after)
dot_step c s none = if code c == b'.' then some ("", s) else none

unfoldable pub last_dot : String → Option (String × String)
unfolding dot_step
last_dot String.[] = none
last_dot (String.◌∷◌ c s) = dot_step c s (last_dot s)

-- `Path::extension`: what follows the last dot of the file name, unless the name begins with it.
unfoldable pub after_dot : Option (String × String) → Option String
after_dot none = none
after_dot (some (before, after)) = if is_empty before then none else some after

unfoldable pub extension_of : Option String → Option String
unfolding last_dot after_dot
extension_of none = none
extension_of (some name) = after_dot (last_dot name)

unfoldable pub extension : String → Option String
unfolding extension_of file_name
extension path = extension_of (file_name path)

abbrev pub is_pte : Option String → Bool
is_pte none = false
is_pte (some ext) = str_eq ext "pte"

-- The named components of a path without `..`, as a canonical one is.
unfoldable pub named : List String → List String
named [] = []
named (part ∷ rest) =
    let names = named rest in if is_empty part || str_eq part "." then names else part ∷ names

unfoldable pub components : String → List String
unfolding named split_path
components path = named ((split_path path).0 ∷ (split_path path).1)

unfoldable pub is_prefix : List String → List String → Bool
is_prefix [] names = true
is_prefix (a ∷ rest) [] = false
is_prefix (a ∷ rest) (b ∷ names) = str_eq a b && is_prefix rest names

-- `Path::starts_with` on canonical paths, which are absolute
unfoldable pub path_starts_with : String → String → Bool
unfolding components is_prefix
path_starts_with path root = is_prefix (components root) (components path)

-- `canonicalize` and `is_file` are the operating system's.
module _ (canonicalize : String → Option String) (is_file : String → Bool) where
  unfoldable pub beneath : Option String → String → Bool
  beneath none resolved = false
  beneath (some root) resolved = path_starts_with resolved root

  -- The loop over the roots.
  unfoldable pub find_root : List String → String → Result ApiError String
  unfolding beneath
  find_root [] resolved = err (
      invalid_field "path" (
        plain
          "path: must be beneath one of the server's registrable model roots (MODEL_REGISTER_ROOTS)"))
  find_root (root ∷ roots) resolved =
      if beneath (canonicalize root) resolved then ok resolved else find_root roots resolved

  unfoldable pub check_resolved : List String → String → Option String → Result ApiError String
  unfolding find_root
  check_resolved roots raw none =
      err (invalid_field "path" (of_path raw "does not exist or is not readable by the server"))
  check_resolved roots raw (some resolved) =
      if not (is_file resolved)
      then err (invalid_field "path" (of_path raw "is not a regular file"))
      else find_root roots resolved

  -- The roots are `config.model_register_roots`.
  unfoldable pub validate_register_path : List String → String → Result ApiError String
  unfolding extension check_resolved
  validate_register_path roots raw =
      if not (is_absolute raw)
      then err (invalid_field "path" (plain "path: must be an absolute path on the server"))
      else if not (is_pte (extension raw))
      then err (invalid_field "path" (plain "path: must name a .pte file"))
      else check_resolved roots raw (canonicalize raw)
