-- ===== src/Config/Vars.antt =====
-- src/config.rs: the readers of single variables. `env` is the process's environment.
use Prim.Native.Char.{Char, code}
use executorch_bencher.Prelude.{
  ℕ, String, Bool, true, false, Option, some, none, List, [], ◌∷◌, ltb, ◌==◌, ◌^◌, Result, ok, err,
  ◌>>=◌, if◌then◌else◌,
}
use executorch_bencher.Prelude.Text.{is_blank, is_empty, is_whitespace, path_join}
use executorch_bencher.ImportLog.Parse.{digits}

-- `env::var`
pub data EnvVar : Type 0 where
  not_present not_unicode : EnvVar
  value : String → EnvVar

-- The texts of `ConfigError`, with the name of the variable or the path.
pub data ConfigError : Type 0 where
  is_not_set is_set_empty not_utf8 not_an_integer has_empty_entry : String → ConfigError
  bad_listen_addr empty_listen_addr : ConfigError
  not_a_directory no_index : String → ConfigError
  unusable : String → String → String → ConfigError

-- `str::trim`
unfoldable pub trim_left : String → String
trim_left String.[] = ""
trim_left (String.◌∷◌ c s) =
    let rest = trim_left s in if is_whitespace (code c) then rest else String.◌∷◌ c s

unfoldable pub trim_right : String → String
trim_right String.[] = ""
trim_right (String.◌∷◌ c s) =
    let rest = trim_right s in
    if is_empty rest
    then (if is_whitespace (code c) then "" else String.◌∷◌ c rest)
    else String.◌∷◌ c rest

unfoldable pub trim : String → String
unfolding trim_left trim_right
trim s = trim_right (trim_left s)

-- `value.split(':')`: the first part and the others.
unfoldable pub cut : Char → Bool → String × List String → String × List String
cut c true (first, rest) = ("", first ∷ rest)
cut c false (first, rest) = (String.◌∷◌ c first, rest)

unfoldable pub split_colon : String → String × List String
unfolding cut
split_colon String.[] = ("", [])
split_colon (String.◌∷◌ c s) = cut c (code c == b':') (split_colon s)

-- `parse::<u64>`, and `parse::<usize>` on 64 bits
unfoldable pub below_u64 : Option ℕ → Option ℕ
below_u64 none = none
below_u64 (some n) = if ltb n (2 ^ 64) then some n else none

unfoldable pub parse_u64 : String → Option ℕ
unfolding below_u64 digits
parse_u64 String.[] = none
parse_u64 (String.◌∷◌ c s) =
    if code c == b'+' then below_u64 (digits s) else below_u64 (digits (String.◌∷◌ c s))

module _ (env : String → EnvVar) where
  unfoldable pub required_of : String → EnvVar → Result ConfigError String
  required_of name not_present = err (is_not_set name)
  required_of name not_unicode = err (is_not_set name)
  required_of name (value v) = if is_blank v then err (is_set_empty name) else ok v

  unfoldable pub required_var : String → Result ConfigError String
  unfolding required_of
  required_var name = required_of name (env name)

  unfoldable pub path_of : String → String → String → EnvVar → Result ConfigError String
  path_of name data_root leaf not_present = ok (path_join data_root leaf)
  path_of name data_root leaf not_unicode = err (not_utf8 name)
  path_of name data_root leaf (value v) = if is_blank v then err (is_set_empty name) else ok v

  unfoldable pub path_var_or_default : String → String → String → Result ConfigError String
  unfolding path_of
  path_var_or_default name data_root leaf = path_of name data_root leaf (env name)

  unfoldable pub optional_path_of : String → EnvVar → Result ConfigError (Option String)
  optional_path_of name not_present = ok none
  optional_path_of name not_unicode = err (not_utf8 name)
  optional_path_of name (value v) = if is_blank v then err (is_set_empty name) else ok (some v)

  unfoldable pub optional_path_var : String → Result ConfigError (Option String)
  unfolding optional_path_of
  optional_path_var name = optional_path_of name (env name)

  unfoldable pub number_or : String → Option ℕ → Result ConfigError ℕ
  number_or name none = err (not_an_integer name)
  number_or name (some n) = ok n

  unfoldable pub u64_of : String → ℕ → EnvVar → Result ConfigError ℕ
  unfolding number_or parse_u64 trim
  u64_of name default not_present = ok default
  u64_of name default not_unicode = err (not_utf8 name)
  u64_of name default (value v) =
      if is_blank v then err (is_set_empty name) else number_or name (parse_u64 (trim v))

  unfoldable pub parse_u64_var : String → ℕ → Result ConfigError ℕ
  unfolding u64_of
  parse_u64_var name default = u64_of name default (env name)

  -- The same body at `usize`, which has 64 bits.
  unfoldable pub parse_usize_var : String → ℕ → Result ConfigError ℕ
  unfolding u64_of
  parse_usize_var name default = u64_of name default (env name)

  unfoldable pub entry_of : String → String → Result ConfigError String
  entry_of name entry = if is_empty entry then err (has_empty_entry name) else ok entry

  unfoldable pub entries_of : String → List String → Result ConfigError (List String)
  unfolding entry_of trim
  entries_of name [] = ok []
  entries_of name (entry ∷ rest) = do
    path ← entry_of name (trim entry)
    paths ← entries_of name rest
    ok (path ∷ paths)

  unfoldable pub path_list_of : String → String → EnvVar → Result ConfigError (List String)
  unfolding entries_of split_colon
  path_list_of name default not_present = ok (default ∷ [])
  path_list_of name default not_unicode = ok (default ∷ [])
  path_list_of name default (value v) =
      if is_blank v
      then err (is_set_empty name)
      else entries_of name ((split_colon v).0 ∷ (split_colon v).1)

  unfoldable pub path_list_var : String → String → Result ConfigError (List String)
  unfolding path_list_of
  path_list_var name default = path_list_of name default (env name)
