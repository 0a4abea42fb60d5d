-- ===== src/RunsWrite/Parts.antt =====
-- What each validation step of `to_new_run` guarantees of the value that it passes on.
use Prim.Native.String.{count}
use mathlib.Core.Option
use executorch_bencher.Prelude.{
  ℤ, String, true, not, ◌≡◌, refl, arith, Option, Result, ok, err, map_err, map_err-eq-ok,
  transpose_map, transpose_map_lem, ◌>>=◌, is_negative, ◌==◌, Option-cases, inl, inr, if◌then◌else◌,
}
use executorch_bencher.Domain.{
  InvalidValue, env_vars_not_object, Sha256Hex, canonicalize, validate_command_args, validate_json,
  validate_env_vars,
}
use executorch_bencher.Domain.Digest.{sha256_try_from_lem}
use executorch_bencher.Externals.{Externals}
use executorch_bencher.Host.Columns.{null_or}
use executorch_bencher.HostRules.{non_negative}
use executorch_bencher.Runs.RoundTrip.{IsDigest, IsDigest?}
use executorch_bencher.RunsWrite.Convert.{quote, sha, non_negative_f64}

pub non_negative_lem : (f : String) (v r : ℤ) → non_negative f v ≡ ok r → not (is_negative r) ≡ true
unfolding non_negative
non_negative_lem f v r h = ground arith

pub sha_lem :
    (f raw : String) (d : Sha256Hex) → sha f raw ≡ ok d → IsDigest d × ((count d.text == 64) ≡ true)
unfolding sha
sha_lem f raw d h =
    let (same, checked, size) = sha256_try_from_lem raw d (map_err-eq-ok (quote f) _ h) in
    (rw same checked, rw same (ground (arith, size)))

pub sha?_lem :
    (f : String) (raw : Option String) (d : Option Sha256Hex)
    → transpose_map (sha f) raw ≡ ok d
    → IsDigest? d × (null_or (λ s. count s == 64) (Option.map (λ s. s.text) d) ≡ true)
sha?_lem f raw =
    transpose_map_lem
      (λ (d : Option Sha256Hex).
        IsDigest? d × (null_or (λ s. count s == 64) (Option.map (λ s. s.text) d) ≡ true))
      (sha f) raw (tt, refl) (λ r d h. sha_lem f r d h)

module _ (x : Externals) where
  open x use {
    F64, Json, json_is_object, json_valid, json_to_string, json_from_str, json_display,
    json_to_string-display, json_valid-display, json_valid-strings, strings_to_string,
    strings_from_str, is_finite, f64_lt, f64_le, f64_zero, f64_le_of_not-lt,
  }

  canonicalize_lem :
      (raw : String) (v : Externals.Json x) (s : String)
      → canonicalize x raw ≡ ok (v, s)
      → json_valid s ≡ true
  unfolding canonicalize
  canonicalize_lem raw v s h = elim (Option-cases (json_from_str raw)) [
    | inl e ↦ absurd (ground arith)
    | inr (w, e) ↦ ground (arith, json_to_string-display w, json_valid-display w)
  ]

  pub validate_json_lem :
      (f raw s : String) → map_err (quote f) (validate_json x raw) ≡ ok s → json_valid s ≡ true
  unfolding validate_json
  validate_json_lem f raw s h = go (canonicalize x raw) refl h
    where
      go :
          (m : Result InvalidValue (Json × String))
          → canonicalize x raw ≡ m
          → map_err (quote f) (m >>= λ p. ok p.1) ≡ ok s
          → json_valid s ≡ true
      go (ok (v, t)) e q = ground (arith, canonicalize_lem raw v t e)
      go (err e) e' q = cc

  pub validate_env_vars_lem :
      (f raw s : String) → map_err (quote f) (validate_env_vars x raw) ≡ ok s → json_valid s ≡ true
  unfolding validate_env_vars
  validate_env_vars_lem f raw s h = go (canonicalize x raw) refl h
    where
      go :
          (m : Result InvalidValue (Json × String))
          → canonicalize x raw ≡ m
          → map_err
              (quote f)
              (m >>= λ p. if json_is_object p.0 then ok p.1 else err env_vars_not_object)
            ≡ ok s
          → json_valid s ≡ true
      go (ok (v, t)) e q = ground (arith, canonicalize_lem raw v t e)
      go (err e) e' q = cc

  pub validate_command_args_lem :
      (f raw s : String)
      → map_err (quote f) (validate_command_args x raw) ≡ ok s
      → json_valid s ≡ true
  unfolding validate_command_args
  validate_command_args_lem f raw s h = elim (Option-cases (strings_from_str raw)) [
    | inl e ↦ absurd (ground arith)
    | inr (l, e) ↦ json_valid-strings l s (ground arith)
  ]

  pub non_negative_f64_lem :
      (f : String) (v r : F64) → non_negative_f64 x f v ≡ ok r → f64_le f64_zero r ≡ true
  unfolding non_negative_f64
  non_negative_f64_lem f v r h = ground (arith, f64_le_of_not-lt v)
