-- ===== src/RunsWrite/Kept.antt =====
-- What the validation steps of `to_new_run` leave as it was posted.
use mathlib.Core.Option
use executorch_bencher.Prelude.{
  ℤ, wrap_some, String, ◌≡◌, refl, subst, Option, none, some, Result, ok, err, ok_inj,
  map_err-eq-ok, transpose_map, arith, ap, map_err,
}
use executorch_bencher.Domain.{Sha256Hex, canonicalize, validate_json, validate_env_vars}
use executorch_bencher.Domain.Digest.{sha256_try_from_lem}
use executorch_bencher.Externals.{Externals}
use executorch_bencher.HostRules.{FieldError, non_negative}
use executorch_bencher.RunsWrite.Convert.{quote, sha, non_negative_f64}

pub non_negative-same : (f : String) (v r : ℤ) → non_negative f v ≡ ok r → r ≡ v
unfolding non_negative
non_negative-same f v r h = ground arith

pub sha-same : (f raw : String) (d : Sha256Hex) → sha f raw ≡ ok d → d.text ≡ raw
unfolding sha
sha-same f raw d h = (sha256_try_from_lem raw d (map_err-eq-ok (quote f) _ h)).0

pub wrap_some-same :
    {A B : Type 0} (g : B → A) (a : A) (m : Result FieldError B)
    → ((b : B) → m ≡ ok b → g b ≡ a)
    → (r : Option B) → wrap_some m ≡ ok r
    → Option.map g r ≡ some a
wrap_some-same g a (err e) k r h = cc
wrap_some-same g a (ok b) k r h =
    subst (λ o. Option.map g o ≡ some a) (ok_inj h) (ap some (k b refl))

pub transpose_map-same :
    {A B : Type 0} (g : B → A) (f : A → Result FieldError B)
    → ((a : A) (b : B) → f a ≡ ok b → g b ≡ a)
    → (o : Option A) (r : Option B) → transpose_map f o ≡ ok r
    → Option.map g r ≡ o
transpose_map-same g f k none r h = subst (λ q. Option.map g q ≡ none) (ok_inj h) refl
transpose_map-same g f k (some a) r h = wrap_some-same g a (f a) (k a) r h

module _ (x : Externals) where
  open x use {F64, Json, json_display, json_to_string, json_from_str, json_to_string-display}

  -- What `Display` writes of the document parses to the document. `serde_json` promises so but for
  -- fractional numbers, which it may read with an error in the last place.
  abbrev pub IsReadBack : Json → Type 0
  IsReadBack v = json_from_str (json_display v) ≡ some v

  pub validate_json-same :
      (f : String) (v : Json) (s : String)
      → IsReadBack v
      → map_err (quote f) (validate_json x (json_display v)) ≡ ok s
      → s ≡ json_display v
  unfolding validate_json canonicalize
  validate_json-same f v s back h = ground (arith, back, json_to_string-display v)

  pub validate_env_vars-same :
      (f : String) (v : Json) (s : String)
      → IsReadBack v
      → map_err (quote f) (validate_env_vars x (json_display v)) ≡ ok s
      → s ≡ json_display v
  unfolding validate_env_vars canonicalize
  validate_env_vars-same f v s back h = ground (arith, back, json_to_string-display v)

  pub non_negative_f64-same : (f : String) (v r : F64) → non_negative_f64 x f v ≡ ok r → r ≡ v
  unfolding non_negative_f64
  non_negative_f64-same f v r h = ground arith
