-- ===== src/Runs/Cursor.antt =====
-- src/runs.rs, `RunCursor::encode` and `decode`: the position of a page as a token.
use Prim.Native.Char.{Char, code}
use Prim.Native.String.{String}
use text.Mathlib.TextLemmas.{nil-append, cons-append}
use mathlib.Core.Bool.{and-eq-true_iff}
use executorch_bencher.Prelude.{
  ℕ, Bool, true, not, ◌≡◌, refl, Option, none, some, ◌==◌, Result, ok, ◌>>=◌, ok_or, if◌then◌else◌,
  Bool-cases, inl, inr, arith,
}
use executorch_bencher.Prelude.Text.{◌<>◌, all_chars}
use executorch_bencher.Externals.{Externals}
use executorch_bencher.Runs.Pages.{RunCursor}

pub data InvalidCursor : Type 0 where
  not_base64url not_utf8 missing_separator bad_timestamp bad_run_id : InvalidCursor

-- `to_rfc3339_opts(Nanos, true)` and `parse_from_rfc3339` of `chrono`, `URL_SAFE_NO_PAD` of
-- `base64`, `str::as_bytes` and `String::from_utf8`.
pub record Codec (x : Externals) : Type 1 where
  pub rfc3339 : Externals.DateTime x → String
  pub parse_rfc3339 : String → Option (Externals.DateTime x)
  pub Bytes : Type 0
  pub as_bytes : String → Bytes
  pub from_utf8 : Bytes → Option String
  pub base64 : Bytes → String
  pub base64_decode : Bytes → Option Bytes

abbrev pub is_not_bar : ℕ → Bool
is_not_bar c = not (c == b'|')

-- What they document: each reader reads back what its writer wrote, and a timestamp has no `|`.
pub record IsCodec {x : Externals} (c : Codec x) : Type 0 where
  pub parse_rfc3339-rfc3339 : (t : Externals.DateTime x) → c.parse_rfc3339 (c.rfc3339 t) ≡ some t
  pub rfc3339-bar : (t : Externals.DateTime x) → all_chars is_not_bar (c.rfc3339 t) ≡ true
  pub base64_decode-base64 :
      (b : Codec.Bytes c) → c.base64_decode (c.as_bytes (c.base64 b)) ≡ some b
  pub from_utf8-as_bytes : (s : String) → c.from_utf8 (c.as_bytes s) ≡ some s

abbrev with_first : Char → Option (String × String) → Option (String × String)
with_first c none = none
with_first c (some (a, b)) = some (String.◌∷◌ c a, b)

-- `raw.split_once('|')`
unfoldable pub split_once : String → Option (String × String)
split_once String.[] = none
split_once (String.◌∷◌ c s) =
    let rest = split_once s in if code c == b'|' then some ("", s) else with_first c rest

module _ {x : Externals} (k : Codec x) where
  open x use {uuid_to_string, uuid_parse_str, uuid_parse_str-to_string}

  unfoldable pub encode : RunCursor x → String
  encode c = k.base64 (k.as_bytes (k.rfc3339 c.started_at <> "|" <> uuid_to_string c.id))

  unfoldable pub decode : String → Result InvalidCursor (RunCursor x)
  unfolding split_once
  decode token = do
    bytes ← ok_or not_base64url (k.base64_decode (k.as_bytes token))
    raw ← ok_or not_utf8 (k.from_utf8 bytes)
    (ts, id_text) ← ok_or missing_separator (split_once raw)
    started_at ← ok_or bad_timestamp (k.parse_rfc3339 ts)
    id ← ok_or bad_run_id (uuid_parse_str id_text)
    ok (record { started_at = started_at; id = id })

  split_once-bar :
      (a b : String) → all_chars is_not_bar a ≡ true → split_once (a <> "|" <> b) ≡ some (a, b)
  unfolding split_once
  split_once-bar String.[] b h = rw (nil-append ("|" <> b), cons-append, nil-append b) refl
  split_once-bar (String.◌∷◌ c a) b h = elim (Bool-cases (code c == b'|')) [
    | inl bar ↦ ground arith
    | inr none_here ↦
        rw
          (
            cons-append,
            none_here,
            split_once-bar a b
                ((and-eq-true_iff (is_not_bar (code c)) (all_chars is_not_bar a)).0 h).1,
          )
          refl
  ]

  -- A cursor that was handed out as a token is read back from it.
  pub decode-encode : IsCodec k → (c : RunCursor x) → decode (encode c) ≡ ok c
  unfolding decode encode
  decode-encode law c =
      rw
        (
          law.base64_decode-base64
              (k.as_bytes (k.rfc3339 c.started_at <> "|" <> uuid_to_string c.id)),
          law.from_utf8-as_bytes (k.rfc3339 c.started_at <> "|" <> uuid_to_string c.id),
          split_once-bar (k.rfc3339 c.started_at) (uuid_to_string c.id)
              (law.rfc3339-bar c.started_at),
          law.parse_rfc3339-rfc3339 c.started_at,
          uuid_parse_str-to_string c.id,
        )
        refl
