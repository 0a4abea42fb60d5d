-- ===== src/Externals.antt =====
-- What the service takes from crates and from the machine: `uuid`, `chrono`, `serde_json` and
-- `f64`. Each field is an operation that the source calls; the laws are what it relies on.
use executorch_bencher.Prelude.{String, ◌≡◌, Bool, true, false, Option, some, List}

pub record Externals : Type 1 where
  -- `uuid::Uuid`, `to_string` and `parse_str`
  pub Uuid : Type 0
  pub uuid_to_string : Uuid → String
  pub uuid_parse_str : String → Option Uuid
  pub uuid_parse_str-to_string : (u : Uuid) → uuid_parse_str (uuid_to_string u) ≡ some u
  -- `chrono::DateTime<Utc>`, with `==`, stored and read back by the driver as it is
  pub DateTime : Type 0
  pub datetime_eq : DateTime → DateTime → Bool
  pub datetime_eq-eq : (t u : DateTime) → datetime_eq t u ≡ true → t ≡ u
  -- `serde_json::Value`: `Display`, `serde_json::to_string`, `serde_json::from_str`, and the
  -- same two functions at `Vec<String>`
  pub Json : Type 0
  pub json_display : Json → String
  pub json_to_string : Json → Option String
  pub json_from_str : String → Option Json
  pub json_is_object : Json → Bool
  pub strings_to_string : List String → Option String
  pub strings_from_str : String → Option (List String)
  -- SQLite's `json_valid`
  pub json_valid : String → Bool
  -- What the serialiser writes is what `Display` shows, and is valid for SQLite.
  pub json_to_string-display : (v : Json) → json_to_string v ≡ some (json_display v)
  pub json_valid-display : (v : Json) → json_valid (json_display v) ≡ true
  pub json_valid-strings :
      (l : List String) (s : String) → strings_to_string l ≡ some s → json_valid s ≡ true
  -- `f64`: `<`, `<=` and `is_finite` as IEEE 754 has them, and the constants of the source
  pub F64 : Type 0
  pub f64_lt : F64 → F64 → Bool
  pub f64_le : F64 → F64 → Bool
  pub is_finite : F64 → Bool
  pub f64_zero : F64
  pub celsius_low : F64
  pub celsius_high : F64
  -- Only a NaN is neither below a number nor at least that number.
  pub f64_le_of_not-lt :
      (v : F64) → is_finite v ≡ true → f64_lt v f64_zero ≡ false → f64_le f64_zero v ≡ true
  -- `f64::total_cmp` as "not greater", `+` and `/ 2.0`
  pub f64_total_le : F64 → F64 → Bool
  pub f64_add : F64 → F64 → F64
  pub f64_half : F64 → F64
  pub f64_total_le-total : (v w : F64) → f64_total_le v w ≡ false → f64_total_le w v ≡ true
  pub f64_total_le-trans :
      (u v w : F64) → f64_total_le u v ≡ true → f64_total_le v w ≡ true → f64_total_le u w ≡ true
