-- ===== src/Tests/Instance.antt =====
-- A small world for the tests: identifiers and JSON are their texts, and floats are naturals.
use text.Mathlib.Text.{starts_with}
use executorch_bencher.Prelude.{
  ℕ, ◌==◌, String, true, false, ◌≡◌, refl, some, [], ltb, leb, ◌+◌, ◌/◌, arith,
}
use executorch_bencher.Externals.{Externals}

pub number : (v : ℕ) → ltb v 0 ≡ false → leb 0 v ≡ true
number v h = ground arith

pub number_total : (v w : ℕ) → leb v w ≡ false → leb w v ≡ true
number_total v w h = ground arith

pub number_trans : (u v w : ℕ) → leb u v ≡ true → leb v w ≡ true → leb u w ≡ true
number_trans u v w h k = ground arith

pub same_number : (t u : ℕ) → (t == u) ≡ true → t ≡ u
same_number t u h = ground arith

abbrev pub toy : Externals
toy = record {
  Uuid = String;
  uuid_to_string = λ u. u;
  uuid_parse_str = some;
  uuid_parse_str-to_string = λ u. refl;
  DateTime = ℕ;
  datetime_eq = ◌==◌;
  datetime_eq-eq = λ t u h. same_number t u h;
  Json = String;
  json_display = λ v. v;
  json_to_string = some;
  json_from_str = some;
  json_is_object = λ v. starts_with v "{";
  strings_to_string = λ l. some "[]";
  strings_from_str = λ s. some [];
  json_valid = λ s. true;
  json_to_string-display = λ v. refl;
  json_valid-display = λ v. refl;
  json_valid-strings = λ l s h. refl;
  F64 = ℕ;
  f64_lt = ltb;
  f64_le = leb;
  is_finite = λ v. true;
  f64_zero = 0;
  celsius_low = 0;
  celsius_high = 200;
  f64_le_of_not-lt = λ v finite h. number v h;
  f64_total_le = leb;
  f64_add = λ v w. v + w;
  f64_half = λ v. v / 2;
  f64_total_le-total = number_total;
  f64_total_le-trans = number_trans;
}
