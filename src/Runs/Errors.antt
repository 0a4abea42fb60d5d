-- ===== src/Runs/Errors.antt =====
-- The classification of a database failure by the prefix of its text (src/runs.rs).
use Prim.Native.Char.{Char, code}
use Prim.Native.String
use text.Mathlib.Text.{starts_with}
use text.Mathlib.TextEquality.{starts_with_iff}
use text.Mathlib.TextLemmas.{append_assoc, append_cancel_left, cons-append, head-eq_of_cons-eq}
use text.Mathlib.TextPositions.{starts_with-append}
use executorch_bencher.Prelude.{String, false, ◌≡◌, ◌≢◌, ap, sym, ◌∙◌, arith, Bool-cases, inl, inr}
use executorch_bencher.Sqlx.{
  SqlxError, is_unique, is_foreign_key, unique_violation, foreign_key_violation, check_violation,
  other_error,
}
use executorch_bencher.Runs.{from_sqlx, is_unique_violation, is_foreign_key_violation}

-- Two texts that part at a character: no continuation of one begins with the other.
parted :
    (common : String) (c d : Char) (p q s : String)
    → code c ≢ code d
    → starts_with
        (String.◌++◌ (String.◌++◌ common (String.◌∷◌ d q)) s)
        (String.◌++◌ common (String.◌∷◌ c p))
      ≡ false
parted common c d p q s h = elim (Bool-cases (starts_with text prefix)) [
  | inl yes_prefix ↦
      let (u, e) = (starts_with_iff text prefix).0 yes_prefix in
      let tails : String.◌++◌ (String.◌∷◌ c p) u ≡ String.◌++◌ (String.◌∷◌ d q) s =
        append_cancel_left common _ _ (
          sym (append_assoc common (String.◌∷◌ c p) u)
          ∙ e
          ∙ append_assoc common (String.◌∷◌ d q) s) in
      absurd
        (h (ap code (head-eq_of_cons-eq (sym (cons-append c p u) ∙ tails ∙ cons-append d q s))))
  | inr no_prefix ↦ no_prefix
]
  where
    text : String
    text = String.◌++◌ (String.◌++◌ common (String.◌∷◌ d q)) s

    prefix : String
    prefix = String.◌++◌ common (String.◌∷◌ c p)

-- A failure is reported as a UNIQUE violation, or as a FOREIGN KEY violation, exactly if the
-- driver says that it is one, whatever text the driver gives.
pub is_unique_violation-from_sqlx :
    (e : SqlxError)
    → (is_unique_violation (from_sqlx e) ≡ is_unique e)
      × (is_foreign_key_violation (from_sqlx e) ≡ is_foreign_key e)
unfolding from_sqlx is_unique_violation is_foreign_key_violation
is_unique_violation-from_sqlx (unique_violation s) = (
  starts_with-append "runs unique constraint violated: " s,
  parted "runs " "f" "u" "oreign key violated: " "nique constraint violated: " s (omega arith),
)
is_unique_violation-from_sqlx (foreign_key_violation s) = (
  parted "runs " "u" "f" "nique constraint violated: " "oreign key violated: " s (omega arith),
  starts_with-append "runs foreign key violated: " s,
)
is_unique_violation-from_sqlx (check_violation s) = (
  parted "runs " "u" "d" "nique constraint violated: " "atabase error: " s (omega arith),
  parted "runs " "f" "d" "oreign key violated: " "atabase error: " s (omega arith),
)
is_unique_violation-from_sqlx (other_error s) = (
  parted "runs " "u" "d" "nique constraint violated: " "atabase error: " s (omega arith),
  parted "runs " "f" "d" "oreign key violated: " "atabase error: " s (omega arith),
)
