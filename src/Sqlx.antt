-- ===== src/Sqlx.antt =====
-- `sqlx::Error` and what a query may answer.
use executorch_bencher.Prelude.{String, Bool, true, false, ◌≡◌, ◌⊎◌, Result, ok, err}

-- A database error by its kind, or another failure, with the text it shows.
pub data SqlxError : Type 0 where
  unique_violation foreign_key_violation check_violation other_error : String → SqlxError

abbrev pub is_unique : SqlxError → Bool
is_unique (unique_violation s) = true
is_unique _ = false

abbrev pub is_foreign_key : SqlxError → Bool
is_foreign_key (foreign_key_violation s) = true
is_foreign_key _ = false

-- A failure of the database, or the answer.
abbrev pub FailsOr {ℓ} : {A : Type ℓ} → Result SqlxError A → A → Type ℓ
FailsOr m a = ((e : SqlxError) × (m ≡ err e)) ⊎ (m ≡ ok a)
