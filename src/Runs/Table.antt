-- ===== src/Runs/Table.antt =====
-- The `runs` table: its CHECK constraints, from the last migration, and the interface of the
-- database behind it, with what SQLite and the driver document of an INSERT and a keyed SELECT.
use Prim.Native.String.{count}
use executorch_bencher.Prelude.{
  String, Bool, true, false, ◌&&◌, ◌||◌, not, ◌≡◌, ◌≢◌, Option, some, is_negative, ◌==◌, Result, ok,
  err,
}
use executorch_bencher.Prelude.Text.{str_eq}
use executorch_bencher.Externals.{Externals}
use executorch_bencher.Host.Columns.{null_or, host_check, is_flag}
use executorch_bencher.Runs.Row.{RunRow}
use executorch_bencher.Sqlx.{SqlxError, check_violation, FailsOr}

abbrev pub is_exit_status : String → Bool
is_exit_status s =
    str_eq s "succeeded"
    || str_eq s "crashed"
    || str_eq s "timed_out"
    || str_eq s "cancelled"
    || str_eq s "infrastructure_error"

abbrev pub is_correctness_result : String → Bool
is_correctness_result s =
    str_eq s "passed" || str_eq s "failed" || str_eq s "not_checked" || str_eq s "validator_error"

module _ {x : Externals} where
  open x use {f64_le, f64_zero, json_valid}

  -- The constraints that the columns' types in the program always meet.
  unfoldable pub enums_check : RunRow x → Bool
  enums_check r =
      is_exit_status r.exit_status
      && is_correctness_result r.correctness_result
      && is_flag r.git_dirty

  unfoldable pub values_check : RunRow x → Bool
  values_check r =
      not (is_negative r.repetition)
      && json_valid r.command_args
      && json_valid r.input_parameters
      && json_valid r.env_vars
      && null_or (λ s. count s == 64) r.executable_sha256
      && count r.prompt_sha256 == 64
      && not (is_negative r.input_token_count)
      && not (is_negative r.output_token_count)
      && f64_le f64_zero r.prefill_tokens_per_sec
      && null_or (λ v. f64_le f64_zero v) r.decode_tokens_per_sec

  -- Every CHECK constraint of the table. A comparison with a NaN, which the database stores as
  -- NULL, counts as failing, as does its NOT NULL.
  unfoldable pub runs_check : RunRow x → Bool
  unfolding enums_check values_check
  runs_check r = host_check r.host && values_check r && enums_check r

pub record RunsTable (x : Externals) : Type 1 where
  pub Db : Type 0
  -- `INSERT INTO runs`, and `SELECT * FROM runs WHERE id = ?`
  pub insert_row : Db → RunRow x → Result SqlxError (Unit {0}) × Db
  pub select_row : Db → String → Result SqlxError (Option (RunRow x))
  -- An INSERT that fails leaves the database as it was, and it fails a CHECK only if one fails.
  pub insert_atomic :
      (d : Db) (r : RunRow x) (e : SqlxError) → (insert_row d r).0 ≡ err e → (insert_row d r).1 ≡ d
  pub insert_checks :
      (d : Db) (r : RunRow x) (s : String)
      → (insert_row d r).0 ≡ err (check_violation s)
      → runs_check r ≡ false
  -- A row that was inserted is found by its ID.
  pub select-insert_self :
      (d : Db) (r : RunRow x)
      → runs_check r ≡ true
      → (insert_row d r).0 ≡ ok tt
      → FailsOr (select_row (insert_row d r).1 r.id) (some r)
  -- An INSERT does not touch other rows.
  pub select-insert_ne :
      (d : Db) (r : RunRow x) (id : String) (a : Option (RunRow x))
      → r.id ≢ id
      → select_row d id ≡ ok a
      → FailsOr (select_row (insert_row d r).1 id) a
  -- The primary key: a second row with the ID is never inserted.
  pub insert_unique :
      (d : Db) (r s : RunRow x)
      → select_row d r.id ≡ ok (some s)
      → (e : SqlxError) × ((insert_row d r).0 ≡ err e)
