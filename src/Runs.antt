-- ===== src/Runs.antt =====
-- src/runs.rs: a run attempt, the error type, and `insert_run` and `get_run` over the `runs` table.
-- The table is the database's: `Runs.Table` says what the program relies on.
pub mod Row
pub mod Table
pub mod Errors
pub mod Store
pub mod RoundTrip
pub mod Pages
pub mod Paging
pub mod Walk
pub mod Cursor
pub mod Filter
pub mod Filtered
use mathlib.Core.Option
use Prim.Native.String
use text.Mathlib.Text.{starts_with}
use executorch_bencher.Prelude.{
  ℤ, String, Bool, false, not, ◌&&◌, Option, none, some, List, Result, ok, err, ◌>>=◌, map_err,
  transpose_map, if◌then◌else◌,
}
use executorch_bencher.Domain.{
  ExitStatus, CorrectnessResult, DeviceClass, internal, external, Sha256Hex,
}
use executorch_bencher.Externals.{Externals}
use executorch_bencher.Host.Columns.{RowError}
use executorch_bencher.Host.{HostState, as_android, is_complete_lab_snapshot}
use executorch_bencher.Runs.Row.{RunRow, NewRun, Run, to_row, row_to_run}
use executorch_bencher.Runs.Table.{RunsTable}
use executorch_bencher.Sqlx.{
  SqlxError, unique_violation, foreign_key_violation, check_violation, other_error,
}

-- `RunsError`: a database failure as the text that its conversion makes, or a row or a run refused.
pub data RunsError : Type 0 where
  message : String → RunsError
  bad_row : RowError → RunsError

abbrev unique_violation_prefix : String
unique_violation_prefix = "runs unique constraint violated: "

abbrev foreign_key_violation_prefix : String
foreign_key_violation_prefix = "runs foreign key violated: "

-- `impl From<sqlx::Error>`
unfoldable pub from_sqlx : SqlxError → RunsError
from_sqlx (unique_violation s) = message (String.◌++◌ unique_violation_prefix s)
from_sqlx (foreign_key_violation s) = message (String.◌++◌ foreign_key_violation_prefix s)
from_sqlx (check_violation s) = message (String.◌++◌ "runs database error: " s)
from_sqlx (other_error s) = message (String.◌++◌ "runs database error: " s)

unfoldable pub is_unique_violation : RunsError → Bool
is_unique_violation (message s) = starts_with s unique_violation_prefix
is_unique_violation (bad_row e) = false

unfoldable pub is_foreign_key_violation : RunsError → Bool
is_foreign_key_violation (message s) = starts_with s foreign_key_violation_prefix
is_foreign_key_violation (bad_row e) = false

module _ {x : Externals} where
  -- The guard of `insert_run`: an internal Android device without its complete snapshot.
  unfoldable pub incomplete_internal : NewRun x → Bool
  unfolding as_android
  incomplete_internal run = elim run.device_class [
    | internal ↦ elim (as_android run.host) [
      | none ↦ false
      | some a ↦ not (is_complete_lab_snapshot a)
    ]
    | external ↦ false
  ]

abbrev pub incomplete_message : String
incomplete_message =
    "an internal Android device must record the complete lab snapshot (BSP, SUMD driver, clocks, uptime, battery, temperatures, throttling)"

module _ {x : Externals} (t : RunsTable x) where
  open t use {Db, insert_row, select_row}

  unfoldable pub insert_run : Db → NewRun x → Result RunsError (Unit {0}) × Db
  insert_run db run =
      if incomplete_internal run
      then (err (message incomplete_message), db)
      else let (inserted, db') = insert_row db (to_row run) in (map_err from_sqlx inserted, db')

  -- `row.map(row_to_run).transpose()`
  unfoldable pub get_run : Db → Externals.Uuid x → Result RunsError (Option (Run x))
  get_run db id = do
    row ← map_err from_sqlx (select_row db (Externals.uuid_to_string x id))
    transpose_map (λ r. map_err bad_row (row_to_run x r)) row
