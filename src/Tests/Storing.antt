-- ===== src/Tests/Storing.antt =====
-- A snapshot is checked and stored, a run is inserted and read.
use executorch_bencher.Prelude.{false, some, ok, ◌≡◌, ◌⊎◌, []}
use executorch_bencher.Domain.{android, internal}
use executorch_bencher.Host.{of_android}
use executorch_bencher.Host.Columns.{host_columns, host_check}
use executorch_bencher.HostRules.{host_state}
use executorch_bencher.HostRules.Accepts.{
  input_columns, host_state-host_check, host_columns-host_state,
}
use executorch_bencher.Prelude.{is_ok}
use executorch_bencher.Runs.Row.{to_row, row_to_run}
use executorch_bencher.Runs.RoundTrip.{as_run, row_to_run-to_row}
use executorch_bencher.Runs.Store.{Failed, get_run-insert_run}
use executorch_bencher.Runs.Errors.{is_unique_violation-from_sqlx}
use executorch_bencher.Runs.{
  insert_run, get_run, from_sqlx, is_unique_violation, is_foreign_key_violation,
}
use executorch_bencher.RunsWrite.Validated.{IsValidated, to_new_run-IsValidated}
use executorch_bencher.Sqlx.{other_error}
use executorch_bencher.Tests.Instance.{toy}
use executorch_bencher.Tests.Memory.{memory}
use executorch_bencher.Tests.Request.{request, run, converted, phone_input, phone, snapshot}
use executorch_bencher.Tests.Writing.{inserted}

host_state-host_check_example :
    is_ok (host_state phone_input android internal)
    ≡ host_check (input_columns phone_input android internal)
host_state-host_check_example = host_state-host_check phone_input android internal

host_columns-host_state_example :
    host_columns (of_android phone) internal ≡ input_columns phone_input android internal
host_columns-host_state_example =
    host_columns-host_state phone_input android internal (of_android phone) snapshot

valid : IsValidated run
valid = to_new_run-IsValidated request 3 run converted

row_to_run-to_row_example : row_to_run toy (to_row run) ≡ ok (as_run run)
row_to_run-to_row_example = row_to_run-to_row run valid.prompt valid.executable

inserted_ok : (insert_run memory [] run).0 ≡ ok tt
inserted_ok = rw inserted

get_run-insert_run_example :
    Failed (get_run memory (insert_run memory [] run).1 "run-1")
    ⊎ (get_run memory (insert_run memory [] run).1 "run-1" ≡ ok (some (as_run run)))
get_run-insert_run_example =
    get_run-insert_run memory [] run valid.checked valid.prompt valid.executable inserted_ok

is_unique_violation-from_sqlx_example :
    (is_unique_violation (from_sqlx (other_error "disk full")) ≡ false)
    × (is_foreign_key_violation (from_sqlx (other_error "disk full")) ≡ false)
is_unique_violation-from_sqlx_example = is_unique_violation-from_sqlx (other_error "disk full")
