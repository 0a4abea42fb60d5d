-- ===== src/Tests/Showing.antt =====
-- A run that was posted is asked for by its ID.
use executorch_bencher.Prelude.{refl, [], none}
use executorch_bencher.Runs.RoundTrip.{as_run}
use executorch_bencher.RunsApi.Detail.{get_run_handler}
use executorch_bencher.RunsApi.Echo.{IsShown, get_run_handler-create_run}
use executorch_bencher.RunsWrite.Handler.{parsed, create_run}
use executorch_bencher.Tests.Disk.{Disk, disk}
use executorch_bencher.Tests.Request.{request, run}
use executorch_bencher.Tests.Writing.{pool, empty, stored_once}

abbrev no_files : Disk
no_files = record { files = λ path. none; table = [] }

get_run_handler-create_run_example :
    IsShown pool disk "/data"
      (λ raw. raw)
      3
      request
      (get_run_handler pool disk "/data"
        (λ raw. raw)
        (create_run pool 3 empty (parsed request)).1.db
        no_files
        request.id)
get_run_handler-create_run_example =
    get_run_handler-create_run pool disk "/data" (λ raw. raw) 3 empty request (as_run run) no_files
      (refl, refl) stored_once
