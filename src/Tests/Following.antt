-- ===== src/Tests/Following.antt =====
-- Two runs are listed through the handler, one to a page.
use executorch_bencher.Prelude.{ℕ, zero, suc, map, String, some, none, List}
use executorch_bencher.Runs.Cursor.{Codec}
use executorch_bencher.Runs.Filter.{RunListFilter}
use executorch_bencher.RunsApi.List.{RunSummaryResponse, from_summary}
use executorch_bencher.RunsApi.Params.{ListRunsParams}
use executorch_bencher.Prelude.{pos, ◌↔◌}
use executorch_bencher.Prelude.Lists.{All}
use executorch_bencher.Runs.Filter.{push_where_clauses}
use executorch_bencher.Runs.Filtered.{Holds, Matches, push_where_clauses_lem}
use executorch_bencher.Runs.Row.{to_row}
use executorch_bencher.Tests.Request.{run}
use executorch_bencher.Tests.Instance.{toy}
use executorch_bencher.Tests.Listing.{two_summaries}

-- A time in strokes, and texts as their own bytes.
abbrev strokes : ℕ → String
strokes zero = ""
strokes (suc n) = String.◌∷◌ "I" (strokes n)

abbrev read_strokes : String → ℕ
read_strokes String.[] = 0
read_strokes (String.◌∷◌ c s) = suc (read_strokes s)

abbrev codec : Codec toy
codec = record {
  rfc3339 = strokes;
  parse_rfc3339 = λ s. some (read_strokes s);
  Bytes = String;
  as_bytes = λ s. s;
  from_utf8 = some;
  base64 = λ b. b;
  base64_decode = some;
}

abbrev params : ListRunsParams toy
params = record {
  limit = some 1;
  cursor = none;
  platform = none;
  device_class = none;
  device_serial = none;
  model_asset_id = none;
  git_commit_sha = none;
  git_branch = none;
  git_dirty = none;
  sumd_driver_version = none;
  bsp_version = none;
  gpu_clock_mhz = none;
  mif_clock_mhz = none;
  int_clock_mhz = none;
  host_accelerator = none;
  prompt_sha256 = none;
  exit_status = none;
  correctness_result = none;
}

abbrev no_filter : RunListFilter toy
no_filter = record {
  platform = none;
  device_class = none;
  device_serial = none;
  model_asset_id = none;
  git_commit_sha = none;
  git_branch = none;
  git_dirty = none;
  sumd_driver_version = none;
  bsp_version = none;
  gpu_clock_mhz = none;
  mif_clock_mhz = none;
  int_clock_mhz = none;
  host_accelerator = none;
  prompt_sha256 = none;
  exit_status = none;
  correctness_result = none;
}

abbrev two_responses : List (RunSummaryResponse toy)
two_responses = map from_summary two_summaries

-- The run of the table, asked for by one of its clocks.
push_where_clauses_lem_example :
    All
      (Holds (to_row run))
      (push_where_clauses (record no_filter { mif_clock_mhz = some (pos 2000) }))
    ↔ Matches (record no_filter { mif_clock_mhz = some (pos 2000) }) (to_row run)
push_where_clauses_lem_example =
    push_where_clauses_lem (record no_filter { mif_clock_mhz = some (pos 2000) }) (to_row run)
