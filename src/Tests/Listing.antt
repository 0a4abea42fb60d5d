-- ===== src/Tests/Listing.antt =====
-- Two runs are listed one to a page.
use executorch_bencher.Prelude.{
  ℕ, pos, String, Bool, false, ◌&&◌, ◌||◌, refl, arith, some, none, Option, List, [], ◌∷◌, take,
  ltb, ◌==◌, ok, Result,
}
use executorch_bencher.Domain.{
  linux, external, succeeded, passed, platform_try_from, device_class_try_from,
  exit_status_try_from, correctness_try_from,
}
use executorch_bencher.Runs.Pages.{
  RunCursor, RunSummary, SummaryRow, Listing, IsListing, IsNewestFirst, after, older,
  row_to_summary,
}
use executorch_bencher.Runs.Paging.{Listed}
use executorch_bencher.Sqlx.{SqlxError}
use executorch_bencher.Tests.Instance.{toy}

abbrev summary : ℕ → String → RunSummary toy
summary time id = record {
  id = id;
  started_at = time;
  finished_at = none;
  repetition = pos 0;
  platform = linux;
  device_class = external;
  device_serial = "box";
  device_model = none;
  git_commit_sha = "abc";
  git_dirty = false;
  git_branch = none;
  sumd_driver_version = none;
  bsp_version = none;
  host_accelerator = some "gpu";
  model_asset_id = "model-1";
  model_original_name = "m.pte";
  exit_status = succeeded;
  correctness_result = passed;
  prefill_tokens_per_sec = 30;
  decode_tokens_per_sec = none;
  thermal_throttling = none;
}

abbrev summary_row : ℕ → String → SummaryRow toy
summary_row time id = record {
  id = id;
  started_at = time;
  finished_at = none;
  repetition = pos 0;
  platform = "linux";
  device_class = "external";
  device_serial = "box";
  device_model = none;
  git_commit_sha = "abc";
  git_dirty = pos 0;
  git_branch = none;
  sumd_driver_version = none;
  bsp_version = none;
  host_accelerator = some "gpu";
  model_asset_id = "model-1";
  model_original_name = some "m.pte";
  exit_status = "succeeded";
  correctness_result = "passed";
  prefill_tokens_per_sec = 30;
  decode_tokens_per_sec = none;
  thermal_throttling = none;
}

abbrev pub two : List (SummaryRow toy)
two = summary_row 5 "b" ∷ summary_row 3 "a" ∷ []

abbrev pub two_summaries : List (RunSummary toy)
two_summaries = summary 5 "b" ∷ summary 3 "a" ∷ []

abbrev pub earlier : ℕ × String → ℕ × String → Bool
earlier a b = ltb a.0 b.0 || a.0 == b.0 && false

abbrev answer : Option (RunCursor toy) → ℕ → Result SqlxError (List (SummaryRow toy))
answer c n = ok (take n (after earlier c two))

abbrev pub listing : Listing toy
listing = record {
  time_lt = ltb;
  time_eq = ◌==◌;
  id_lt = λ a b. false;
  rows = two;
  select = answer;
}

pub listing_law : IsListing listing
unfolding older IsNewestFirst
listing_law = record {
  older_asym = λ a b h. ground (arith, h);
  newest_first = ((refl, tt), (tt, tt));
  select_rows = λ c n rows h. cc h;
}

pub listed : Listed two two_summaries
unfolding Listed row_to_summary platform_try_from device_class_try_from exit_status_try_from
    correctness_try_from
listed = (refl, refl, (refl, refl, tt))
