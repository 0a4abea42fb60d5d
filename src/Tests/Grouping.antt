-- ===== src/Tests/Grouping.antt =====
-- Rows are grouped and summarised.
use native.Mathlib.Decide.{ℕ_discrete}
use executorch_bencher.Prelude.{
  ℕ, pos, String, Bool, true, false, ◌≡◌, ◌↔◌, refl, some, none, List, [], ◌∷◌, ok, Bool-cases, inl,
  inr, leb,
}
use executorch_bencher.Prelude.Text.{str_eq, eq_iff}
use executorch_bencher.Domain.{
  linux, external, succeeded, failed, platform_try_from, device_class_try_from,
  exit_status_try_from, correctness_try_from,
}
use executorch_bencher.Results.Fold.{ConfigKey, Selected, Sample, Groups, collect, parse_sample}
use executorch_bencher.Results.Groups.{parse_all, group_at, with_key, go_on, collect-group_at}
use executorch_bencher.Results.Stats.{MetricStats, from_samples}
use executorch_bencher.Results.Summary.{IsSummary, from_samples-IsSummary}
use executorch_bencher.Results.Page.{Orders}
use executorch_bencher.Tests.Instance.{toy}

string_discrete : Discrete String
string_discrete s t = elim (Bool-cases (str_eq s t)) [
  | inl e ↦ yes ((eq_iff s t).0 e)
  | inr e ↦ no (λ p. cc ((eq_iff s t).1 p, e))
]

key_discrete : Discrete (ConfigKey toy)
key_discrete = hlevel (ℕ_discrete, string_discrete)

abbrev decided : {A : Type 0} → Dec A → Bool
decided (yes a) = true
decided (no n) = false

decided_iff : {A : Type 0} (d : Dec A) → (decided d ≡ true) ↔ A
decided_iff (yes a) = (λ h. a, λ b. refl)
decided_iff (no n) = (λ h. cc h, λ b. absurd (n b))

abbrev same : ConfigKey toy → ConfigKey toy → Bool
same k l = decided (key_discrete k l)

same_iff : (k l : ConfigKey toy) → (same k l ≡ true) ↔ (k ≡ l)
same_iff k l = decided_iff (key_discrete k l)

abbrev orders : Orders toy
orders = record {
  same = same;
  key_le = λ k l. true;
  str_le = λ s t. true;
  time_le = leb;
  same_iff = same_iff;
}

abbrev row : Selected toy
row = record {
  platform = "linux";
  device_class = "external";
  device_serial = "box";
  device_model = none;
  model_asset_id = "model-1";
  git_commit_sha = "abc";
  git_dirty = pos 0;
  sumd_driver_version = none;
  bsp_version = none;
  gpu_clock_mhz = none;
  mif_clock_mhz = none;
  int_clock_mhz = none;
  host_accelerator = some "gpu";
  prompt_sha256 = "p";
  git_branch = some "main";
  git_commit_timestamp = some 5;
  git_commit_subject = none;
  input_token_count = pos 3;
  started_at = 7;
  exit_status = "succeeded";
  correctness_result = "failed";
  thermal_throttling = some (pos 1);
  prefill_tokens_per_sec = 30;
  decode_tokens_per_sec = some 8;
  model_original_name = some "m.pte";
}

abbrev key : ConfigKey toy
key = record {
  platform = linux;
  device_class = external;
  device_serial = "box";
  model_asset_id = "model-1";
  git_commit_sha = "abc";
  git_dirty = false;
  sumd_driver_version = none;
  bsp_version = none;
  gpu_clock_mhz = none;
  mif_clock_mhz = none;
  int_clock_mhz = none;
  host_accelerator = some "gpu";
  prompt_sha256 = "p";
}

abbrev sample : Sample toy
sample = record {
  key = key;
  exit_status = succeeded;
  correctness = failed;
  throttled = true;
  row = row;
}

abbrev two_rows : List (Selected toy)
two_rows = row ∷ row ∷ []

abbrev two_samples : List (Sample toy)
two_samples = sample ∷ sample ∷ []

parsed_rows : parse_all same two_rows ≡ ok two_samples
unfolding parse_all parse_sample platform_try_from device_class_try_from exit_status_try_from
    correctness_try_from
parsed_rows = refl

abbrev speeds : List ℕ
speeds = 30 ∷ 90 ∷ 40 ∷ []

from_samples-IsSummary_example :
    (s : MetricStats toy) × (from_samples toy speeds ≡ ok (some s)) × IsSummary toy speeds s
from_samples-IsSummary_example = from_samples-IsSummary toy 30 (90 ∷ 40 ∷ [])

collect-group_at_example :
    (groups : Groups same) × (collect same [] two_rows ≡ ok groups)
    × (group_at same key groups ≡ go_on same none (with_key same key two_samples))
collect-group_at_example = collect-group_at same same_iff key two_rows two_samples parsed_rows
