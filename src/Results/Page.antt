-- ===== src/Results/Page.antt =====
-- src/results.rs, `results`: from the groups to the page of rows.
use mathlib.Core.Option
use executorch_bencher.Prelude.{
  ℕ, ℤ, String, Bool, true, false, Option, none, some, List, [], ◌∷◌, Result, ok, ◌>>=◌, map_err,
  length, take, ltb, ◌≡◌, ◌↔◌, if◌then◌else◌,
}
use executorch_bencher.Externals.{Externals}
use executorch_bencher.Host.Columns.{RowError}
use executorch_bencher.Results.Fold.{ConfigKey, Selected, Accumulator, Groups, collect}
use executorch_bencher.Results.Sorting.{sort, Panic}
use executorch_bencher.Results.Stats.{MetricStats, from_samples}

-- The derived `Eq` and `Ord` of the key, and the orders of texts and of times.
pub record Orders (x : Externals) : Type 0 where
  pub same : ConfigKey x → ConfigKey x → Bool
  pub key_le : ConfigKey x → ConfigKey x → Bool
  pub str_le : String → String → Bool
  pub time_le : Externals.DateTime x → Externals.DateTime x → Bool
  pub same_iff : (k l : ConfigKey x) → (same k l ≡ true) ↔ (k ≡ l)

pub data ResultsError : Type 0 where
  bad_row : RowError → ResultsError
  panicked : Panic → ResultsError

module _ (x : Externals) where
  open x use {DateTime}

  pub record ResultRow : Type 0 where
    pub key : ConfigKey x
    pub device_model : Option String
    pub model_original_name : String
    pub git_branch : Option String
    pub git_commit_timestamp : Option DateTime
    pub git_commit_subject : Option String
    pub input_token_count : ℤ
    pub prefill : Option (MetricStats x)
    pub decode : Option (MetricStats x)
    pub total_runs : ℕ
    pub not_succeeded : ℕ
    pub correctness_failed : ℕ
    pub throttled : ℕ
    pub first_started_at : DateTime
    pub last_started_at : DateTime

  pub record ResultsPage : Type 0 where
    pub rows : List ResultRow
    pub truncated : Bool

-- One component of a lexicographic order, by the two ways its values compare.
abbrev pub then_by : Bool → Bool → Bool → Bool
then_by below above rest = if below then (if above then rest else true) else false

module _ {x : Externals} where
  open x use {DateTime}

  unfoldable pub to_result_row :
      ConfigKey x
      → Accumulator x
      → DateTime
      → Option (MetricStats x)
      → Option (MetricStats x)
      → ResultRow x
  to_result_row key acc first prefill decode = record {
    key = key;
    device_model = acc.device_model;
    model_original_name = acc.model_original_name;
    git_branch = acc.git_branch;
    git_commit_timestamp = acc.git_commit_timestamp;
    git_commit_subject = acc.git_commit_subject;
    input_token_count = acc.input_token_count;
    prefill = prefill;
    decode = decode;
    total_runs = acc.total_runs;
    not_succeeded = acc.not_succeeded;
    correctness_failed = acc.correctness_failed;
    throttled = acc.throttled;
    first_started_at = first;
    last_started_at = Option.get_or acc.last_started_at first;
  }

  -- The closure of `filter_map`, which skips a group without a start, and the rows after it.
  unfoldable pub add_row :
      ConfigKey x
      → Accumulator x
      → Option DateTime
      → Result Panic (List (ResultRow x))
      → Result Panic (List (ResultRow x))
  add_row key acc none later = later
  add_row key acc (some first) later = do
    prefill ← from_samples x acc.prefill
    decode ← from_samples x acc.decode
    rest ← later
    ok (to_result_row key acc first prefill decode ∷ rest)

  unfoldable pub result_rows :
      List (ConfigKey x × Accumulator x) → Result Panic (List (ResultRow x))
  result_rows [] = ok []
  result_rows ((key, acc) ∷ groups) = add_row key acc acc.first_started_at (result_rows groups)

  abbrev pub row_time : ResultRow x → DateTime
  row_time r = Option.get_or r.git_commit_timestamp r.first_started_at

module _ {x : Externals} (o : Orders x) where
  -- The key of `sort_by_key`: time, the latest first, then model name, serial, and the key.
  unfoldable pub row_le : ResultRow x → ResultRow x → Bool
  row_le a b = then_by (o.time_le (row_time b) (row_time a)) (o.time_le (row_time a) (row_time b)) (
      then_by (o.str_le a.model_original_name b.model_original_name)
        (o.str_le b.model_original_name a.model_original_name)
        (then_by (o.str_le a.key.device_serial b.key.device_serial)
          (o.str_le b.key.device_serial a.key.device_serial) (o.key_le a.key b.key)))

  -- `groups.into_iter()` runs in the order of the keys.
  unfoldable pub finish : Groups o.same → ℕ → Result ResultsError (ResultsPage x)
  finish groups max_rows = do
    rows ← map_err panicked (result_rows (sort (λ a b. o.key_le a.0 b.0) groups))
    let sorted = sort row_le rows
    ok (record { rows = take max_rows sorted; truncated = ltb max_rows (length sorted) })

  unfoldable pub results : List (Selected x) → ℕ → Result ResultsError (ResultsPage x)
  results selected max_rows = do
    groups ← map_err bad_row (collect o.same [] selected)
    finish groups max_rows
