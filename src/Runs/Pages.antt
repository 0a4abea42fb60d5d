-- ===== src/Runs/Pages.antt =====
-- src/runs.rs, `list_runs`: the summaries of the runs, page by page. The query's answer is the
-- database's: `Listing` says what the SQL asks for.
use executorch_bencher.Prelude.{
  ℕ, ◌+◌, ℤ, String, Bool, true, false, ◌&&◌, ◌||◌, ◌≡◌, Option, none, some, List, [], ◌∷◌, Result,
  ok, ◌>>=◌, ok_or, map_err, is_nonzero, length, take, All, ltb, if◌then◌else◌,
}
use mathlib.Core.Option
use executorch_bencher.Domain.{
  Platform, platform_try_from, DeviceClass, device_class_try_from, ExitStatus, exit_status_try_from,
  CorrectnessResult, correctness_try_from,
}
use executorch_bencher.Externals.{Externals}
use executorch_bencher.Host.Columns.{RowError, invalid_stored, invalid_stored_uuid, optional_flag}
use executorch_bencher.Runs.{RunsError, bad_row, from_sqlx}
use executorch_bencher.Sqlx.{SqlxError}

module _ (x : Externals) where
  open x use {Uuid, DateTime, F64}

  pub record RunCursor : Type 0 where
    pub started_at : DateTime
    pub id : Uuid

  pub record RunSummary : Type 0 where
    pub id : Uuid
    pub started_at : DateTime
    pub finished_at : Option DateTime
    pub repetition : ℤ
    pub platform : Platform
    pub device_class : DeviceClass
    pub device_serial : String
    pub device_model : Option String
    pub git_commit_sha : String
    pub git_dirty : Bool
    pub git_branch : Option String
    pub sumd_driver_version : Option String
    pub bsp_version : Option String
    pub host_accelerator : Option String
    pub model_asset_id : Uuid
    pub model_original_name : String
    pub exit_status : ExitStatus
    pub correctness_result : CorrectnessResult
    pub prefill_tokens_per_sec : F64
    pub decode_tokens_per_sec : Option F64
    pub thermal_throttling : Option Bool

  -- The columns of the query.
  pub record SummaryRow : Type 0 where
    pub id : String
    pub started_at : DateTime
    pub finished_at : Option DateTime
    pub repetition : ℤ
    pub platform : String
    pub device_class : String
    pub device_serial : String
    pub device_model : Option String
    pub git_commit_sha : String
    pub git_dirty : ℤ
    pub git_branch : Option String
    pub sumd_driver_version : Option String
    pub bsp_version : Option String
    pub host_accelerator : Option String
    pub model_asset_id : String
    pub model_original_name : Option String
    pub exit_status : String
    pub correctness_result : String
    pub prefill_tokens_per_sec : F64
    pub decode_tokens_per_sec : Option F64
    pub thermal_throttling : Option ℤ

  pub record RunPage : Type 0 where
    pub items : List RunSummary
    pub next_cursor : Option RunCursor

module _ {x : Externals} where
  open x use {Uuid, DateTime, uuid_parse_str, uuid_to_string}

  unfoldable pub row_to_summary : SummaryRow x → Result RowError (RunSummary x)
  row_to_summary row = do
    id ← ok_or (invalid_stored_uuid "id") (uuid_parse_str row.id)
    platform ← map_err invalid_stored (platform_try_from row.platform)
    device_class ← map_err invalid_stored (device_class_try_from row.device_class)
    model_asset_id ←
        ok_or (invalid_stored_uuid "model_asset_id") (uuid_parse_str row.model_asset_id)
    exit_status ← map_err invalid_stored (exit_status_try_from row.exit_status)
    correctness_result ← map_err invalid_stored (correctness_try_from row.correctness_result)
    ok (record {
      id = id;
      started_at = row.started_at;
      finished_at = row.finished_at;
      repetition = row.repetition;
      platform = platform;
      device_class = device_class;
      device_serial = row.device_serial;
      device_model = row.device_model;
      git_commit_sha = row.git_commit_sha;
      git_dirty = is_nonzero row.git_dirty;
      git_branch = row.git_branch;
      sumd_driver_version = row.sumd_driver_version;
      bsp_version = row.bsp_version;
      host_accelerator = row.host_accelerator;
      model_asset_id = model_asset_id;
      model_original_name = Option.get_or row.model_original_name "";
      exit_status = exit_status;
      correctness_result = correctness_result;
      prefill_tokens_per_sec = row.prefill_tokens_per_sec;
      decode_tokens_per_sec = row.decode_tokens_per_sec;
      thermal_throttling = optional_flag row.thermal_throttling;
    })

  unfoldable pub parse_rows : List (SummaryRow x) → Result RowError (List (RunSummary x))
  parse_rows [] = ok []
  parse_rows (row ∷ rows) = do s ← row_to_summary row; rest ← parse_rows rows; ok (s ∷ rest)

  -- The pair that the list is ordered by, of a row and of a cursor.
  abbrev pub row_key : SummaryRow x → DateTime × String
  row_key row = (row.started_at, row.id)

  abbrev pub cursor_key : RunCursor x → DateTime × String
  cursor_key c = (c.started_at, uuid_to_string c.id)

  -- The rows below a cursor, by the order `older`: the condition that a cursor adds.
  unfoldable pub after :
      (DateTime × String → DateTime × String → Bool)
      → Option (RunCursor x)
      → List (SummaryRow x)
      → List (SummaryRow x)
  after older none rows = rows
  after older (some c) [] = []
  after older (some c) (row ∷ rows) =
      let below = after older (some c) rows in
      if older (row_key row) (cursor_key c) then row ∷ below else below

  unfoldable pub IsNewestFirst :
      (DateTime × String → DateTime × String → Bool) → List (SummaryRow x) → Type 0
  IsNewestFirst older [] = Unit
  IsNewestFirst older (row ∷ rows) =
      All (λ r. older (row_key r) (row_key row) ≡ true) rows × IsNewestFirst older rows

-- The rows that a filter matches, and the query on them.
pub record Listing (x : Externals) : Type 0 where
  pub time_lt : Externals.DateTime x → Externals.DateTime x → Bool
  pub time_eq : Externals.DateTime x → Externals.DateTime x → Bool
  pub id_lt : String → String → Bool
  pub rows : List (SummaryRow x)
  pub select : Option (RunCursor x) → ℕ → Result SqlxError (List (SummaryRow x))

module _ {x : Externals} (l : Listing x) where
  open x use {DateTime}

  -- `r.started_at < ? OR (r.started_at = ? AND r.id < ?)`
  unfoldable pub older : DateTime × String → DateTime × String → Bool
  older a b = l.time_lt a.0 b.0 || l.time_eq a.0 b.0 && l.id_lt a.1 b.1

  -- What the query relies on: `ORDER BY started_at DESC, id DESC` is a strict order of the rows,
  -- whose IDs differ, and an answer holds the first rows below the cursor.
  pub record IsListing : Type 0 where
    pub older_asym : (a b : DateTime × String) → older a b ≡ true → older b a ≡ false
    pub newest_first : IsNewestFirst older l.rows
    pub select_rows :
        (c : Option (RunCursor x)) (n : ℕ) (answer : List (SummaryRow x))
        → l.select c n ≡ ok answer
        → answer ≡ take n (after older c l.rows)

  -- `items.last().map(...)`
  unfoldable pub last_cursor : List (RunSummary x) → Option (RunCursor x)
  last_cursor [] = none
  last_cursor (s ∷ []) = some (record { started_at = s.started_at; id = s.id })
  last_cursor (s ∷ t ∷ rest) = last_cursor (t ∷ rest)

  unfoldable pub page_of : ℕ → List (RunSummary x) → RunPage x
  page_of limit items =
      if ltb limit (length items)
      then record { items = take limit items; next_cursor = last_cursor (take limit items) }
      else record { items = items; next_cursor = none }

  unfoldable pub list_runs : ℕ → Option (RunCursor x) → Result RunsError (RunPage x)
  list_runs limit cursor = do
    rows ← map_err from_sqlx (l.select cursor (limit + 1))
    items ← map_err bad_row (parse_rows rows)
    ok (page_of limit items)
