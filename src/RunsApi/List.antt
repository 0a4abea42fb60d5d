-- ===== src/RunsApi/List.antt =====
-- src/runs_api.rs, `list_runs_handler`: one page of summaries. The listings of the database are
-- taken by the clauses of the query.
use mathlib.Core.Option
use executorch_bencher.Prelude.{ℕ, ℤ, String, Bool, Option, List, map, Result, ok, err}
use executorch_bencher.ApiError.{ApiError, plain, internal_error}
use executorch_bencher.Artifacts.Handlers.{Reply, success, failure}
use executorch_bencher.Domain.{Platform, DeviceClass, ExitStatus, CorrectnessResult}
use executorch_bencher.Externals.{Externals}
use executorch_bencher.Runs.{RunsError}
use executorch_bencher.Runs.Cursor.{Codec, encode}
use executorch_bencher.Runs.Filter.{RunListFilter, Clause, push_where_clauses}
use executorch_bencher.Runs.Pages.{RunCursor, RunSummary, RunPage, Listing, list_runs}
use executorch_bencher.RunsApi.Params.{ListRunsParams, parse_list_params}

module _ (x : Externals) where
  open x use {Uuid, DateTime, F64}

  pub record ModelAssetRef : Type 0 where
    pub id : Uuid
    pub original_name : String

  pub record RunSummaryResponse : Type 0 where
    pub id : Uuid
    pub started_at : DateTime
    pub finished_at : Option DateTime
    pub repetition : ℤ
    pub platform : Platform
    pub device_class : DeviceClass
    pub device_serial : String
    pub device_model : Option String
    pub git_commit_sha : String
    pub git_dirty : Bool
    pub git_branch : Option String
    pub sumd_driver_version : Option String
    pub bsp_version : Option String
    pub host_accelerator : Option String
    pub model_asset : ModelAssetRef
    pub exit_status : ExitStatus
    pub correctness_result : CorrectnessResult
    pub prefill_tokens_per_sec : F64
    pub decode_tokens_per_sec : Option F64
    pub thermal_throttling : Option Bool

  pub record RunListResponse : Type 0 where
    pub items : List RunSummaryResponse
    pub next_cursor : Option String

module _ {x : Externals} where
  unfoldable pub from_summary : RunSummary x → RunSummaryResponse x
  from_summary s = record {
    id = s.id;
    started_at = s.started_at;
    finished_at = s.finished_at;
    repetition = s.repetition;
    platform = s.platform;
    device_class = s.device_class;
    device_serial = s.device_serial;
    device_model = s.device_model;
    git_commit_sha = s.git_commit_sha;
    git_dirty = s.git_dirty;
    git_branch = s.git_branch;
    sumd_driver_version = s.sumd_driver_version;
    bsp_version = s.bsp_version;
    host_accelerator = s.host_accelerator;
    model_asset = record { id = s.model_asset_id; original_name = s.model_original_name };
    exit_status = s.exit_status;
    correctness_result = s.correctness_result;
    prefill_tokens_per_sec = s.prefill_tokens_per_sec;
    decode_tokens_per_sec = s.decode_tokens_per_sec;
    thermal_throttling = s.thermal_throttling;
  }

  module _ (codec : Codec x) (listing : List Clause → Listing x) where
    unfoldable pub list_reply : Result RunsError (RunPage x) → Reply (RunListResponse x)
    unfolding from_summary encode
    list_reply (err e) = failure (internal_error (plain "internal error listing runs"))
    list_reply (ok page) = success (record {
      items = map from_summary page.items;
      next_cursor = Option.map (encode codec) page.next_cursor;
    })

    unfoldable pub list_parsed :
        Result ApiError (RunListFilter x × ℕ × Option (RunCursor x)) → Reply (RunListResponse x)
    unfolding list_reply list_runs push_where_clauses
    list_parsed (err e) = failure e
    list_parsed (ok (filter, limit, cursor)) =
        list_reply (list_runs (listing (push_where_clauses filter)) limit cursor)

    unfoldable pub list_runs_handler : ListRunsParams x → Reply (RunListResponse x)
    unfolding list_parsed parse_list_params
    list_runs_handler params = list_parsed (parse_list_params codec params)
