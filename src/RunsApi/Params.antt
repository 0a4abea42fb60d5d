-- ===== src/RunsApi/Params.antt =====
-- src/runs_api.rs: the query parameters of the list.
use mathlib.Core.Option
use executorch_bencher.Prelude.{
  ℕ, ℤ, String, Bool, ◌||◌, Option, Result, ok, err, ◌>>=◌, map_err, transpose_map, ltb, ◌==◌,
  if◌then◌else◌,
}
use executorch_bencher.ApiError.{ApiError, plain, of_value, of_cursor, invalid_request}
use executorch_bencher.Domain.{
  InvalidValue, platform_try_from, device_class_try_from, exit_status_try_from,
  correctness_try_from, sha256_try_from,
}
use executorch_bencher.Externals.{Externals}
use executorch_bencher.Runs.Cursor.{Codec, decode}
use executorch_bencher.Runs.Filter.{RunListFilter}
use executorch_bencher.Runs.Pages.{RunCursor}

-- `limit` is a `u32` by the extractor.
pub record ListRunsParams (x : Externals) : Type 0 where
  pub limit : Option ℕ
  pub cursor : Option String
  pub platform : Option String
  pub device_class : Option String
  pub device_serial : Option String
  pub model_asset_id : Option (Externals.Uuid x)
  pub git_commit_sha : Option String
  pub git_branch : Option String
  pub git_dirty : Option Bool
  pub sumd_driver_version : Option String
  pub bsp_version : Option String
  pub gpu_clock_mhz : Option ℤ
  pub mif_clock_mhz : Option ℤ
  pub int_clock_mhz : Option ℤ
  pub host_accelerator : Option String
  pub prompt_sha256 : Option String
  pub exit_status : Option String
  pub correctness_result : Option String

abbrev pub default_limit : ℕ
default_limit = 50

abbrev pub max_limit : ℕ
max_limit = 200

unfoldable pub check_limit : ℕ → Result ApiError ℕ
check_limit limit =
    if limit == 0 || ltb max_limit limit
    then err (invalid_request (plain "limit must be between 1 and 200"))
    else ok limit

-- `map_err(|err| ApiError::invalid_request(err.to_string()))` after `transpose`
abbrev pub optional :
    {A : Type 0} → (String → Result InvalidValue A) → Option String → Result ApiError (Option A)
optional f value = map_err (λ e. invalid_request (of_value e)) (transpose_map f value)

module _ {x : Externals} where
  unfoldable pub parse_filter : ListRunsParams x → Result ApiError (RunListFilter x)
  parse_filter params = do
    exit_status ← optional exit_status_try_from params.exit_status
    correctness_result ← optional correctness_try_from params.correctness_result
    prompt_sha256 ← optional sha256_try_from params.prompt_sha256
    platform ← optional platform_try_from params.platform
    device_class ← optional device_class_try_from params.device_class
    ok (record {
      platform = platform;
      device_class = device_class;
      device_serial = params.device_serial;
      model_asset_id = params.model_asset_id;
      git_commit_sha = params.git_commit_sha;
      git_branch = params.git_branch;
      git_dirty = params.git_dirty;
      sumd_driver_version = params.sumd_driver_version;
      bsp_version = params.bsp_version;
      gpu_clock_mhz = params.gpu_clock_mhz;
      mif_clock_mhz = params.mif_clock_mhz;
      int_clock_mhz = params.int_clock_mhz;
      host_accelerator = params.host_accelerator;
      prompt_sha256 = prompt_sha256;
      exit_status = exit_status;
      correctness_result = correctness_result;
    })

  unfoldable pub parse_cursor : Codec x → Option String → Result ApiError (Option (RunCursor x))
  unfolding decode
  parse_cursor codec cursor =
      map_err (λ e. invalid_request (of_cursor e)) (transpose_map (decode codec) cursor)

  unfoldable pub parse_list_params :
      Codec x → ListRunsParams x → Result ApiError (RunListFilter x × ℕ × Option (RunCursor x))
  unfolding check_limit parse_cursor parse_filter
  parse_list_params codec params = do
    limit ← check_limit (Option.get_or params.limit default_limit)
    cursor ← parse_cursor codec params.cursor
    filter ← parse_filter params
    ok (filter, limit, cursor)
