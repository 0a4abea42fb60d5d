-- ===== src/Config/Env.antt =====
-- src/config.rs: `Config::from_env` and the checks at start-up.
use executorch_bencher.Prelude.{
  ℕ, ◌*◌, String, Bool, not, Option, some, none, List, Result, ok, err, ◌>>=◌, if◌then◌else◌,
}
use executorch_bencher.Prelude.Text.{is_blank, path_join}
use executorch_bencher.Config.Vars.{
  EnvVar, not_present, not_unicode, value, ConfigError, bad_listen_addr, empty_listen_addr,
  not_a_directory, no_index, trim, required_var, path_var_or_default, optional_path_var,
  parse_u64_var, parse_usize_var, path_list_var,
}

pub record StorageLimits : Type 0 where
  pub max_artifact_upload_bytes : ℕ
  pub output_preview_length : ℕ
  pub temp_file_retention_seconds : ℕ

-- `StorageLimits::default`
abbrev pub default_limits : StorageLimits
default_limits = record {
  max_artifact_upload_bytes = 512 * 1024 * 1024;
  output_preview_length = 2048;
  temp_file_retention_seconds = 24 * 60 * 60;
}

pub record Config (SocketAddr : Type 0) : Type 0 where
  pub listen_addr : SocketAddr
  pub database_url : String
  pub data_root : String
  pub artifact_root : String
  pub model_root : String
  pub model_register_roots : List String
  pub temporary_dir : String
  pub trash_dir : String
  pub dashboard_dist : Option String
  pub limits : StorageLimits
  pub events_keep_alive_seconds : ℕ

-- `SocketAddr` and its parser are the standard library's; `default_addr` is `0.0.0.0:3000`.
module _ {SocketAddr : Type 0} (parse_addr : String → Option SocketAddr) (default_addr : SocketAddr)
    (env : String → EnvVar) where
  unfoldable pub parsed_addr : Option SocketAddr → Result ConfigError SocketAddr
  parsed_addr none = err bad_listen_addr
  parsed_addr (some a) = ok a

  unfoldable pub listen_addr_of : EnvVar → Result ConfigError SocketAddr
  unfolding parsed_addr trim
  listen_addr_of not_present = ok default_addr
  listen_addr_of not_unicode = ok default_addr
  listen_addr_of (value v) =
      if is_blank v then err empty_listen_addr else parsed_addr (parse_addr (trim v))

  -- `env::var("DATA_ROOT").unwrap_or_else(|_| "data")`
  unfoldable pub data_root_of : EnvVar → String
  data_root_of not_present = "data"
  data_root_of not_unicode = "data"
  data_root_of (value v) = v

  unfoldable pub from_env : Result ConfigError (Config SocketAddr)
  unfolding listen_addr_of data_root_of required_var path_var_or_default path_list_var
      optional_path_var parse_u64_var parse_usize_var
  from_env = do
    listen_addr ← listen_addr_of (env "LISTEN_ADDR")
    database_url ← required_var env "DATABASE_URL"
    let data_root = data_root_of (env "DATA_ROOT")
    artifact_root ← path_var_or_default env "ARTIFACT_ROOT" data_root "artifacts"
    model_root ← path_var_or_default env "MODEL_ROOT" data_root "models"
    temporary_dir ← path_var_or_default env "TEMPORARY_DIR" data_root "temporary"
    trash_dir ← path_var_or_default env "TRASH_DIR" data_root "trash"
    model_register_roots ← path_list_var env "MODEL_REGISTER_ROOTS" model_root
    dashboard_dist ← optional_path_var env "DASHBOARD_DIST"
    max_bytes ←
        parse_u64_var env "MAX_ARTIFACT_UPLOAD_BYTES" default_limits.max_artifact_upload_bytes
    preview ← parse_usize_var env "OUTPUT_PREVIEW_LENGTH" default_limits.output_preview_length
    retention ←
        parse_u64_var env "TEMP_FILE_RETENTION_SECONDS" default_limits.temp_file_retention_seconds
    keep_alive ← parse_u64_var env "EVENTS_KEEP_ALIVE_SECONDS" 15
    ok (record {
      listen_addr = listen_addr;
      database_url = database_url;
      data_root = data_root;
      artifact_root = artifact_root;
      model_root = model_root;
      model_register_roots = model_register_roots;
      temporary_dir = temporary_dir;
      trash_dir = trash_dir;
      dashboard_dist = dashboard_dist;
      limits = record {
        max_artifact_upload_bytes = max_bytes;
        output_preview_length = preview;
        temp_file_retention_seconds = retention;
      };
      events_keep_alive_seconds = keep_alive;
    })

-- `is_dir` and `is_file` are the operating system's.
module _ (is_dir is_file : String → Bool) where
  unfoldable pub validate_dashboard_dist : Option String → Result ConfigError (Unit {0})
  validate_dashboard_dist none = ok tt
  validate_dashboard_dist (some dir) =
      if not (is_dir dir)
      then err (not_a_directory dir)
      else if not (is_file (path_join dir "index.html"))
      then err (no_index dir)
      else ok tt
