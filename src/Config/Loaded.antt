-- ===== src/Config/Loaded.antt =====
-- What a configuration that `from_env` accepts has been taken from.
use executorch_bencher.Prelude.{String, Option, ok, ◌≡◌, refl, subst, >>=-eq-ok, ok_inj}
use executorch_bencher.Config.Vars.{
  EnvVar, required_var, path_var_or_default, parse_u64_var, parse_usize_var, path_list_var,
  optional_path_var,
}
use executorch_bencher.Config.Env.{default_limits, Config, listen_addr_of, data_root_of, from_env}
use executorch_bencher.Config.Values.{
  IsU64, IsPath, IsRequired, IsPathList, required_var-IsRequired, path_var_or_default-IsPath,
  path_list_var-IsPathList, parse_u64_var-IsU64,
}

module _ (env : String → EnvVar) where
  -- What is promised of each setting.
  pub record IsLoaded {SocketAddr : Type 0} (c : Config SocketAddr) : Type 0 where
    pub database_url : IsRequired env "DATABASE_URL" c.database_url
    pub artifact_root : IsPath env "ARTIFACT_ROOT" c.data_root "artifacts" c.artifact_root
    pub model_root : IsPath env "MODEL_ROOT" c.data_root "models" c.model_root
    pub temporary_dir : IsPath env "TEMPORARY_DIR" c.data_root "temporary" c.temporary_dir
    pub trash_dir : IsPath env "TRASH_DIR" c.data_root "trash" c.trash_dir
    pub model_register_roots : IsPathList env c.model_root c.model_register_roots
    pub max_bytes : IsU64 c.limits.max_artifact_upload_bytes
    pub preview : IsU64 c.limits.output_preview_length
    pub retention : IsU64 c.limits.temp_file_retention_seconds
    pub keep_alive : IsU64 c.events_keep_alive_seconds

  -- Of a configuration that is accepted: the database URL is the value of its variable and not blank;
  -- each storage root is the value of its variable and not blank, or, if that is not set, its default
  -- beneath the data root; the roots for registration are the model root alone, or a list that is not
  -- empty and has no empty entry; and every number fits in 64 bits.
  pub from_env-IsLoaded :
      {SocketAddr : Type 0} (parse_addr : String → Option SocketAddr) (default_addr : SocketAddr)
      (c : Config SocketAddr)
      → from_env parse_addr default_addr env ≡ ok c
      → IsLoaded c
  unfolding from_env parse_usize_var parse_u64_var
  from_env-IsLoaded parse_addr default_addr c h0 =
      let (addr, e1, h1) =
        >>=-eq-ok (listen_addr_of parse_addr default_addr env (env "LISTEN_ADDR")) _ h0 in
      let (url, e2, h2) = >>=-eq-ok (required_var env "DATABASE_URL") _ h1 in
      let (artifacts, e3, h3) =
        >>=-eq-ok
          (path_var_or_default env "ARTIFACT_ROOT"
            (data_root_of parse_addr default_addr env (env "DATA_ROOT")) "artifacts")
          _ h2 in
      let (models, e4, h4) =
        >>=-eq-ok
          (path_var_or_default env "MODEL_ROOT"
            (data_root_of parse_addr default_addr env (env "DATA_ROOT")) "models")
          _ h3 in
      let (temporary, e5, h5) =
        >>=-eq-ok
          (path_var_or_default env "TEMPORARY_DIR"
            (data_root_of parse_addr default_addr env (env "DATA_ROOT")) "temporary")
          _ h4 in
      let (trash, e6, h6) =
        >>=-eq-ok
          (path_var_or_default env "TRASH_DIR"
            (data_root_of parse_addr default_addr env (env "DATA_ROOT")) "trash")
          _ h5 in
      let (roots, e7, h7) = >>=-eq-ok (path_list_var env "MODEL_REGISTER_ROOTS" models) _ h6 in
      let (dashboard, e8, h8) = >>=-eq-ok (optional_path_var env "DASHBOARD_DIST") _ h7 in
      let (max_bytes, e9, h9) =
        >>=-eq-ok
          (parse_u64_var env "MAX_ARTIFACT_UPLOAD_BYTES" default_limits.max_artifact_upload_bytes) _
          h8 in
      let (preview, e10, h10) =
        >>=-eq-ok (parse_u64_var env "OUTPUT_PREVIEW_LENGTH" default_limits.output_preview_length) _
          h9 in
      let (retention, e11, h11) =
        >>=-eq-ok
          (parse_u64_var env "TEMP_FILE_RETENTION_SECONDS"
            default_limits.temp_file_retention_seconds)
          _ h10 in
      let (keep_alive, e12, h12) =
        >>=-eq-ok (parse_u64_var env "EVENTS_KEEP_ALIVE_SECONDS" 15) _ h11 in
      subst IsLoaded (ok_inj h12) (record {
        database_url = required_var-IsRequired env "DATABASE_URL" url e2;
        artifact_root =
            path_var_or_default-IsPath env "ARTIFACT_ROOT"
              (data_root_of parse_addr default_addr env (env "DATA_ROOT")) "artifacts" artifacts e3;
        model_root =
            path_var_or_default-IsPath env "MODEL_ROOT"
              (data_root_of parse_addr default_addr env (env "DATA_ROOT")) "models" models e4;
        temporary_dir =
            path_var_or_default-IsPath env "TEMPORARY_DIR"
              (data_root_of parse_addr default_addr env (env "DATA_ROOT")) "temporary" temporary e5;
        trash_dir =
            path_var_or_default-IsPath env "TRASH_DIR"
              (data_root_of parse_addr default_addr env (env "DATA_ROOT")) "trash" trash e6;
        model_register_roots = path_list_var-IsPathList env "MODEL_REGISTER_ROOTS" models roots e7;
        max_bytes =
            parse_u64_var-IsU64 env "MAX_ARTIFACT_UPLOAD_BYTES"
              default_limits.max_artifact_upload_bytes max_bytes refl e9;
        preview =
            parse_u64_var-IsU64 env "OUTPUT_PREVIEW_LENGTH" default_limits.output_preview_length
              preview refl e10;
        retention =
            parse_u64_var-IsU64 env "TEMP_FILE_RETENTION_SECONDS"
              default_limits.temp_file_retention_seconds retention refl e11;
        keep_alive = parse_u64_var-IsU64 env "EVENTS_KEEP_ALIVE_SECONDS" 15 keep_alive refl e12;
      })
