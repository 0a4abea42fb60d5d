-- ===== src/Tests/Configuring.antt =====
-- A configuration from an environment with one variable set.
use executorch_bencher.Prelude.{String, Option, some, none, [], ◌∷◌, ok, ◌≡◌, refl, if◌then◌else◌}
use executorch_bencher.Prelude.Text.{str_eq}
use executorch_bencher.Config.Vars.{
  EnvVar, not_present, value, required_var, required_of, path_var_or_default, path_of,
  optional_path_var, optional_path_of, parse_u64_var, parse_usize_var, u64_of, path_list_var,
  path_list_of,
}
use executorch_bencher.Config.Env.{Config, default_limits, from_env, listen_addr_of, data_root_of}
use executorch_bencher.Config.Loaded.{IsLoaded, from_env-IsLoaded}

abbrev env : String → EnvVar
env name = if str_eq name "DATABASE_URL" then value "sqlite://b" else not_present

abbrev parse_addr : String → Option String
parse_addr s = some s

abbrev config : Config String
config = record {
  listen_addr = "0.0.0.0:3000";
  database_url = "sqlite://b";
  data_root = "data";
  artifact_root = "data/artifacts";
  model_root = "data/models";
  model_register_roots = "data/models" ∷ [];
  temporary_dir = "data/temporary";
  trash_dir = "data/trash";
  dashboard_dist = none;
  limits = default_limits;
  events_keep_alive_seconds = 15;
}

was_loaded : from_env parse_addr "0.0.0.0:3000" env ≡ ok config
unfolding from_env listen_addr_of data_root_of required_var required_of path_var_or_default path_of
    path_list_var path_list_of optional_path_var optional_path_of parse_u64_var parse_usize_var
    u64_of
was_loaded = refl

from_env-IsLoaded_example : IsLoaded env config
from_env-IsLoaded_example = from_env-IsLoaded env parse_addr "0.0.0.0:3000" config was_loaded
