-- ===== src/Configuration/Loader.antt =====
-- internal/common/loader.go. The file system and the TOML decoder are parameters, and the value of
-- `EDGEX_CONF_DIR` is given.
use app_functions_sdk_go.Prelude.{Str, Bytes, Act, pure, ◌>>=◌, ◌++◌, str, is_empty, if◌then◌else◌}
use app_functions_sdk_go.Common.{ConfigurationStruct}
use app_functions_sdk_go.AppContext.{Result, ok, err}

unfoldable pub determine_path : Str → Str → Str
determine_path conf_dir_env config_dir =
    if is_empty config_dir
    then (if is_empty conf_dir_env then str "./res" else conf_dir_env)
    else config_dir

abbrev pub config_file : Str → Str → Str
config_file path profile =
    if is_empty profile
    then path ++ (str "/" ++ str "configuration.toml")
    else path ++ (str "/" ++ (profile ++ (str "/" ++ str "configuration.toml")))

module _ {W : Type 0} (read_file : Str → Act W (Result Bytes))
    (unmarshal : Bytes → Result ConfigurationStruct) where
  decoded : Str → Result ConfigurationStruct → Result ConfigurationStruct
  decoded file_name (ok configuration) = ok configuration
  decoded file_name (err e) =
      err (str "Unable to parse configuration file (" ++ (file_name ++ (str "): " ++ e)))

  loaded : Str → Result Bytes → Result ConfigurationStruct
  unfolding decoded
  loaded file_name (ok contents) = decoded file_name (unmarshal contents)
  loaded file_name (err e) =
      err (str "Could not load configuration file (" ++ (file_name ++ (str "): " ++ e)))

  unfoldable pub load_from_file : Str → Str → Str → Act W (Result ConfigurationStruct)
  unfolding loaded determine_path
  load_from_file conf_dir_env profile config_dir = do
    let file_name = config_file (determine_path conf_dir_env config_dir) profile
    contents ← read_file file_name
    pure (loaded file_name contents)
