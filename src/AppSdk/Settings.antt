-- ===== src/AppSdk/Settings.antt =====
-- appsdk/sdk.go: `AddRoute`, `ApplicationSettings`, `GetServiceURLViaConfigFile`,
-- `GetServiceURLViaRegistry`, `GetAppSettingStrings` and `setLoggingTarget`. The routes of
-- go-mod-core-contracts, the registry and the web server are parameters.
use app_functions_sdk_go.Prelude.{
  none, some, Str, Bool, Option, List, Act, pure, ◌>>=◌, ◌===◌, ◌++◌, str, Map, lookup, ℤ,
  if◌then◌else◌, ◌||◌,
}
use app_functions_sdk_go.Common.{ClientInfo, url, ConfigurationStruct}
use app_functions_sdk_go.AppContext.{Result, ok, err, GoError}
use app_functions_sdk_go.Util.{delete_empty_and_trim, fields_func, split_comma}
use app_functions_sdk_go.AppSdk.Version.{client_info}

-- The routes of `clients`.
pub record Routes : Type 0 where
  pub ping : Str
  pub config : Str
  pub metrics : Str
  pub version : Str
  pub logging : Str

unfoldable pub is_reserved : Routes → Str → Bool
is_reserved routes route =
    route === routes.ping
    || (route === routes.config
        || (route === routes.metrics
            || (route === routes.version || route === str "/api/v1/trigger")))

-- `AddRoute`; adding the route to the web server may fail.
unfoldable pub add_route :
    {W : Type 0} → Routes → (Str → Act W (Option GoError)) → Str → Act W (Option GoError)
add_route routes web_server route =
    if is_reserved routes route then pure (some (str "route is reserved")) else web_server route

split_setting : Str → Option Str → Result (List Str)
split_setting setting none = err (setting ++ str " setting not found in ApplicationSettings")
split_setting setting (some value) = ok (delete_empty_and_trim (fields_func value split_comma))

app_setting_strings : Str → Option (Map Str) → Result (List Str)
unfolding split_setting
app_setting_strings setting none =
    err (setting ++ str " setting not found: ApplicationSettings section is missing")
app_setting_strings setting (some settings) = split_setting setting (lookup setting settings)

unfoldable pub get_app_setting_strings : ConfigurationStruct → Str → Result (List Str)
unfolding app_setting_strings
get_app_setting_strings config setting = app_setting_strings setting config.application_settings

unfoldable pub application_settings : ConfigurationStruct → Option (Map Str)
application_settings config = config.application_settings

module _ (itoa : ℤ → Str) where
  unfoldable pub get_service_url_via_config_file : ConfigurationStruct → Str → Str
  get_service_url_via_config_file config service_name =
      url itoa (client_info (lookup service_name config.clients))

  -- The host and port that the registry gives.
  endpoint_url : Result (Str × ℤ) → Result Str
  endpoint_url (err e) = err e
  endpoint_url (ok (host, port)) =
      ok (str "http" ++ (str "://" ++ (host ++ (str ":" ++ itoa port))))

  unfoldable pub get_service_url_via_registry :
      {W : Type 0} → (Str → Act W (Result (Str × ℤ))) → Str → Act W (Result Str)
  unfolding endpoint_url
  get_service_url_via_registry get_service_endpoint service_name = do
    endpoint ← get_service_endpoint service_name
    pure (endpoint_url endpoint)

  remote_target : Routes → Option ClientInfo → Result Str
  remote_target routes none = err (str "logging client configuration is missing")
  remote_target routes (some logging) = ok (url itoa logging ++ routes.logging)

  unfoldable pub set_logging_target : Routes → ConfigurationStruct → Result Str
  unfolding remote_target
  set_logging_target routes config =
      if config.logging.enable_remote
      then remote_target routes (lookup (str "Logging") config.clients)
      else ok config.logging.file
