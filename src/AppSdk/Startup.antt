-- ===== src/AppSdk/Startup.antt =====
-- appsdk/sdk.go: `Initialize` from the reading of the configuration file on. The rounds that fit into
-- the boot timeout are a parameter.
use app_functions_sdk_go.Prelude.{
  [], none, some, Str, ℕ, ℤ, pos, Option, List, Act, pure, ◌>>=◌, str,
}
use app_functions_sdk_go.Common.{ConfigurationStruct}
use app_functions_sdk_go.AppContext.{Result, ok, err, GoError}
use app_functions_sdk_go.AppSdk.Bootstrap.{
  Dependencies, Outcome, complete, incompatible_version, no_secret_provider, timed_out, boot,
  no_progress,
}
use app_functions_sdk_go.AppSdk.Settings.{Routes}
use app_functions_sdk_go.WebServer.Routes.{Route, configure_standard_routes}

-- In nanoseconds; a timeout that does not parse is taken for 30 seconds.
pub timeout_or_default : Option ℤ → ℤ
timeout_or_default none = pos 30000000000
timeout_or_default (some boot_timeout) = boot_timeout

outcome_error : Outcome → Option GoError
outcome_error complete = none
outcome_error incompatible_version =
    some (str "core service's version is not compatible with SDK's version")
outcome_error no_secret_provider = some (str "unable to initialize secret provider")
outcome_error timed_out = some (str "bootstrap retry timed out")

module _ {W : Type 0} (parse_duration : Str → Option ℤ) (rounds : ℤ → ℕ)
    (deps : ConfigurationStruct → Dependencies W) (routes : Routes) (api_base : Str) where
  -- Without an error there is a web server with the standard routes.
  booted : Outcome → List Route × Option GoError
  unfolding outcome_error
  booted complete = (configure_standard_routes routes api_base [], none)
  booted outcome = ([], outcome_error outcome)

  with_file : Result ConfigurationStruct → Act W (List Route × Option GoError)
  unfolding booted timeout_or_default
  with_file (err e) = pure ([], some e)
  with_file (ok configuration) = do
    outcome ←
        boot (deps configuration)
          (rounds (timeout_or_default (parse_duration configuration.service.boot_timeout)))
          no_progress
    pure (booted outcome)

  unfoldable pub initialize_sdk :
      Act W (Result ConfigurationStruct) → Act W (List Route × Option GoError)
  unfolding with_file
  initialize_sdk read_configuration_from_file = do
    configuration ← read_configuration_from_file
    with_file configuration
