-- ===== src/AppSdk/Registry.antt =====
-- appsdk/sdk.go: `initializeConfiguration`. The registry client, `time.ParseDuration`, `url.Parse` and
-- the TOML library are parameters; the environment is given.
pub mod Empty
use app_functions_sdk_go.Prelude.{
  none, some, true, false, Str, Bool, Option, List, Act, pure, panic, ◌>>=◌, ◌++◌, str, ℤ, is_zero,
  if◌then◌else◌, not, ◌&&◌,
}
use app_functions_sdk_go.Common.{ConfigurationStruct}
use app_functions_sdk_go.AppContext.{Result, ok, err, GoError}
use app_functions_sdk_go.Configuration.Environment.{
  Url, Tree, new_environment, override_registry_info, override_service_info,
  override_from_environment,
}

-- `registry.Client` of go-mod-registry. `get_configuration` gives nothing where what it gets is
-- no configuration of the SDK's type.
pub record RegistryClient (W T : Type 0) : Type 0 where
  pub is_alive : Act W Bool
  pub has_configuration : Act W (Result Bool)
  pub get_configuration : ConfigurationStruct → Act W (Result (Option ConfigurationStruct))
  pub put_configuration_toml : T → Act W (Option GoError)
  pub register : Act W (Option GoError)

-- `types.Config` of go-mod-registry.
pub record RegistryConfig : Type 0 where
  pub host : Str
  pub port : ℤ
  pub type_name : Str
  pub check_interval : Str
  pub service_key : Str
  pub service_host : Str
  pub service_port : ℤ
  pub service_protocol : Str

-- The environment: all variables, and those of the two URLs.
pub record Environment : Type 0 where
  pub variables : List Str
  pub edgex_registry : Str
  pub edgex_service : Str

-- The fields of the SDK that are used, with whether the logging client is there, and the
-- configuration that the pointer leads to.
pub record Bootstrap (W T : Type 0) : Type 0 where
  pub use_registry : Bool
  pub overwrite_config : Bool
  pub service_key : Str
  pub logger : Bool
  pub registry_client : Option (RegistryClient W T)
  pub config : ConfigurationStruct
  pub configuration : ConfigurationStruct

module _ {W T : Type 0} (env : Environment) (parse_duration : Str → Option ℤ)
    (parse_url : Str → Option Url) (toml : Tree T) (marshal : ConfigurationStruct → Result T)
    (unmarshal : T → Result ConfigurationStruct)
    (new_registry_client : RegistryConfig → Act W (Result (RegistryClient W T))) where
  abbrev Step : Type 0
  Step = Act W (Bootstrap W T × Option GoError)

  abbrev fails : Bootstrap W T → Str → Str → Step
  fails s text e = pure (s, some (text ++ e))

  -- `sdk.config = *configuration`
  taken : Bootstrap W T → ConfigurationStruct → Option GoError → Step
  taken s configuration (some e) = fails s (str "could not register service with Registry: ") e
  taken s configuration none = pure (record s { config = configuration }, none)

  register : Bootstrap W T → RegistryClient W T → ConfigurationStruct → Step
  unfolding taken
  register s client configuration = do e ← client.register; taken s configuration e

  -- The logging client is nil before the logger is initialized.
  check_port : Bootstrap W T → RegistryClient W T → ConfigurationStruct → Step
  unfolding register
  check_port s client actual =
      if is_zero actual.service.port && not s.logger then panic else register s client actual

  pulled : Bootstrap W T → RegistryClient W T → Result (Option ConfigurationStruct) → Step
  unfolding check_port
  pulled s client (err e) = fails s (str "could not get configuration from Registry: ") e
  pulled s client (ok none) = pure (s, some (str "configuration from Registry failed type check"))
  pulled s client (ok (some actual)) = check_port s client actual

  unmarshaled : Bootstrap W T → RegistryClient W T → Result ConfigurationStruct → Step
  unfolding register
  unmarshaled s client (err e) = fails s (str "could not marshal configTree to configuration: ") e
  unmarshaled s client (ok configuration) =
      register (record s { configuration = configuration }) client configuration

  pushed : Bootstrap W T → RegistryClient W T → T → Option GoError → Step
  unfolding unmarshaled
  pushed s client tree (some e) = fails s (str "could not push configuration into registry: ") e
  pushed s client tree none = unmarshaled s client (unmarshal tree)

  push : Bootstrap W T → RegistryClient W T → Result T → Step
  unfolding pushed
  push s client (err e) = pure (s, some e)
  push s client (ok tree) = do
    let tree' = override_from_environment toml (new_environment env.variables) tree
    e ← client.put_configuration_toml tree'
    pushed s client tree' e

  pull_or_push : Bootstrap W T → RegistryClient W T → Bool → Step
  unfolding pulled push
  pull_or_push s client true = do
    actual ← client.get_configuration s.configuration
    pulled s client actual
  pull_or_push s client false = push s client (marshal s.configuration)

  synchronized : Bootstrap W T → RegistryClient W T → Result Bool → Step
  unfolding pull_or_push
  synchronized s client (err e) =
      fails s (str "could not determine if registry has configuration: ") e
  synchronized s client (ok has_config) =
      pull_or_push s client (not s.overwrite_config && has_config)

  alive : Bootstrap W T → RegistryClient W T → Bool → Step
  unfolding synchronized
  alive s client false =
      pure (
        s,
        some (str "registry (" ++ (s.configuration.registry.type_name ++ str ") is not running")),
      )
  alive s client true = do has_config ← client.has_configuration; synchronized s client has_config

  connected : Bootstrap W T → Result (RegistryClient W T) → Step
  unfolding alive
  connected s (err e) = fails s (str "connection to Registry could not be made: ") e
  connected s (ok client) = do
    is_alive ← client.is_alive
    alive (record s { registry_client = some client }) client is_alive

  abbrev pub registry_config : Str → ConfigurationStruct → RegistryConfig
  registry_config service_key configuration = record {
    host = configuration.registry.host;
    port = configuration.registry.port;
    type_name = configuration.registry.type_name;
    check_interval = configuration.service.check_interval;
    service_key = service_key;
    service_host = configuration.service.host;
    service_port = configuration.service.port;
    service_protocol = configuration.service.protocol;
  }

  connect_every : Bootstrap W T → Option ℤ → Step
  unfolding connected
  connect_every s none = pure (s, some (str "failed to parse Service.CheckInterval"))
  connect_every s (some interval) = do
    client ← new_registry_client (registry_config s.service_key s.configuration)
    connected s client

  -- The registry and the service as the environment has them.
  pub with_overrides : Bootstrap W T → Bootstrap W T
  with_overrides s = record s {
    configuration = record s.configuration {
      registry = override_registry_info parse_url env.edgex_registry s.configuration.registry;
      service = override_service_info parse_url env.edgex_service s.configuration.service;
    };
  }

  with_registry : Bootstrap W T → Step
  unfolding connect_every
  with_registry s = connect_every s (parse_duration s.configuration.service.check_interval)

  registry_or_file : Bootstrap W T → Bool → Step
  unfolding with_registry with_overrides
  registry_or_file s true = with_registry (with_overrides s)
  registry_or_file s false = pure (record s { config = s.configuration }, none)

  unfoldable pub initialize_configuration : Bootstrap W T → Step
  unfolding registry_or_file
  initialize_configuration s = registry_or_file s s.use_registry
