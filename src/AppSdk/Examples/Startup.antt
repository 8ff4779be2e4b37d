-- ===== src/AppSdk/Examples/Startup.antt =====
-- appsdk/sdk.go and internal/config: the start of a service, on concrete inputs.
use app_functions_sdk_go.AppSdk.Settings.{Routes}
use app_functions_sdk_go.AppSdk.Clients.Monitor.{initialize_clients-panics}
use app_functions_sdk_go.AppSdk.Registry.Empty.{initialize_configuration-panics}
use app_functions_sdk_go.AppSdk.Clients.{initialize_clients, Contracts, EdgexClients}
use app_functions_sdk_go.AppSdk.Registry.{
  initialize_configuration, Bootstrap, RegistryClient, Environment,
}
use app_functions_sdk_go.Util.Text.{has_byte}
use app_functions_sdk_go.AppSdk.Version.{
  validate_version_match-compares, dot, validate_version_match,
}
use app_functions_sdk_go.AppSdk.Bootstrap.{Progress, Dependencies}
use app_functions_sdk_go.Configuration.Environment.{Tree, variable-taken, variable}
use app_functions_sdk_go.AppContext.{Result, ok}
use app_functions_sdk_go.Common.{ConfigurationStruct, ClientInfo}
use app_functions_sdk_go.Runtime.Examples.{config}
use app_functions_sdk_go.AppContext.{ok}
use app_functions_sdk_go.Prelude.{
  lt_int, if◌then◌else◌, ◌+◌, Bytes, Act, ◌++◌, refl, panics, true, returns, ◌===◌, none, some,
  lookup, ℕ, Str, str, Map, [], ◌∷◌, false, pos, ◌≡◌,
}

-- A core data service of version 1.2.3.
abbrev versions : Bytes → Result (Map Str)
versions bytes = ok ((str "version", str "1" ++ (dot ++ (str "2" ++ (dot ++ str "3")))) ∷ [])

abbrev answer : Str → Act ℕ (Result Bytes)
answer url w = returns (ok [], w)

version_found :
    lookup (str "version") ((str "version", str "1" ++ (dot ++ (str "2" ++ (dot ++ str "3")))) ∷ [])
    ≡ some (str "1" ++ (dot ++ (str "2" ++ (dot ++ str "3"))))
unfolding lookup ◌===◌ str
version_found = refl

validate_version_match-compares_example :
    validate_version_match
      (λ n. [])
      (str "/version")
      answer
      versions
      false
      (str "v" ++ (str "1" ++ (dot ++ (str "0" ++ (dot ++ str "4")))))
      []
      0
    ≡ returns (str "1" === str "1", 0)
unfolding str ◌===◌
validate_version_match-compares_example =
    validate_version_match-compares (λ n. []) (str "/version") answer versions [] (str "1")
      (str "0") (str "4") (str "1") (str "2") (str "3") []
      ((str "version", str "1" ++ (dot ++ (str "2" ++ (dot ++ str "3")))) ∷ []) 0 0 refl refl refl
      refl refl refl refl refl version_found

-- Dependencies that are all there.
abbrev deps : Dependencies ℕ
deps = record {
  configuration = λ w. returns (true, w + 1);
  logger = λ w. returns (true, w + 1);
  version_match = λ w. returns (true, w);
  secret_provider = λ w. returns (true, w + 1);
  store_enabled = λ w. returns (true, w);
  database = λ w. returns (true, w + 1);
  clients = λ w. returns (tt, w);
}

abbrev routes : Routes
routes = record {
  ping = 1 ∷ [];
  config = 2 ∷ [];
  metrics = 3 ∷ [];
  version = 4 ∷ [];
  logging = 5 ∷ [];
}

abbrev half_way : Progress
half_way = record { configuration = true; logger = true; secret_provider = false; database = false }

variable-taken_example :
    variable (str "a" ++ (61 ∷ str "b=c"))
    ≡ (if has_byte 61 (str "b=c") then none else some (str "a", str "b=c"))
unfolding str
variable-taken_example = variable-taken (str "a") (str "b=c") refl refl refl

-- A client monitor of 0, and a section for core data.
abbrev core_data : ClientInfo
core_data = record { host = []; port = pos 1; protocol = [] }

abbrev impatient : ConfigurationStruct
impatient = record config { clients = (str "CoreData", core_data) ∷ [] }

abbrev no_clients : EdgexClients
no_clients = record {
  event_client = none;
  reading_client = none;
  value_descriptor_client = none;
  command_client = none;
  notifications_client = none;
  addressable_client = none;
  device_client = none;
  provision_watcher_client = none;
  interval_client = none;
  interval_action_client = none;
  agent_client = none;
}

abbrev contracts : Contracts
contracts = record {
  core_data_key = [];
  core_command_key = [];
  notifications_key = [];
  metadata_key = [];
  scheduler_key = [];
  agent_key = [];
  event_route = [];
  reading_route = [];
  value_descriptor_route = [];
  device_route = [];
  notification_route = [];
  addressable_route = [];
  provision_watcher_route = [];
  interval_route = [];
  interval_action_route = [];
  config_route = [];
}

core_data_found : lookup (str "CoreData") impatient.clients ≡ some core_data
unfolding lookup ◌===◌ str
core_data_found = refl

initialize_clients-panics_example :
    initialize_clients {W = ℕ} contracts (λ n. []) (λ s. some (pos 0)) true impatient no_clients 0
    ≡ panics
unfolding lt_int
initialize_clients-panics_example =
    initialize_clients-panics contracts (λ n. []) (λ s. some (pos 0)) impatient no_clients core_data
      (pos 0) 0 refl refl core_data_found

-- A registry with a configuration without a port.
abbrev registry : RegistryClient ℕ ℕ
registry = record {
  is_alive = λ w. returns (true, w);
  has_configuration = λ w. returns (ok true, w);
  get_configuration = λ c w. returns (ok (some config), w);
  put_configuration_toml = λ tree w. returns (none, w);
  register = λ w. returns (none, w);
}

abbrev tree : Tree ℕ
tree = record { has = λ t k. false; set = λ t k v. t }

abbrev environment : Environment
environment = record { variables = []; edgex_registry = []; edgex_service = [] }

abbrev first_round : Bootstrap ℕ ℕ
first_round = record {
  use_registry = true;
  overwrite_config = false;
  service_key = [];
  logger = false;
  registry_client = none;
  config = config;
  configuration = config;
}

initialize_configuration-panics_example :
    initialize_configuration environment
      (λ s. some (pos 1))
      (λ s. none)
      tree
      (λ c. ok 0)
      (λ t. ok config)
      (λ c w. returns (ok registry, w))
      first_round
      0
    ≡ panics
initialize_configuration-panics_example =
    initialize_configuration-panics environment (λ s. some (pos 1)) (λ s. none) tree (λ c. ok 0)
      (λ t. ok config) (λ c w. returns (ok registry, w)) first_round (pos 1) registry config 0 0 0 0
      0 refl refl refl refl refl refl refl refl refl
