-- ===== src/AppSdk/Clients.antt =====
-- appsdk/sdk.go: `initializeClients`. A client of a service is here the URL client that it is made
-- from; `time.ParseDuration`, `strconv.Itoa`, and the service keys and routes of
-- go-mod-core-contracts are parameters.
use app_functions_sdk_go.Prelude.{
  none, some, Str, Bool, Option, Act, pure, ◌>>=◌, ◌++◌, str, lookup, ℤ, ℕ, zero, suc, pos, negsuc,
  ◌/◌, ◌+◌,
}
pub mod Monitor
use app_functions_sdk_go.Common.{ClientInfo, url, ConfigurationStruct}
use app_functions_sdk_go.Endpoint.{UrlClient, new_url_client}

-- The constants of `clients`.
pub record Contracts : Type 0 where
  pub core_data_key : Str
  pub core_command_key : Str
  pub notifications_key : Str
  pub metadata_key : Str
  pub scheduler_key : Str
  pub agent_key : Str
  pub event_route : Str
  pub reading_route : Str
  pub value_descriptor_route : Str
  pub device_route : Str
  pub notification_route : Str
  pub addressable_route : Str
  pub provision_watcher_route : Str
  pub interval_route : Str
  pub interval_action_route : Str
  pub config_route : Str

-- `common.EdgeXClients`, less the logging client.
pub record EdgexClients : Type 0 where
  pub event_client : Option UrlClient
  pub reading_client : Option UrlClient
  pub value_descriptor_client : Option UrlClient
  pub command_client : Option UrlClient
  pub notifications_client : Option UrlClient
  pub addressable_client : Option UrlClient
  pub device_client : Option UrlClient
  pub provision_watcher_client : Option UrlClient
  pub interval_client : Option UrlClient
  pub interval_action_client : Option UrlClient
  pub agent_client : Option UrlClient

negated : ℕ → ℤ
negated zero = pos 0
negated (suc n) = negsuc n

-- `int(clientMonitor / time.Millisecond)`, which rounds towards zero.
unfoldable pub milliseconds : ℤ → ℤ
unfolding negated
milliseconds (pos n) = pos (n / 1000000)
milliseconds (negsuc n) = negated ((n + 1) / 1000000)

-- A client monitor that does not parse is taken for 15 seconds.
client_monitor : Option ℤ → ℤ
client_monitor none = pos 15000000000
client_monitor (some interval) = interval

module _ {W : Type 0} (contracts : Contracts) (itoa : ℤ → Str) (registry : Bool)
    (interval : ℤ) where
  service_client : Str → Str → ClientInfo → Act W UrlClient
  service_client service_key route info =
      new_url_client registry service_key route interval (url itoa info ++ route)

  core_data_clients : EdgexClients → Option ClientInfo → Act W EdgexClients
  unfolding service_client
  core_data_clients clients none = pure clients
  core_data_clients clients (some info) = do
    event ← service_client contracts.core_data_key contracts.event_route info
    reading ← service_client contracts.core_data_key contracts.reading_route info
    value_descriptor ← service_client contracts.core_data_key contracts.value_descriptor_route info
    pure (record clients {
      event_client = some event;
      reading_client = some reading;
      value_descriptor_client = some value_descriptor;
    })

  core_command_clients : EdgexClients → Option ClientInfo → Act W EdgexClients
  unfolding service_client
  core_command_clients clients none = pure clients
  core_command_clients clients (some info) = do
    command ← service_client contracts.core_command_key contracts.device_route info
    pure (record clients { command_client = some command })

  notifications_clients : EdgexClients → Option ClientInfo → Act W EdgexClients
  unfolding service_client
  notifications_clients clients none = pure clients
  notifications_clients clients (some info) = do
    notifications ← service_client contracts.notifications_key contracts.notification_route info
    pure (record clients { notifications_client = some notifications })

  metadata_clients : EdgexClients → Option ClientInfo → Act W EdgexClients
  unfolding service_client
  metadata_clients clients none = pure clients
  metadata_clients clients (some info) = do
    addressable ← service_client contracts.metadata_key contracts.addressable_route info
    device ← service_client contracts.metadata_key contracts.device_route info
    provision_watcher ← service_client contracts.metadata_key contracts.provision_watcher_route info
    pure (record clients {
      addressable_client = some addressable;
      device_client = some device;
      provision_watcher_client = some provision_watcher;
    })

  scheduler_clients : EdgexClients → Option ClientInfo → Act W EdgexClients
  unfolding service_client
  scheduler_clients clients none = pure clients
  scheduler_clients clients (some info) = do
    interval ← service_client contracts.scheduler_key contracts.interval_route info
    interval_action ← service_client contracts.scheduler_key contracts.interval_action_route info
    pure (record clients {
      interval_client = some interval;
      interval_action_client = some interval_action;
    })

  agent_clients : EdgexClients → Option ClientInfo → Act W EdgexClients
  unfolding service_client
  agent_clients clients none = pure clients
  agent_clients clients (some info) = do
    agent ← service_client contracts.agent_key contracts.config_route info
    pure (record clients { agent_client = some agent })

  unfoldable pub all_clients : ConfigurationStruct → EdgexClients → Act W EdgexClients
  unfolding core_data_clients core_command_clients notifications_clients metadata_clients
      scheduler_clients agent_clients
  all_clients config c0 = do
    c1 ← core_data_clients c0 (lookup (str "CoreData") config.clients)
    c2 ← core_command_clients c1 (lookup (str "Command") config.clients)
    c3 ← notifications_clients c2 (lookup (str "Notifications") config.clients)
    c4 ← metadata_clients c3 (lookup (str "Metadata") config.clients)
    c5 ← scheduler_clients c4 (lookup (str "Scheduler") config.clients)
    agent_clients c5 (lookup (str "Agent") config.clients)

-- `initializeClients`, with whether there is a registry client.
unfoldable pub initialize_clients :
    {W : Type 0}
    → Contracts
    → (ℤ → Str)
    → (Str → Option ℤ)
    → Bool
    → ConfigurationStruct
    → EdgexClients
    → Act W EdgexClients
unfolding client_monitor
initialize_clients contracts itoa parse_duration registry config clients =
    let interval = milliseconds (client_monitor (parse_duration config.service.client_monitor)) in
    all_clients contracts itoa registry interval config clients
