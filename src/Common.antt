-- ===== src/Common.antt =====
-- internal/common/config.go: the configuration of an application service. Of `vault.SecretConfig`,
-- which another module declares, the fields that the SDK reads are here; `types.MessageBusConfig`
-- is left out, since no modelled code reads it. Go maps are association lists.
use app_functions_sdk_go.Prelude.{Option, Str, Map, ℤ, Bool, ◌++◌, str}

-- `models.Addressable` of go-mod-core-contracts, with the fields that the SDK reads.
pub record Addressable : Type 0 where
  pub protocol : Str
  pub address : Str
  pub port : ℤ
  pub path : Str
  pub publisher : Str
  pub user : Str
  pub password : Str
  pub topic : Str

pub record PipelineFunction : Type 0 where
  pub parameters : Map Str
  pub addressable : Addressable

pub record PipelineInfo : Type 0 where
  pub execution_order : Str
  pub use_target_type_of_byte_array : Bool
  pub functions : Map PipelineFunction

pub record StoreAndForwardInfo : Type 0 where
  pub enabled : Bool
  pub retry_interval : Str
  pub max_retry_count : ℤ

pub record InsecureSecretsInfo : Type 0 where
  pub path : Str
  pub secrets : Map Str

pub record WritableInfo : Type 0 where
  pub log_level : Str
  pub pipeline : PipelineInfo
  pub store_and_forward : StoreAndForwardInfo
  pub insecure_secrets : Map InsecureSecretsInfo

pub record ClientInfo : Type 0 where
  pub host : Str
  pub port : ℤ
  pub protocol : Str

pub record LoggingInfo : Type 0 where
  pub enable_remote : Bool
  pub file : Str

pub record DatabaseInfo : Type 0 where
  pub type_name : Str
  pub host : Str
  pub port : ℤ
  pub timeout : Str
  pub username : Str
  pub password : Str
  pub max_idle : ℤ
  pub batch_size : ℤ

pub record RegistryInfo : Type 0 where
  pub host : Str
  pub port : ℤ
  pub type_name : Str

pub record ServiceInfo : Type 0 where
  pub boot_timeout : Str
  pub check_interval : Str
  pub client_monitor : Str
  pub host : Str
  pub https_cert : Str
  pub https_key : Str
  pub port : ℤ
  pub protocol : Str
  pub startup_msg : Str
  pub read_max_limit : ℤ
  pub timeout : Str

-- `vault.SecretConfig` of go-mod-secrets, with its `Authentication.AuthToken`.
pub record SecretConfig : Type 0 where
  pub host : Str
  pub port : ℤ
  pub path : Str
  pub protocol : Str
  pub namespace : Str
  pub root_ca_cert_path : Str
  pub server_name : Str
  pub auth_token : Str

pub record SecretStoreInfo : Type 0 where
  pub secret_config : SecretConfig
  pub token_file : Str

pub record BindingInfo : Type 0 where
  pub type_name : Str
  pub subscribe_topic : Str
  pub publish_topic : Str

pub record ConfigurationStruct : Type 0 where
  pub writable : WritableInfo
  pub logging : LoggingInfo
  pub registry : RegistryInfo
  pub service : ServiceInfo
  pub binding : BindingInfo
  pub application_settings : Option (Map Str)
  pub clients : Map ClientInfo
  pub database : DatabaseInfo
  pub secret_store : SecretStoreInfo

-- `ClientInfo.Url`; `strconv.Itoa` is a parameter.
unfoldable pub url : (ℤ → Str) → ClientInfo → Str
url itoa c = c.protocol ++ (str "://" ++ (c.host ++ (str ":" ++ itoa c.port)))
