-- ===== src/AppSdk/Examples.antt =====
-- appsdk and pkg/util: configured functions.
mod Startup
use app_functions_sdk_go.AppSdk.Clients.Monitor.{initialize_clients-panics}
use app_functions_sdk_go.AppSdk.Registry.Empty.{initialize_configuration-panics}
use app_functions_sdk_go.AppSdk.Clients.{initialize_clients, Contracts, EdgexClients}
use app_functions_sdk_go.AppSdk.Registry.{
  initialize_configuration, Bootstrap, RegistryClient, Environment,
}
use app_functions_sdk_go.Util.Text.{has_byte}
use app_functions_sdk_go.AppSdk.CommandLine.{is_profile, apply_overrides, AllSet}
use app_functions_sdk_go.AppSdk.Version.{
  validate_version_match-compares, dot, validate_version_match,
}
use app_functions_sdk_go.AppSdk.Bootstrap.{complete, no_progress, boot, Progress, Dependencies}
use app_functions_sdk_go.AppSdk.Bootstrap.Completes.{boot-completes, AreReady}
use app_functions_sdk_go.Configuration.Environment.{Tree, variable-taken, variable}
use app_functions_sdk_go.AppContext.{Result, ok}
use app_functions_sdk_go.AppSdk.Configurable.MqttSend.{send_mqtt-panics}
use app_functions_sdk_go.Transforms.Mqtt.{MqttClient}
use app_functions_sdk_go.Transforms.Mqtt.Sender.{
  KeyCertPair, is_tls, ClientOptions, KeyPairs, to_lower,
}
use app_functions_sdk_go.Common.{ConfigurationStruct, ClientInfo, PipelineFunction, Addressable}
use app_functions_sdk_go.Runtime.Examples.{config}
use app_functions_sdk_go.AppContext.{ok}
use app_functions_sdk_go.Prelude.{
  lt_int, not, keep, any, if◌then◌else◌, ◌+◌, Bytes, Act, ◌++◌, refl, panics, true, returns, ◌===◌,
  none, some, lookup, ℕ, Str, str, Map, [], ◌∷◌, false, pos, ◌≡◌,
}
use app_functions_sdk_go.AppSdk.Configurable.{send_mqtt, mqtt_parameters, MqttParameters}

abbrev devices : Map Str
devices = (str "devicenames", str " a,, b ") ∷ []

abbrev certificates : Map Str
certificates = (str "cert", str "c.pem") ∷ (str "key", str "k.pem") ∷ []

abbrev broker : Addressable
broker = record {
  protocol = str "tls";
  address = [];
  port = pos 1;
  path = [];
  publisher = [];
  user = [];
  password = [];
  topic = [];
}

abbrev unreadable : KeyPairs ℕ
unreadable = record {
  x509_key_pair = λ cert key. none;
  load_x509_key_pair = λ cert key w. returns (none, w);
}

abbrev some_client : ClientOptions → MqttClient ℕ
some_client opts = record {
  is_connected = λ w. returns (true, w);
  connect = λ w. returns ((true, none), w);
  publish = λ topic qos retain b w. returns (none, w);
}

abbrev pair : KeyCertPair
pair = record {
  key_file = str "k.pem";
  cert_file = str "c.pem";
  key_pem_block = none;
  cert_pem_block = none;
}

abbrev mqtt : MqttParameters
mqtt = record {
  pair = some pair;
  config = record {
    qos = 0;
    retain = false;
    auto_reconnect = false;
    skip_cert_verify = false;
    user = [];
    password = [];
  };
  persist_on_error = false;
}

mqtt_read : mqtt_parameters certificates ≡ some mqtt
unfolding mqtt_parameters lookup ◌===◌ str
mqtt_read = refl

send_mqtt-panics_example : send_mqtt unreadable some_client (λ n. []) certificates broker 0 ≡ panics
unfolding to_lower is_tls str ◌===◌
send_mqtt-panics_example =
    send_mqtt-panics unreadable some_client (λ n. []) certificates broker mqtt pair 0 0 mqtt_read
      refl refl refl refl

-- An export without its URL.
abbrev post_function : PipelineFunction
post_function = record { parameters = []; addressable = broker }

abbrev functions : Map PipelineFunction
functions = (str "HTTPPostJSON", post_function) ∷ []
