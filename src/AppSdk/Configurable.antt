-- ===== src/AppSdk/Configurable.antt =====
-- appsdk/configurable.go: the functions of a configured pipeline, from their parameters. Log
-- messages are left out.
pub mod Parameters
pub mod MqttSend
use app_functions_sdk_go.Prelude.{
  List, [], ◌∷◌, none, some, true, false, ◌++◌, ◌&&◌, ◌||◌, Str, Bytes, Bool, Option, ℤ, pos,
  negsuc, ℕ, ◌===◌, str, Act, pure, panic, ◌>>=◌, if◌then◌else◌, is_some, ◌%◌, ◌-◌, Map, lookup,
  is_empty,
}
use app_functions_sdk_go.Common.{Addressable}
use app_functions_sdk_go.Util.{
  trim_space, delete_empty_and_trim, fields_func, split_comma, parse_bool, atoi,
}
use app_functions_sdk_go.Transforms.Filter.{Filter, new_filter}
use app_functions_sdk_go.Transforms.Compression.{Compression, new_compression}
use app_functions_sdk_go.Transforms.Encryption.{Encryption}
use app_functions_sdk_go.Transforms.Output.{CoreData}
use app_functions_sdk_go.Transforms.Http.{HttpSender, new_http_sender}
use app_functions_sdk_go.Transforms.Mqtt.{MqttConfig, MqttClient, MqttSender}
use app_functions_sdk_go.Transforms.Mqtt.Sender.{
  KeyPairs, KeyCertPair, ClientOptions, new_mqtt_sender,
}

-- An `appcontext.AppFunction` that is not nil: a method, with its receiver.
pub data Method (W : Type 0) : Type 0 where
  filter_by_device_name : Filter → Method W
  filter_by_value_descriptor : Filter → Method W
  transform_to_xml : Method W
  transform_to_json : Method W
  mark_as_pushed : Method W
  push_to_core_data : CoreData → Method W
  compress_with_gzip : Compression → Method W
  compress_with_zlib : Compression → Method W
  encrypt_with_aes : Encryption → Method W
  http_post : HttpSender → Method W
  mqtt_send : MqttSender W → Method W
  set_output_data : Method W

-- The zero value where the parameter is missing.
unfoldable pub parameter : Str → Map Str → Str
parameter key parameters = elim (lookup key parameters) [ none ↦ [] | some value ↦ value ]

-- A Boolean parameter that may be missing, and is false then; `none` where it is no Boolean.
unfoldable pub optional_bool : Str → Map Str → Option Bool
optional_bool key parameters = elim (lookup key parameters) [
  | none ↦ some false
  | some value ↦ parse_bool value
]

-- A parameter that is not read where it is empty.
unfoldable pub bool_or_empty : Str → Map Str → Option Bool
unfolding parameter
bool_or_empty key parameters =
    if is_empty (parameter key parameters)
    then some false
    else parse_bool (parameter key parameters)

unfoldable pub optional_int : Str → Map Str → Option ℤ
optional_int key parameters = elim (lookup key parameters) [
  | none ↦ some (pos 0)
  | some value ↦ atoi value
]

-- `byte(i)`: the low eight bits.
unfoldable pub to_byte : ℤ → ℕ
to_byte (pos n) = n % 256
to_byte (negsuc n) = 255 - n % 256

infixr 5 ◌given◌
-- `return nil` where the value is missing.
abbrev pub ◌given◌ : {A B : Type 0} → Option A → (A → Option B) → Option B
none given k = none
(some a) given k = k a

-- The names of a list with commas.
pub names : Str → List Str
names text = delete_empty_and_trim (fields_func text split_comma)

-- `PersistOnError` and the `DeviceNames` key and so on, as the source spells them.
abbrev pub persist_on_error_key : Str
persist_on_error_key = str "persistOnError"

module _ {W : Type 0} where
  unfoldable pub filter_devices : Map Str → Option (Method W)
  unfolding names
  filter_devices parameters = lookup (str "devicenames") parameters given λ device_names.
      some (filter_by_device_name (new_filter (names device_names)))

  unfoldable pub filter_descriptors : Map Str → Option (Method W)
  unfolding names
  filter_descriptors parameters =
      lookup (str "valuedescriptors") parameters given λ value_descriptors.
      some (filter_by_value_descriptor (new_filter (names value_descriptors)))

  unfoldable pub to_xml : Option (Method W)
  to_xml = some transform_to_xml

  unfoldable pub to_json : Option (Method W)
  to_json = some transform_to_json

  unfoldable pub mark_pushed : Option (Method W)
  mark_pushed = some mark_as_pushed

  unfoldable pub push_to_core : Map Str → Option (Method W)
  push_to_core parameters = lookup (str "devicename") parameters given λ device_name.
      lookup (str "readingname") parameters given λ reading_name. some (
        push_to_core_data
          (record { device_name = trim_space device_name; reading_name = trim_space reading_name }))

  unfoldable pub compress_gzip : Option (Method W)
  compress_gzip = some (compress_with_gzip new_compression)

  unfoldable pub compress_zlib : Option (Method W)
  compress_zlib = some (compress_with_zlib new_compression)

  unfoldable pub encrypt_aes : Map Str → Option (Method W)
  encrypt_aes parameters = lookup (str "key") parameters given λ key.
      lookup (str "initvector") parameters given λ init_vector.
      some (encrypt_with_aes (record { key = key; initialization_vector = init_vector }))

  unfoldable pub post : Map Str → Option (Method W)
  unfolding optional_bool
  post parameters = lookup (str "url") parameters given λ url.
      lookup (str "mimetype") parameters given λ mime_type.
      optional_bool persist_on_error_key parameters given λ persist_on_error. some (
        http_post (record {
          url = trim_space url;
          mime_type = trim_space mime_type;
          persist_on_error = persist_on_error;
        }))

  unfoldable pub post_as : Str → Map Str → Option (Method W)
  unfolding optional_bool
  post_as mime_type parameters = lookup (str "url") parameters given λ url.
      optional_bool persist_on_error_key parameters given λ persist_on_error.
      some (http_post (new_http_sender (trim_space url) mime_type persist_on_error))

  unfoldable pub post_json : Map Str → Option (Method W)
  unfolding post_as
  post_json parameters = post_as (str "application/json") parameters

  unfoldable pub post_xml : Map Str → Option (Method W)
  unfolding post_as
  post_xml parameters = post_as (str "application/xml") parameters

  unfoldable pub set_output : Option (Method W)
  set_output = some set_output_data

-- What `MQTTSend` reads of its parameters.
pub record MqttParameters : Type 0 where
  pub pair : Option KeyCertPair
  pub config : MqttConfig
  pub persist_on_error : Bool

unfoldable pub key_cert_pair : Str → Str → Option KeyCertPair
key_cert_pair cert key =
    if is_empty cert || is_empty key
    then none
    else some
        (record { key_file = key; cert_file = cert; key_pem_block = none; cert_pem_block = none })

unfoldable pub mqtt_parameters : Map Str → Option MqttParameters
unfolding parameter optional_bool optional_int bool_or_empty to_byte key_cert_pair
mqtt_parameters parameters = optional_int (str "qos") parameters given λ qos.
    optional_bool (str "retain") parameters given λ retain.
    optional_bool (str "autoreconnect") parameters given λ auto_reconnect.
    optional_bool persist_on_error_key parameters given λ persist_on_error.
    bool_or_empty (str "skipverify") parameters given λ skip_cert_verify. some (record {
      pair = key_cert_pair (parameter (str "cert") parameters) (parameter (str "key") parameters);
      config = record {
        qos = to_byte qos;
        retain = retain;
        auto_reconnect = auto_reconnect;
        skip_cert_verify = skip_cert_verify;
        user = [];
        password = [];
      };
      persist_on_error = persist_on_error;
    })

module _ {W : Type 0} (key_pairs : KeyPairs W) (new_client : ClientOptions → MqttClient W)
    (itoa : ℤ → Str) where
  -- `sender.MQTTSend` copies the sender that the pointer points to: a nil pointer panics.
  pub method_of : Option (MqttSender W) → Act W (Option (Method W))
  method_of none = panic
  method_of (some sender) = pure (some (mqtt_send sender))

  pub mqtt_method : Addressable → Option MqttParameters → Act W (Option (Method W))
  unfolding method_of
  mqtt_method addr none = pure none
  mqtt_method addr (some p) = do
    sender ← new_mqtt_sender key_pairs new_client itoa addr p.pair p.config p.persist_on_error
    method_of sender

  unfoldable pub send_mqtt : Map Str → Addressable → Act W (Option (Method W))
  unfolding mqtt_method
  send_mqtt parameters addr = mqtt_method addr (mqtt_parameters parameters)
