-- ===== src/Transforms/Mqtt/Sender.antt =====
-- pkg/transforms/mqtt.go: `NewMQTTSender`. The paho client, the loaders of X.509 key pairs (which
-- may read files) and `strconv.Itoa` are parameters.
use app_functions_sdk_go.Prelude.{
  none, some, ◌++◌, ◌&&◌, ◌||◌, Str, Bytes, Bool, Option, ℤ, ◌===◌, str, Act, pure, ◌>>=◌,
  if◌then◌else◌, leb, map, ◌+◌,
}
use app_functions_sdk_go.Common.{Addressable}
use app_functions_sdk_go.Transforms.Mqtt.{MqttConfig, MqttClient, MqttSender}

-- A PEM block that is nil is `none`.
pub record KeyCertPair : Type 0 where
  pub key_file : Str
  pub cert_file : Str
  pub key_pem_block : Option Bytes
  pub cert_pem_block : Option Bytes

-- The bytes of a loaded certificate.
abbrev pub Certificate : Type 0
Certificate = Bytes

pub record TlsConfig : Type 0 where
  pub insecure_skip_verify : Bool
  pub certificate : Certificate

-- `MQTT.ClientOptions`, as far as the SDK sets them.
pub record ClientOptions : Type 0 where
  pub broker : Str
  pub client_id : Str
  pub username : Str
  pub password : Str
  pub auto_reconnect : Bool
  pub tls_config : Option TlsConfig

-- `tls.X509KeyPair` of the two PEM blocks, and `tls.LoadX509KeyPair` of the two files, certificate
-- first; `none` where they fail.
pub record KeyPairs (W : Type 0) : Type 0 where
  pub x509_key_pair : Bytes → Bytes → Option Certificate
  pub load_x509_key_pair : Str → Str → Act W (Option Certificate)

-- `strings.ToLower`, on ASCII text.
unfoldable pub to_lower : Str → Str
to_lower s = map (λ c. if leb 65 c && leb c 90 then c + 32 else c) s

unfoldable pub is_tls : Str → Bool
is_tls protocol = protocol === str "tcps" || (protocol === str "ssl" || protocol === str "tls")

pub client_options : (ℤ → Str) → Addressable → MqttConfig → ClientOptions
unfolding to_lower
client_options itoa addr config = record {
  broker =
      to_lower addr.protocol
      ++ (str "://" ++ (addr.address ++ (str ":" ++ (itoa addr.port ++ addr.path))));
  client_id = addr.publisher;
  username = addr.user;
  password = addr.password;
  auto_reconnect = config.auto_reconnect;
  tls_config = none;
}

module _ {W : Type 0} (key_pairs : KeyPairs W) (new_client : ClientOptions → MqttClient W)
    (itoa : ℤ → Str) where
  -- The PEM blocks where both are there, or else the files.
  unfoldable pub load : KeyCertPair → Option Bytes → Option Bytes → Act W (Option Certificate)
  load pair (some key) (some cert) = pure (key_pairs.x509_key_pair cert key)
  load pair key cert = key_pairs.load_x509_key_pair pair.cert_file pair.key_file

  pub sender : Addressable → MqttConfig → Bool → ClientOptions → MqttSender W
  sender addr config persist_on_error opts = record {
    client = new_client opts;
    topic = addr.topic;
    opts = config;
    persist_on_error = persist_on_error;
  }

  -- A certificate that cannot be loaded makes the function return nil.
  unfoldable pub with_certificate :
      Addressable → MqttConfig → Bool → Option Certificate → Act W (Option (MqttSender W))
  unfolding sender client_options
  with_certificate addr config persist_on_error none = pure none
  with_certificate addr config persist_on_error (some cert) = pure (
      some (
        sender addr config persist_on_error (record (client_options itoa addr config) {
          tls_config =
              some (record { insecure_skip_verify = config.skip_cert_verify; certificate = cert });
        })))

  pub without_certificate : Addressable → MqttConfig → Bool → Act W (Option (MqttSender W))
  unfolding sender client_options
  without_certificate addr config persist_on_error =
      pure (some (sender addr config persist_on_error (client_options itoa addr config)))

  unfoldable pub new_mqtt_sender :
      Addressable → Option KeyCertPair → MqttConfig → Bool → Act W (Option (MqttSender W))
  unfolding is_tls load with_certificate without_certificate to_lower
  new_mqtt_sender addr none config persist_on_error =
      without_certificate addr config persist_on_error
  new_mqtt_sender addr (some pair) config persist_on_error =
      if is_tls (to_lower addr.protocol)
      then (do
        cert ← load pair pair.key_pem_block pair.cert_pem_block
        with_certificate addr config persist_on_error cert)
      else without_certificate addr config persist_on_error
