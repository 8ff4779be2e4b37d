-- ===== src/AppSdk/Configurable/MqttSend.antt =====
-- appsdk/configurable.go, `MQTTSend`: what becomes of a certificate that cannot be loaded.
use app_functions_sdk_go.Prelude.{bind-returns, none, some, true, ◌≡◌, Str, panics, returns}
use app_functions_sdk_go.Common.{Addressable}
use app_functions_sdk_go.AppSdk.Configurable.{
  Bool, MqttConfig, KeyCertPair, Map, method_of, mqtt_method, ℤ, MqttClient, ClientOptions,
  KeyPairs, send_mqtt, mqtt_parameters, MqttParameters,
}
use app_functions_sdk_go.Transforms.Mqtt.Sender.{
  load, with_certificate, to_lower, is_tls, new_mqtt_sender,
}

module _ {W : Type 0} (key_pairs : KeyPairs W) (new_client : ClientOptions → MqttClient W)
    (itoa : ℤ → Str) where
  nil_sender :
      (addr : Addressable) (pair : KeyCertPair) (config : MqttConfig) (persist : Bool) (w w' : W)
      → is_tls (to_lower addr.protocol) ≡ true
      → pair.key_pem_block ≡ none
      → key_pairs.load_x509_key_pair pair.cert_file pair.key_file w ≡ returns (none, w')
      → new_mqtt_sender key_pairs new_client itoa addr (some pair) config persist w
        ≡ returns (none, w')
  unfolding new_mqtt_sender with_certificate load
  nil_sender addr pair config persist w w' t k l =
      rw (t, k)
        (bind-returns (key_pairs.load_x509_key_pair pair.cert_file pair.key_file)
          (with_certificate key_pairs new_client itoa addr config persist) l)

  -- With a certificate and a key file for an address with TLS, and files that cannot be loaded,
  -- `MQTTSend` panics: it does not return nil, as for other parameters that are wrong.
  pub send_mqtt-panics :
      (parameters : Map Str) (addr : Addressable) (p : MqttParameters) (pair : KeyCertPair)
      (w w' : W)
      → mqtt_parameters parameters ≡ some p
      → p.pair ≡ some pair
      → is_tls (to_lower addr.protocol) ≡ true
      → pair.key_pem_block ≡ none
      → key_pairs.load_x509_key_pair pair.cert_file pair.key_file w ≡ returns (none, w')
      → send_mqtt key_pairs new_client itoa parameters addr w ≡ panics
  unfolding send_mqtt mqtt_method method_of
  send_mqtt-panics parameters addr p pair w w' h q t k l =
      rw (h, q)
        (bind-returns
          (new_mqtt_sender key_pairs new_client itoa addr (some pair) p.config p.persist_on_error)
          (method_of key_pairs new_client itoa)
          (nil_sender addr pair p.config p.persist_on_error w w' t k l))
