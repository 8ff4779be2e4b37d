-- ===== src/Transforms/Mqtt.antt =====
-- pkg/transforms/mqtt.go: `MQTTSend`. The paho client is a parameter.
use app_functions_sdk_go.AppContext.{
  coerce_type, ok, error, replies, err, Reply, Result, Context, GoError, Value,
}
pub mod Laws
pub mod Sender
use app_functions_sdk_go.Prelude.{
  if◌then◌else◌, List, ◌++◌, Bytes, str, Option, Bool, Str, Act, ℕ, [], ◌∷◌, none, some, true,
  false, ◌>>=◌,
}

pub record MqttConfig : Type 0 where
  pub qos : ℕ
  pub retain : Bool
  pub auto_reconnect : Bool
  pub skip_cert_verify : Bool
  pub user : Str
  pub password : Str

-- A connection's token: what `Wait` returns, and the error.
pub record MqttClient (W : Type 0) : Type 0 where
  pub is_connected : Act W Bool
  pub connect : Act W (Bool × Option GoError)
  pub publish : Str → ℕ → Bool → Bytes → Act W (Option GoError)

pub record MqttSender (W : Type 0) : Type 0 where
  pub client : MqttClient W
  pub topic : Str
  pub opts : MqttConfig
  pub persist_on_error : Bool

module _ {W : Type 0} where
  pub save_retry_data : MqttSender W → Context W → Bytes → Context W
  save_retry_data sender context export_data =
      if sender.persist_on_error then record context { retry_data = some export_data } else context

  pub failed : MqttSender W → Context W → Bytes → GoError → Act W (Reply W)
  unfolding save_retry_data
  failed sender context export_data e =
      replies (save_retry_data sender context export_data) false (some (error e))

  connect_error : MqttSender W → GoError → GoError
  connect_error sender e =
      str "Could not connect to mqtt server, "
      ++ ((if sender.persist_on_error
            then str "persisting Event for later retry"
            else str "drop event")
          ++ (str ". Error: " ++ e))

  pub published : MqttSender W → Context W → Bytes → Option GoError → Act W (Reply W)
  unfolding failed
  published sender context export_data none = replies context true none
  published sender context export_data (some e) = failed sender context export_data e

  pub publish_data : MqttSender W → Context W → Bytes → Act W (Reply W)
  unfolding published
  publish_data sender context export_data = do
    e ← sender.client.publish sender.topic sender.opts.qos sender.opts.retain export_data
    published sender context export_data e

  -- `token.Wait() && token.Error() != nil`
  pub connected : MqttSender W → Context W → Bytes → Bool × Option GoError → Act W (Reply W)
  unfolding failed connect_error publish_data
  connected sender context export_data (true, some e) =
      failed sender context export_data (connect_error sender e)
  connected sender context export_data token = publish_data sender context export_data

  pub send : MqttSender W → Context W → Bytes → Bool → Act W (Reply W)
  unfolding connected publish_data
  send sender context export_data true = publish_data sender context export_data
  send sender context export_data false = do
    token ← sender.client.connect
    connected sender context export_data token

  pub send_coerced : MqttSender W → Context W → Result Bytes → Act W (Reply W)
  unfolding send
  send_coerced sender context (err e) = replies context false (some (error e))
  send_coerced sender context (ok export_data) = do
    is_connected ← sender.client.is_connected
    send sender context export_data is_connected

  unfoldable pub mqtt_send :
      (Value → Option Bytes) → MqttSender W → Context W → List Value → Act W (Reply W)
  unfolding send_coerced
  mqtt_send json_marshal sender context [] =
      replies context false (some (error (str "No Data Received")))
  mqtt_send json_marshal sender context (param ∷ _) =
      send_coerced sender context (coerce_type json_marshal param)
