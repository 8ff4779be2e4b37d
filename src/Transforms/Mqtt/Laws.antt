-- ===== src/Transforms/Mqtt/Laws.antt =====
-- pkg/transforms/mqtt.go: when the pipeline goes on, and what is kept for a retry, whatever the
-- client does.
use app_functions_sdk_go.Prelude.{if◌then◌else◌, Bool, Bytes, none, some, true, false, ◌≡◌}
use app_functions_sdk_go.AppContext.{GoError, Reply, Context, error}
use app_functions_sdk_go.Transforms.Mqtt.{failed, MqttSender}

-- A reply to data that was published, or else one with an error, which keeps the data for a retry
-- exactly where the sender persists it.
pub record IsFaithful {W : Type 0} (persists : Bool) (context : Context W) (export_data : Bytes)
    (reply : Reply W) : Type 0 where
  pub sent : reply.continue_pipeline ≡ true → (reply.context ≡ context) × (reply.result ≡ none)
  pub failed :
      reply.continue_pipeline ≡ false
      → (e : GoError) × (reply.result ≡ some (error e))
        × (reply.context.retry_data ≡ (if persists then some export_data else context.retry_data))

module _ {W : Type 0} (sender : MqttSender W) (context : Context W) (export_data : Bytes) where
  abbrev Faithful : Reply W → W → Type 0
  Faithful reply w = IsFaithful sender.persist_on_error context export_data reply
