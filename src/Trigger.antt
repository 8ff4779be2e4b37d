-- ===== src/Trigger.antt =====
-- internal/trigger/http/rest.go, `requestHandler`, and internal/trigger/messagebus/messaging.go,
-- the goroutine that handles one message. Reading the request's body gives bytes or an error.
pub mod Responses
pub mod MessageBus
mod Examples
use app_functions_sdk_go.Prelude.{
  ◌>>◌, [], ◌∷◌, none, some, true, false, Str, Bytes, ℕ, Option, Act, pure, ◌>>=◌, ◌++◌, str,
}
use app_functions_sdk_go.Common.{ConfigurationStruct}
use app_functions_sdk_go.AppContext.{Result, ok, err, Context, EventClient, GoError}
use app_functions_sdk_go.Runtime.{
  GolangRuntime, MessageEnvelope, MessageError, Decoder, process_message, content_type_json,
  status_bad_request,
}

-- `Trigger`, of both packages, without its runtime.
pub record Trigger (W : Type 0) : Type 0 where
  pub configuration : ConfigurationStruct
  pub event_client : Option (EventClient W)

pub record Request : Type 0 where
  pub content_type : Str
  pub correlation_id : Str
  pub body : Result Bytes

-- What was written to the response: the status is 200 where the code sets none.
pub record Response : Type 0 where
  pub status : ℕ
  pub body : Bytes

abbrev pub status_ok : ℕ
status_ok = 200

-- A client of the message bus: the envelope and the topic.
abbrev pub Publish : Type 0 → Type 0
Publish W = MessageEnvelope → Str → Act W (Option GoError)

abbrev output : Option Bytes → Bytes
output none = []
output (some b) = b

abbrev pub new_context : {W : Type 0} → Trigger W → Str → Context W
new_context trigger correlation_id = record {
  event_id = [];
  event_checksum = [];
  correlation_id = correlation_id;
  output_data = none;
  configuration = trigger.configuration;
  event_client = trigger.event_client;
  retry_data = none;
  secret_provider = none;
}

module _ {W : Type 0} (trigger : Trigger W) (json cbor : Decoder) where
  pub respond : Context W × Option MessageError → Response
  respond (context, some e) = record { status = e.error_code; body = e.error }
  respond (context, none) = record { status = status_ok; body = output context.output_data }

  pub handle_body : GolangRuntime W → Request → Result Bytes → Act W (GolangRuntime W × Response)
  unfolding respond
  handle_body gr request (err e) =
      pure (gr, record { status = status_bad_request; body = str "Error reading HTTP Body: " ++ e })
  handle_body gr request (ok body) = do
    (gr', context, e) ←
        process_message json cbor gr (new_context trigger request.correlation_id) (record {
          correlation_id = request.correlation_id;
          payload = body;
          content_type = request.content_type;
          checksum = [];
        })
    pure (gr', respond (context, e))

  unfoldable pub request_handler : GolangRuntime W → Request → Act W (GolangRuntime W × Response)
  unfolding handle_body
  request_handler gr request = handle_body gr request request.body

  module _ (publish : Publish W) where
    -- An error of the bus is logged.
    pub publish_output : Context W → Option Bytes → Act W (Unit {0})
    publish_output context none = pure tt
    publish_output context (some output_data) = do
      publish
          (record {
            correlation_id = context.correlation_id;
            payload = output_data;
            content_type = content_type_json;
            checksum = [];
          })
          trigger.configuration.binding.publish_topic
      pure tt

    pub publish_result : Context W → Option MessageError → Act W (Unit {0})
    unfolding publish_output
    publish_result context (some e) = pure tt
    publish_result context none = publish_output context context.output_data

    unfoldable pub handle_message : GolangRuntime W → MessageEnvelope → Act W (GolangRuntime W)
    unfolding publish_result
    handle_message gr msgs = do
      (gr', context, e) ←
          process_message json cbor gr (new_context trigger msgs.correlation_id) msgs
      publish_result context e
      pure gr'
