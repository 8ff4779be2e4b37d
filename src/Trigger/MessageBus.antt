-- ===== src/Trigger/MessageBus.antt =====
-- internal/trigger/messagebus/messaging.go: `Initialize` and its loop. What the select of the loop
-- receives, one after the other, is a list of events. The goroutines that handle messages are
-- taken one after the other, in the order in which the messages arrive.
use app_functions_sdk_go.Prelude.{
  refl, ◌≡◌, bind_cong, pure, ◌>>=◌, ◌≡◌, Str, Act, Option, List, [], ◌∷◌, none, some,
}
use app_functions_sdk_go.AppContext.{Result, ok, err, GoError}
use app_functions_sdk_go.Runtime.{GolangRuntime, MessageEnvelope, Decoder}
use app_functions_sdk_go.Trigger.{Trigger, Publish, handle_message}

-- `messaging.MessageClient` of go-mod-messaging.
pub record MessageClient (W : Type 0) : Type 0 where
  pub connect : Act W (Option GoError)
  pub subscribe : Str → Act W (Option GoError)
  pub publish : Publish W

pub data BusEvent : Type 0 where
  app_done : BusEvent
  failed : GoError → BusEvent
  received : MessageEnvelope → BusEvent

module _ {W : Type 0} (trigger : Trigger W) where
  connected : MessageClient W → Option GoError → Act W (Option (MessageClient W) × Option GoError)
  connected client (some e) = pure (some client, some e)
  connected client none = do
    _ ← client.subscribe trigger.configuration.binding.subscribe_topic
    pure (some client, none)

  made : Result (MessageClient W) → Act W (Option (MessageClient W) × Option GoError)
  unfolding connected
  made (err e) = pure (none, some e)
  made (ok client) = do error ← client.connect; connected client error

  -- The client that the trigger keeps, and the error; the loop follows where there is none. What
  -- `Subscribe` returns is dropped.
  unfoldable pub initialize :
      Act W (Result (MessageClient W)) → Act W (Option (MessageClient W) × Option GoError)
  unfolding made
  initialize new_message_client = do client ← new_message_client; made client

  module _ (json cbor : Decoder) (publish : Publish W) where
    unfoldable pub receive_loop : GolangRuntime W → List BusEvent → Act W (GolangRuntime W)
    receive_loop gr [] = pure gr
    receive_loop gr (app_done ∷ events) = pure gr
    receive_loop gr (failed e ∷ events) = receive_loop gr events
    receive_loop gr (received msgs ∷ events) = do
      gr' ← handle_message trigger json cbor publish gr msgs
      receive_loop gr' events

    -- The messages that arrive before the application is done.
    abbrev pub messages : List BusEvent → List MessageEnvelope
    messages [] = []
    messages (app_done ∷ events) = []
    messages (failed e ∷ events) = messages events
    messages (received msgs ∷ events) = msgs ∷ messages events

    -- Handling messages one after the other.
    abbrev pub handle_all : GolangRuntime W → List MessageEnvelope → Act W (GolangRuntime W)
    handle_all gr [] = pure gr
    handle_all gr (msgs ∷ rest) = do
      gr' ← handle_message trigger json cbor publish gr msgs
      handle_all gr' rest

    -- The loop handles every message that arrives before the application is done, whatever errors
    -- of the bus and of other messages it meets, and none that arrives later.
    pub receive_loop-handles :
        (gr : GolangRuntime W) (events : List BusEvent) (w : W)
        → receive_loop gr events w ≡ handle_all gr (messages events) w
    unfolding receive_loop
    receive_loop-handles gr [] w = refl
    receive_loop-handles gr (app_done ∷ events) w = refl
    receive_loop-handles gr (failed e ∷ events) w = receive_loop-handles gr events w
    receive_loop-handles gr (received msgs ∷ events) w =
        bind_cong (handle_message trigger json cbor publish gr msgs)
          (λ gr' v. receive_loop-handles gr' events v) w
