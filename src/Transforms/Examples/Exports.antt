-- ===== src/Transforms/Examples/Exports.antt =====
-- pkg/transforms: runs of the exports, and of a rule.
use app_functions_sdk_go.Prelude.{
  panics, pos, Ensures, Bytes, Option, is_empty, Str, refl, [], ◌∷◌, none, some, true, false,
  returns, ◌≡◌, ◌>>=◌, Act,
}
use app_functions_sdk_go.AppContext.CoreData.NoClient.{no_event_client}
use app_functions_sdk_go.AppContext.{
  push_to_core_data, mark_as_pushed, GoError, coerce_type, ok, bytes, Value, Result,
}
use app_functions_sdk_go.Runtime.Examples.{context, Objects}
use app_functions_sdk_go.Transforms.Http.{http_post, HttpSender, HttpResponse}
use app_functions_sdk_go.Transforms.Http.Laws as HttpLaws
use app_functions_sdk_go.Transforms.Http.Laws.{http_post-IsFaithful}
use app_functions_sdk_go.Transforms.Mqtt.{MqttSender}
use app_functions_sdk_go.Transforms.Mqtt.Laws as MqttLaws
use app_functions_sdk_go.Transforms.JsonLogic.{evaluate, JsonLogicLib, new_json_logic}
use app_functions_sdk_go.Transforms.JsonLogic.Laws.{evaluate_consumes_rule}

abbrev no_json : Value → Option Bytes
no_json v = none

abbrev unavailable : Result HttpResponse
unavailable = ok (record { status_code = 503; body = ok [] })

abbrev post : Str → Str → Bytes → Act Objects (Result HttpResponse)
post url mime_type b w = returns (unavailable, w)

abbrev http_sender : HttpSender
http_sender = record { url = 1 ∷ []; mime_type = []; persist_on_error = true }

http_post-IsFaithful_example :
    Ensures
      (λ reply v. HttpLaws.IsFaithful false true context (9 ∷ []) reply × (v ≡ []))
      (http_post no_json (λ n. []) post http_sender context (bytes (9 ∷ []) ∷ []) [])
unfolding coerce_type
http_post-IsFaithful_example =
    http_post-IsFaithful no_json (λ n. []) post http_sender context (bytes (9 ∷ [])) [] (9 ∷ [])
      unavailable [] [] refl refl

-- A client that connects and cannot publish.
abbrev mqtt_sender : MqttSender Objects
mqtt_sender = record {
  client = record {
    is_connected = λ w. returns (false, w);
    connect = λ w. returns ((true, none), w);
    publish = λ topic qos retain b w. returns (some (4 ∷ []), w);
  };
  topic = [];
  opts = record {
    qos = 0;
    retain = false;
    auto_reconnect = false;
    skip_cert_verify = false;
    user = [];
    password = [];
  };
  persist_on_error = true;
}

-- A library that reads its rule to the end, and gives the rule as its result.
abbrev echo : JsonLogicLib
echo = record { apply = λ rule d. ok rule; unread = λ rule d. []; decode_bool = is_empty }

evaluate_consumes_rule_example :
    (evaluate echo no_json (record { rule = 1 ∷ [] }) context (bytes (2 ∷ []) ∷ []) >>= λ r.
    evaluate echo no_json r.0 context (bytes (2 ∷ []) ∷ []))
      []
    ≡ evaluate echo no_json (new_json_logic []) context (bytes (2 ∷ []) ∷ []) []
unfolding coerce_type
evaluate_consumes_rule_example =
    evaluate_consumes_rule echo no_json (record { rule = 1 ∷ [] }) context context (bytes (2 ∷ []))
      (bytes (2 ∷ [])) [] [] (2 ∷ []) [] refl refl

no_event_client_example :
    ((e : GoError) × (mark_as_pushed context [] ≡ returns (some e, [])))
    × (push_to_core_data no_json
          (λ w. returns (pos 1, w))
          (λ w. returns (2 ∷ [], w))
          context
          (3 ∷ [])
          (4 ∷ [])
          (bytes (9 ∷ []))
          []
        ≡ panics)
unfolding coerce_type
no_event_client_example =
    no_event_client no_json (λ w. returns (pos 1, w)) (λ w. returns (2 ∷ [], w)) context (3 ∷ [])
      (4 ∷ []) (bytes (9 ∷ [])) (9 ∷ []) (pos 1) (2 ∷ []) [] [] [] refl refl refl refl
