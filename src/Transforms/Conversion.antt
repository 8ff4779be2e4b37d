-- ===== src/Transforms/Conversion.antt =====
-- pkg/transforms/conversion.go. `xml.Marshal` and `json.Marshal` are parameters.
use app_functions_sdk_go.AppContext.{
  event, string, error, replies, Reply, Value, Context, GoError, Event,
}
use app_functions_sdk_go.Prelude.{str, List, Act, Bytes, Option, [], ◌∷◌, none, some, true, false}

module _ {W : Type 0} where
  -- The text of the marshaled event, or the error that takes the place of the marshaler's.
  converted : GoError → Context W → Option Bytes → Act W (Reply W)
  converted failure context none = replies context false (some (error failure))
  converted failure context (some b) = replies context true (some (string b))

  transform_event : (Event → Option Bytes) → GoError → Context W → List Value → Act W (Reply W)
  unfolding converted
  transform_event marshal failure context [] =
      replies context false (some (error (str "No Event Received")))
  transform_event marshal failure context (event result ∷ _) =
      converted failure context (marshal result)
  transform_event marshal failure context (_ ∷ _) =
      replies context false (some (error (str "Unexpected type received")))

  unfoldable pub transform_to_xml :
      (Event → Option Bytes) → Context W → List Value → Act W (Reply W)
  unfolding transform_event
  transform_to_xml xml_marshal =
      transform_event xml_marshal (str "Incorrect type received, expecting models.Event")

  unfoldable pub transform_to_json :
      (Event → Option Bytes) → Context W → List Value → Act W (Reply W)
  unfolding transform_event
  transform_to_json json_marshal = transform_event json_marshal (str "Error marshalling JSON")
