-- ===== src/AppContext/CoreData/NoClient.antt =====
-- appcontext/context.go: the calls of CoreData without an event client.
use app_functions_sdk_go.Prelude.{◌∙◌, bind-returns, ap, none, some, ◌≡◌, returns, panics, Act}
use app_functions_sdk_go.AppContext.CoreData.{
  str, GoError, ok, coerce_type, Context, add_event, push_value, mark, Str, ℤ, Bytes, Option, Value,
  push_to_core_data, mark_as_pushed,
}

module _ {W : Type 0} (json_marshal : Value → Option Bytes) (now : Act W ℤ)
    (new_uuid : Act W Str) where
  -- Without an event client, `MarkAsPushed` returns an error and calls nothing, but
  -- `PushToCoreData` of a value that can be coerced panics, at whatever time and with whatever
  -- correlation id.
  pub no_event_client :
      (context : Context W) (device_name reading_name : Str) (value : Value) (val : Bytes)
      (time : ℤ) (correlation : Str) (w w1 w2 : W)
      → context.event_client ≡ none
      → now w ≡ returns (time, w1)
      → coerce_type json_marshal value ≡ ok val
      → new_uuid w1 ≡ returns (correlation, w2)
      → ((e : GoError) × (mark_as_pushed context w ≡ returns (some e, w)))
        × (push_to_core_data json_marshal now new_uuid context device_name reading_name value w
            ≡ panics)
  unfolding push_to_core_data mark_as_pushed mark push_value add_event
  no_event_client context device_name reading_name value val time correlation w w1 w2 no_client t c
        u =
      (
        (
          str "unable to Mark As Pushed: 'CoreData' is missing from Clients configuration",
          ap (λ client. mark context client w) no_client,
        ),
        bind-returns now
              (λ time'.
                push_value json_marshal now new_uuid context device_name reading_name time'
                  (coerce_type json_marshal value))
              t
            ∙ rw c (bind-returns new_uuid _ u ∙ simp no_client),
      )
