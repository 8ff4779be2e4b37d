-- ===== src/AppContext/CoreData.antt =====
-- appcontext/context.go: the methods of `Context`.
pub mod NoClient
use app_functions_sdk_go.Prelude.{
  Str, Bytes, ℤ, pos, Option, none, some, [], ◌∷◌, Act, pure, panic, ◌>>=◌, is_empty, str,
  if◌then◌else◌,
}
use app_functions_sdk_go.AppContext.Types.{
  Value, Event, Reading, EventClient, Context, GoError, Result, ok, err,
}
use app_functions_sdk_go.AppContext.Helpers.{coerce_type}

added : Event → Result Str → Result Event
added new_event (ok result) = ok (record new_event { id = result })
added new_event (err e) = err e

module _ {W : Type 0} where
  unfoldable pub complete : Context W → Bytes → Context W
  complete context output = record context { output_data = some output }

  unfoldable pub set_retry_data : Context W → Bytes → Context W
  set_retry_data context payload = record context { retry_data = some payload }

  mark : Context W → Option (EventClient W) → Act W (Option GoError)
  mark context none =
      pure (some (str "unable to Mark As Pushed: 'CoreData' is missing from Clients configuration"))
  mark context (some client) =
      if is_empty context.event_id
      then (if is_empty context.event_checksum
          then pure (some (str "No EventID or EventChecksum Provided"))
          else client.mark_pushed_by_checksum context.correlation_id context.event_checksum)
      else client.mark_pushed context.correlation_id context.event_id

  unfoldable pub mark_as_pushed : Context W → Act W (Option GoError)
  unfolding mark
  mark_as_pushed context = mark context context.event_client

  -- A call through a nil `EventClient` panics.
  add_event : Option (EventClient W) → Str → Event → Act W (Result Str)
  add_event none correlation new_event = panic
  add_event (some client) correlation new_event = client.add correlation new_event

  -- `time.Now().UnixNano()` and `uuid.New().String()` are parameters.
  module _ (json_marshal : Value → Option Bytes) (now : Act W ℤ) (new_uuid : Act W Str) where
    push_value : Context W → Str → Str → ℤ → Result Bytes → Act W (Result Event)
    unfolding add_event added
    push_value context device_name reading_name time (err e) = pure (err e)
    push_value context device_name reading_name time (ok val) = do
      let new_reading : Reading = record {
        name = reading_name;
        value = val;
        device = device_name;
        origin = time;
      }
      let new_event : Event = record {
        id = [];
        pushed = pos 0;
        device = device_name;
        created = pos 0;
        modified = pos 0;
        origin = time;
        readings = new_reading ∷ [];
      }
      correlation ← new_uuid
      result ← add_event context.event_client correlation new_event
      pure (added new_event result)

    unfoldable pub push_to_core_data : Context W → Str → Str → Value → Act W (Result Event)
    unfolding push_value coerce_type
    push_to_core_data context device_name reading_name value = do
      time ← now
      push_value context device_name reading_name time (coerce_type json_marshal value)
