-- ===== src/Transforms/Output.antt =====
-- pkg/transforms/outputdata.go and coredata.go.
use app_functions_sdk_go.AppContext.{
  mark_as_pushed, bytes, event_ptr, push_to_core_data, ok, error, coerce_type, replies, err, Reply,
  Event, Result, Context, Value,
}
use app_functions_sdk_go.Prelude.{
  ◌>>◌, str, panic, ℤ, Act, Bytes, List, Option, Str, [], ◌∷◌, none, some, true, false, ◌>>=◌,
}

pub record CoreData : Type 0 where
  pub device_name : Str
  pub reading_name : Str

module _ {W : Type 0} where
  set_output : Context W → Value → Result Bytes → Act W (Reply W)
  set_output context param (err e) = replies context false (some (error e))
  set_output context param (ok output) =
      replies (record context { output_data = some output }) true (some param)

  unfoldable pub set_output_data : (Value → Option Bytes) → Context W → List Value → Act W (Reply W)
  unfolding set_output
  set_output_data json_marshal context [] = replies context false none
  set_output_data json_marshal context (param ∷ _) =
      set_output context param (coerce_type json_marshal param)

  -- An error is logged only. `params[0]` of no parameters panics, after the call of CoreData.
  first_param : Context W → List Value → Act W (Reply W)
  first_param context [] = panic
  first_param context (param ∷ _) = replies context true (some param)

  unfoldable pub mark_event_as_pushed : Context W → List Value → Act W (Reply W)
  unfolding first_param
  mark_event_as_pushed context params = do mark_as_pushed context; first_param context params

  pushed : Context W → Result Event → Act W (Reply W)
  pushed context (err e) = replies context false (some (error e))
  pushed context (ok result) = replies context true (some (event_ptr result))

  module _ (json_marshal : Value → Option Bytes) (now : Act W ℤ) (new_uuid : Act W Str) where
    push_coerced : CoreData → Context W → Result Bytes → Act W (Reply W)
    unfolding pushed
    push_coerced cdc context (err e) = replies context false (some (error e))
    push_coerced cdc context (ok val) = do
      result ←
          push_to_core_data json_marshal now new_uuid context cdc.device_name cdc.reading_name
            (bytes val)
      pushed context result

    unfoldable pub push_event_to_core_data : CoreData → Context W → List Value → Act W (Reply W)
    unfolding push_coerced
    push_event_to_core_data cdc context [] =
        replies context false (some (error (str "No Data Received")))
    push_event_to_core_data cdc context (param ∷ _) =
        push_coerced cdc context (coerce_type json_marshal param)
