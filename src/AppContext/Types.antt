-- ===== src/AppContext/Types.antt =====
-- appcontext/context.go: values, the context of one pass through the pipeline, and the type of
-- pipeline functions. The logging client and the clients that the modelled code only hands on
-- (value descriptors, commands, notifications) are left out of the context.
use app_functions_sdk_go.Prelude.{pure, ℕ, Str, Bytes, ℤ, Bool, Option, List, Act}
use app_functions_sdk_go.Common.{ConfigurationStruct}

-- A Go error, by the text that `Error()` returns.
abbrev pub GoError : Type 0
GoError = Str

-- What a function returns beside an `error`: the value, or the error that is not nil.
pub data Result (A : Type 0) : Type 0 where
  ok : A → Result A
  err : GoError → Result A

-- `models.Reading` and `models.Event` of go-mod-core-contracts, with the fields that the SDK names.
pub record Reading : Type 0 where
  pub name : Str
  pub value : Str
  pub device : Str
  pub origin : ℤ

pub record Event : Type 0 where
  pub id : Str
  pub pushed : ℤ
  pub device : Str
  pub created : ℤ
  pub modified : ℤ
  pub origin : ℤ
  pub readings : List Reading

-- A Go `interface{}` that is not nil, by its dynamic type. `other` is any type that the SDK does
-- not look into.
pub data Value : Type 0 where
  string : Str → Value
  bytes : Bytes → Value
  batch : List Bytes → Value
  event : Event → Value
  event_ptr : Event → Value
  error : GoError → Value
  other : ℕ → Value

-- `coredata.EventClient` of go-mod-core-contracts, as far as the SDK calls it. The first argument
-- is the correlation id.
pub record EventClient (W : Type 0) : Type 0 where
  pub mark_pushed : Str → Str → Act W (Option GoError)
  pub mark_pushed_by_checksum : Str → Str → Act W (Option GoError)
  pub add : Str → Event → Act W (Result Str)

-- A pointer to the secret provider.
abbrev pub Ref : Type 0
Ref = ℕ

-- `Context`. A slice or pointer that may be nil is an `Option`.
pub record Context (W : Type 0) : Type 0 where
  pub event_id : Str
  pub event_checksum : Str
  pub correlation_id : Str
  pub output_data : Option Bytes
  pub configuration : ConfigurationStruct
  pub event_client : Option (EventClient W)
  pub retry_data : Option Bytes
  pub secret_provider : Option Ref

-- What a pipeline function returns, with the context as it leaves it.
pub record Reply (W : Type 0) : Type 0 where
  pub context : Context W
  pub continue_pipeline : Bool
  pub result : Option Value

-- `AppFunction`, with the name that the Go runtime knows the function by.
pub record AppFunction (W : Type 0) : Type 0 where
  pub name : Str
  pub call : Context W → List Value → Act W (Reply W)

-- `return continuePipeline, result`
abbrev pub replies : {W : Type 0} → Context W → Bool → Option Value → Act W (Reply W)
replies context continue_pipeline result =
    pure (record { context = context; continue_pipeline = continue_pipeline; result = result })
