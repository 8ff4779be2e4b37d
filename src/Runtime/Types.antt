-- ===== src/Runtime/Types.antt =====
-- internal/runtime/runtime.go and storeforward.go: the state of the runtime.
use app_functions_sdk_go.Prelude.{ℕ, Str, Bytes, Bool, Option, List}
use app_functions_sdk_go.AppContext.{GoError, AppFunction, Ref}
use app_functions_sdk_go.Store.{StoreClient}

-- What `TargetType` holds: a pointer to an event, to a byte slice or to some other type, or a
-- value that is no pointer.
pub data TargetType : Type 0 where
  event_pointer : TargetType
  bytes_pointer : TargetType
  other_pointer : ℕ → TargetType
  no_pointer : TargetType

-- `storeForwardInfo`. Its field `runtime` is nil before `Initialize` and points to the runtime
-- that holds it afterwards, so a Boolean says all.
pub record StoreForwardInfo (W : Type 0) : Type 0 where
  pub runtime_set : Bool
  pub store_client : Option (StoreClient W)
  pub pipeline_hash : Str

pub record GolangRuntime (W : Type 0) : Type 0 where
  pub target_type : Option TargetType
  pub service_key : Str
  pub transforms : List (AppFunction W)
  pub store_forward : StoreForwardInfo W
  pub secret_provider : Option Ref

pub record MessageError : Type 0 where
  pub error : GoError
  pub error_code : ℕ

-- `types.MessageEnvelope` of go-mod-messaging.
pub record MessageEnvelope : Type 0 where
  pub correlation_id : Str
  pub payload : Bytes
  pub content_type : Str
  pub checksum : Str
