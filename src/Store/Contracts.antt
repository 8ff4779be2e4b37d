-- ===== src/Store/Contracts.antt =====
-- internal/store/contracts/storedobject.go, and the interface `StoreClient` of
-- internal/store/db/interfaces/store.go. `uuid.Parse`, which returns the standard form of an id,
-- and `uuid.New().String()` are parameters.
pub mod Valid
pub mod Standard
use app_functions_sdk_go.Prelude.{
  ℕ, Str, Bytes, ℤ, pos, Bool, true, false, Option, none, some, List, [], Act, pure, ◌>>=◌,
  is_empty, str, if◌then◌else◌,
}
use app_functions_sdk_go.AppContext.{GoError, Result}

pub record StoredObject : Type 0 where
  pub id : Str
  pub app_service_key : Str
  pub payload : Bytes
  pub retry_count : ℤ
  pub pipeline_position : ℕ
  pub version : Str
  pub correlation_id : Str
  pub event_id : Str
  pub event_checksum : Str

abbrev pub new_stored_object : Str → Bytes → ℕ → Str → StoredObject
new_stored_object app_service_key payload pipeline_position version = record {
  id = [];
  app_service_key = app_service_key;
  payload = payload;
  retry_count = pos 0;
  pipeline_position = pipeline_position;
  version = version;
  correlation_id = [];
  event_id = [];
  event_checksum = [];
}

-- The tests behind the id, in the order of the source.
field_error : StoredObject → Option GoError
field_error o =
    if is_empty o.app_service_key
    then some (str "invalid contract, app service key cannot be empty")
    else if is_empty o.payload
    then some (str "invalid contract, payload cannot be empty")
    else if is_empty o.version
    then some (str "invalid contract, version cannot be empty")
    else none

check_parsed : StoredObject → Option Str → StoredObject × Option GoError
unfolding field_error
check_parsed o none = (o, some (str "invalid contract, ID must be UUID"))
check_parsed o (some id) = (record o { id = id }, field_error o)

module _ {W : Type 0} (parse_uuid : Str → Option Str) (new_uuid : Act W Str) where
  check : StoredObject → StoredObject × Option GoError
  unfolding check_parsed
  check o = check_parsed o (parse_uuid o.id)

  -- The object as `ValidateContract` leaves it, with the error.
  unfoldable pub validate_contract : Bool → StoredObject → Act W (StoredObject × Option GoError)
  unfolding check
  validate_contract true o =
      if is_empty o.id
      then pure (o, some (str "invalid contract, ID cannot be empty"))
      else pure (check o)
  validate_contract false o =
      if is_empty o.id
      then (do id ← new_uuid; pure (check (record o { id = id })))
      else pure (check o)

-- A database that keeps stored objects.
pub record StoreClient (W : Type 0) : Type 0 where
  pub store : StoredObject → Act W (Result Str)
  pub retrieve_from_store : Str → Act W (Result (List StoredObject))
  pub update : StoredObject → Act W (Option GoError)
  pub remove_from_store : StoredObject → Act W (Option GoError)
