-- ===== src/Store/Redis/Models.antt =====
-- internal/store/db/redis/models/storedobject.go: the stored object as Redis keeps it, and its
-- JSON. `json.Marshal` and `json.Unmarshal` of the anonymous structs are parameters.
use app_functions_sdk_go.Prelude.{
  [], none, some, Str, Bytes, ℤ, ℕ, pos, Option, is_empty, if◌then◌else◌,
}
use app_functions_sdk_go.AppContext.{Result, ok, err}
use app_functions_sdk_go.Store.Contracts.{StoredObject}

-- `models.StoredObject`
pub record Model : Type 0 where
  pub id : Str
  pub app_service_key : Str
  pub payload : Bytes
  pub retry_count : ℤ
  pub pipeline_position : ℕ
  pub version : Str
  pub correlation_id : Str
  pub event_id : Str
  pub event_checksum : Str

-- The zero value.
abbrev pub no_model : Model
no_model = record {
  id = [];
  app_service_key = [];
  payload = [];
  retry_count = pos 0;
  pipeline_position = 0;
  version = [];
  correlation_id = [];
  event_id = [];
  event_checksum = [];
}

unfoldable pub to_contract : Model → StoredObject
to_contract o = record {
  id = o.id;
  app_service_key = o.app_service_key;
  payload = o.payload;
  retry_count = o.retry_count;
  pipeline_position = o.pipeline_position;
  version = o.version;
  correlation_id = o.correlation_id;
  event_id = o.event_id;
  event_checksum = o.event_checksum;
}

unfoldable pub from_contract : StoredObject → Model
from_contract c = record {
  id = c.id;
  app_service_key = c.app_service_key;
  payload = c.payload;
  retry_count = c.retry_count;
  pipeline_position = c.pipeline_position;
  version = c.version;
  correlation_id = c.correlation_id;
  event_id = c.event_id;
  event_checksum = c.event_checksum;
}

-- The struct with pointers, of both directions.
pub record Alias : Type 0 where
  pub id : Option Str
  pub app_service_key : Option Str
  pub payload : Bytes
  pub retry_count : ℤ
  pub pipeline_position : ℕ
  pub version : Option Str
  pub correlation_id : Option Str
  pub event_id : Option Str
  pub event_checksum : Option Str

-- Empty strings are null.
abbrev pub pointer : Str → Option Str
pointer s = if is_empty s then none else some s

-- The struct that `MarshalJSON` hands to `json.Marshal`.
unfoldable pub to_alias : Model → Alias
to_alias o = record {
  id = pointer o.id;
  app_service_key = pointer o.app_service_key;
  payload = o.payload;
  retry_count = o.retry_count;
  pipeline_position = o.pipeline_position;
  version = pointer o.version;
  correlation_id = pointer o.correlation_id;
  event_id = pointer o.event_id;
  event_checksum = pointer o.event_checksum;
}

-- `if alias.X != nil { o.X = *alias.X }`
unfoldable pub assigned : Str → Option Str → Str
assigned old none = old
assigned old (some new) = new

-- What `UnmarshalJSON` makes of the object that it is called on.
unfoldable pub from_alias : Model → Alias → Model
unfolding assigned
from_alias o alias = record {
  id = assigned o.id alias.id;
  app_service_key = assigned o.app_service_key alias.app_service_key;
  payload = alias.payload;
  retry_count = alias.retry_count;
  pipeline_position = alias.pipeline_position;
  version = assigned o.version alias.version;
  correlation_id = assigned o.correlation_id alias.correlation_id;
  event_id = assigned o.event_id alias.event_id;
  event_checksum = assigned o.event_checksum alias.event_checksum;
}

unfoldable pub marshal_json : (Alias → Result Bytes) → Model → Result Bytes
unfolding to_alias
marshal_json json_marshal o = json_marshal (to_alias o)

unfoldable pub unmarshaled : Model → Result Alias → Result Model
unfolding from_alias
unmarshaled o (err e) = err e
unmarshaled o (ok alias) = ok (from_alias o alias)

unfoldable pub unmarshal_json : (Bytes → Result Alias) → Model → Bytes → Result Model
unfolding unmarshaled
unmarshal_json json_unmarshal o bytes = unmarshaled o (json_unmarshal bytes)
