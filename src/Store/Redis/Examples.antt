-- ===== src/Store/Redis/Examples.antt =====
-- internal/store/db/redis: the operations on the server in memory.
mod Durable
use app_functions_sdk_go.Prelude.{
  Bytes, [], ◌∷◌, none, some, false, Str, Option, List, ◌≡◌, refl, returns, Act, Ensures,
  if◌then◌else◌, pos, Bool-cases, inl, inr, str,
}
use app_functions_sdk_go.Store.Contracts.{StoredObject}
use app_functions_sdk_go.Store.Redis.{
  set, from_contract, id_list, err, ok, to_alias, sadd, service_key, Alias, Result, hset, Command,
  store,
}
use app_functions_sdk_go.Store.Redis.Represents.{put, Spec, is_key, Represents}
use app_functions_sdk_go.Store.Redis.Refinement.{IsUuidSource, Added}
use app_functions_sdk_go.Store.Redis.Adding.{store-refines}
use app_functions_sdk_go.Store.Redis.Codec.{decode, encode, json_marshal}
use app_functions_sdk_go.Store.Redis.Memory.{memory, view, memory-IsServer}

abbrev parse_uuid : Str → Option Str
parse_uuid s = if is_key s then none else some s

abbrev new_uuid : Act (List Command) Str
new_uuid w = returns (str "7", w)

parsed_no_key : (s id : Str) → parse_uuid s ≡ some id → is_key id ≡ false
parsed_no_key s id p = elim (Bool-cases (is_key s)) [
  | inl h ↦ absurd (cc (p, h))
  | inr h ↦ cc (p, h)
]

source : IsUuidSource view parse_uuid new_uuid
source = record { no_key = parsed_no_key; draws = λ w. refl }

abbrev no_objects : Spec
no_objects id = none

empty-Represents : Represents json_marshal (view []) no_objects
empty-Represents = record {
  data_at = λ id h. tt;
  index = λ key id. refl;
  ask = λ id. refl;
  names = λ id o s. absurd (cc s);
}

abbrev object : StoredObject
object = record {
  id = [];
  app_service_key = 3 ∷ [];
  payload = 9 ∷ [];
  retry_count = pos 0;
  pipeline_position = 1;
  version = 5 ∷ [];
  correlation_id = 2 ∷ [];
  event_id = 7 ∷ [];
  event_checksum = 8 ∷ [];
}

store-refines_example :
    Ensures
      (Added view parse_uuid json_marshal no_objects object)
      (store memory parse_uuid new_uuid json_marshal object [])
store-refines_example =
    store-refines memory view memory-IsServer parse_uuid new_uuid source json_marshal no_objects
      object [] empty-Represents

abbrev stored_object : StoredObject
stored_object = record object { id = str "7" }

abbrev one_object : Spec
one_object = put stored_object no_objects

-- The commands of `Store`, the last one first.
abbrev stored : List Command
stored =
    hset (service_key (str "7")) (str "ASK") (3 ∷ [])
    ∷ sadd (id_list (3 ∷ [])) (str "7")
    ∷ set (str "7") (encode (to_alias (from_contract stored_object)))
    ∷ []

abbrev decoded_reply : Result Bytes → Result Alias
decoded_reply (err e) = err e
decoded_reply (ok bytes) = ok (decode bytes)
