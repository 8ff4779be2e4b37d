-- ===== src/Runtime/Durable.antt =====
-- internal/runtime and internal/store/db/redis together: what a failed pass leaves in the database, and
-- what the next round of retries finds there.
use app_functions_sdk_go.AppContext.{ok, Result}
use app_functions_sdk_go.Prelude.{none, Str, Bytes, Option, ◌≡◌, Act, Ensures}
use app_functions_sdk_go.Store.Contracts.{StoredObject}
use app_functions_sdk_go.Store.Contracts.Standard.{Standard}
use app_functions_sdk_go.Store.Redis.{Connection, Alias, retrieve_from_store}
use app_functions_sdk_go.Store.Redis.Server.{Db, IsServer}
use app_functions_sdk_go.Store.Redis.Represents.{Spec, put, Represents}
use app_functions_sdk_go.Store.Redis.Refinement.{IsUuidSource}
use app_functions_sdk_go.Store.Redis.Retrieval.{Retrieved}

module _ {W : Type 0} (conn : Connection W) (view : W → Db) (server : IsServer conn view)
    (parse_uuid : Str → Option Str) (new_uuid : Act W Str)
    (uuids : IsUuidSource view parse_uuid new_uuid) (json_marshal : Alias → Result Bytes)
    (json_unmarshal : Bytes → Result Alias)
    (round_trip : (alias : Alias) (bytes : Bytes)
      → json_marshal alias ≡ ok bytes
      → json_unmarshal bytes ≡ ok alias) where
  -- The object is in the map, under a free id, beside the objects of `spec`, and what is
  -- retrieved next is from that map.
  abbrev pub IsKept : Spec → StoredObject → W → Type 0
  IsKept spec o w =
      (o' : StoredObject) × Standard parse_uuid o o'
      × (spec o'.id ≡ none)
      × Represents json_marshal (view w) (put o' spec)
      × Ensures
          (Retrieved json_marshal json_unmarshal round_trip conn view server (put o' spec)
            o.app_service_key)
          (retrieve_from_store conn json_unmarshal o.app_service_key w)
