-- ===== src/Store/Redis/Updating.antt =====
-- internal/store/db/redis/store.go: `Update` as an operation of the map.
use app_functions_sdk_go.Prelude.{Str, Bytes, Option, Act}
use app_functions_sdk_go.AppContext.{Result, GoError}
use app_functions_sdk_go.Store.Contracts.{StoredObject}
use app_functions_sdk_go.Store.Contracts.Standard.{Standard}
use app_functions_sdk_go.Store.Redis.{Connection, Alias}
use app_functions_sdk_go.Store.Redis.Server.{Db, IsServer}
use app_functions_sdk_go.Store.Redis.Represents.{Spec, put, Represents}
use app_functions_sdk_go.Store.Redis.Refinement.{IsUuidSource, Reported}

module _ {W : Type 0} (conn : Connection W) (view : W → Db) (server : IsServer conn view)
    (parse_uuid : Str → Option Str) (new_uuid : Act W Str)
    (uuids : IsUuidSource view parse_uuid new_uuid) (json_marshal : Alias → Result Bytes)
    (spec : Spec) where
  abbrev Replaced : StoredObject → Option GoError → W → Type 0
  Replaced = Reported view parse_uuid json_marshal spec (λ o'. put o' spec)
