-- ===== src/Store/Redis/Retrieval.antt =====
-- internal/store/db/redis/store.go: `RetrieveFromStore` as an operation of the map.
use app_functions_sdk_go.Prelude.{[], ◌∷◌, some, Str, Bytes, List, ◌≡◌}
use app_functions_sdk_go.AppContext.{Result, ok, err}
use app_functions_sdk_go.Store.Contracts.{StoredObject}
use app_functions_sdk_go.Store.Redis.{Connection, Alias, no_model, to_contract}
use app_functions_sdk_go.Store.Redis.Reads.{filled}
use app_functions_sdk_go.Store.Redis.Server.{Db, IsServer, Reads, elem}
use app_functions_sdk_go.Store.Redis.Represents.{Spec, belongs, Represents}

-- The objects that the map has at the ids.
abbrev pub Matches : Spec → List Str → List StoredObject → Type 0
Matches spec [] [] = Unit {0}
Matches spec (id ∷ ids) (o ∷ objects) = (spec id ≡ some o) × Matches spec ids objects
Matches spec ids objects = ⊥

module _ (json_marshal : Alias → Result Bytes) (json_unmarshal : Bytes → Result Alias)
    (round_trip : (alias : Alias) (bytes : Bytes)
      → json_marshal alias ≡ ok bytes
      → json_unmarshal bytes ≡ ok alias) where
  module _ {W : Type 0} (conn : Connection W) (view : W → Db) (server : IsServer conn view)
      (spec : Spec) (key : Str) where
    -- The database still represents the map, and objects that were retrieved are those of the
    -- map with the service key, in the order of the ids, as `UnmarshalJSON` fills them in.
    abbrev pub Retrieved : Result (List StoredObject) → W → Type 0
    Retrieved (err e) w' = Represents json_marshal (view w') spec
    Retrieved (ok objects) w' =
        Represents json_marshal (view w') spec
        × (ids : List Str) × ((id : Str) → elem id ids ≡ belongs key (spec id))
        × (stored : List StoredObject) × Matches spec ids stored
        × (objects ≡ filled (to_contract no_model) stored)
