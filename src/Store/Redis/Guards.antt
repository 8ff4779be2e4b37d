-- ===== src/Store/Redis/Guards.antt =====
-- internal/store/db/redis/store.go: what is checked before the database is changed.
use app_functions_sdk_go.Prelude.{
  bind-returns, Act, some, true, false, ◌≡◌, Str, Option, Bytes, returns,
}
use app_functions_sdk_go.AppContext.{GoError, Result}
use app_functions_sdk_go.Store.Contracts.{StoredObject, validate_contract}
use app_functions_sdk_go.Store.Contracts.Valid.{is_acceptable, validate_contract-refuses}
use app_functions_sdk_go.Store.Redis.{
  Alias, remove_valid, update_valid, Connection, update, remove_from_store,
}

module _ {W : Type 0} (conn : Connection W) (parse_uuid : Str → Option Str)
    (new_uuid : Act W Str) where
  -- An object without an id, with one that is no UUID, or without a service key, a payload or a
  -- version is refused by `Update` and `RemoveFromStore` with an error before any command is sent.
  pub update-refuses :
      (json_marshal : Alias → Result Bytes) (o : StoredObject) (w : W)
      → is_acceptable parse_uuid o ≡ false
      → (e : GoError) × (update conn parse_uuid new_uuid json_marshal o w ≡ returns (some e, w))
        × (remove_from_store conn parse_uuid new_uuid o w ≡ returns (some e, w))
  unfolding update update_valid remove_from_store remove_valid
  update-refuses json_marshal o w h =
      let (o', e, v) = validate_contract-refuses parse_uuid new_uuid o w h in
      (
        e,
        bind-returns (validate_contract parse_uuid new_uuid true o)
            (update_valid conn parse_uuid new_uuid json_marshal) v,
        bind-returns (validate_contract parse_uuid new_uuid true o)
            (remove_valid conn parse_uuid new_uuid) v,
      )
