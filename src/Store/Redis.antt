-- ===== src/Store/Redis.antt =====
-- internal/store/db/redis/store.go: `Store`, `RetrieveFromStore`, `Update` and `RemoveFromStore`.
-- The server, with the Go values that the client library makes of its replies, is an interface.
mod Models
pub mod Server
mod Codec
mod Memory
mod Examples
pub mod Retrieval
pub mod Removal
pub mod Updating
pub mod Adding
pub mod Refinement
pub mod Transactions
pub mod Represents
pub mod Reads
pub mod Guards
pub use Models.{Model, Alias, no_model, pointer}
unfoldable pub use Models.{
  assigned, unmarshaled, to_contract, from_contract, to_alias, from_alias, marshal_json,
  unmarshal_json,
}
use app_functions_sdk_go.Prelude.{
  [], ◌∷◌, none, some, true, false, Str, Bytes, Bool, Option, List, Act, pure, ◌>>=◌, ◌===◌, ◌++◌,
  str, is_empty, if◌then◌else◌, not, panic,
}
use app_functions_sdk_go.AppContext.{Result, GoError, ok, err}
use app_functions_sdk_go.Store.Contracts.{StoredObject, validate_contract, StoreClient}

-- The commands between MULTI and EXEC.
pub data Command : Type 0 where
  set : Str → Bytes → Command
  sadd : Str → Str → Command
  srem : Str → Str → Command
  hset : Str → Str → Str → Command
  unlink : Str → Command

-- A connection. `exec` runs a transaction, and gives its replies as Booleans.
pub record Connection (W : Type 0) : Type 0 where
  pub exists : Str → Act W (Result Bool)
  pub smembers : Str → Act W (Result (List Str))
  pub mget : List Str → Act W (Result (List Bytes))
  pub hget : Str → Str → Act W (Result Str)
  pub exec : List Command → Act W (Result (List Bool))

-- The keys of the sets of ids, and of the hashes with the service key.
pub id_list : Str → Str
id_list app_service_key = str "store:idl:" ++ app_service_key

pub service_key : Str → Str
service_key id = str "store:ask:" ++ id

infixr 5 ◌and_then◌
-- `if err != nil { return nil, err }` before the rest.
abbrev pub ◌and_then◌ : {A B : Type 0} → Result A → (A → Result B) → Result B
(err e) and_then k = err e
(ok a) and_then k = k a

-- The loop of `RetrieveFromStore`: one `model` for all rounds.
pub decode_all : (Bytes → Result Alias) → Model → List Bytes → Result (List StoredObject)
decode_all json_unmarshal model [] = ok []
decode_all json_unmarshal model (bytes ∷ values) =
    unmarshal_json json_unmarshal model bytes and_then λ model'.
    decode_all json_unmarshal model' values and_then λ objects. ok (to_contract model' ∷ objects)

module _ {W : Type 0} (conn : Connection W) (json_unmarshal : Bytes → Result Alias) where
  decoded : Result (List Bytes) → Act W (Result (List StoredObject))
  unfolding decode_all
  decoded (err e) = pure (err e)
  decoded (ok values) = pure (decode_all json_unmarshal no_model values)

  get_all : Result (List Str) → Act W (Result (List StoredObject))
  unfolding decoded
  get_all (err e) = pure (err e)
  get_all (ok ids) =
      if is_empty ids then pure (ok []) else do values ← conn.mget ids; decoded values

  unfoldable pub retrieve_from_store : Str → Act W (Result (List StoredObject))
  unfolding get_all id_list
  retrieve_from_store app_service_key =
      if is_empty app_service_key
      then pure (err (str "no AppServiceKey provided"))
      else do ids ← conn.smembers (id_list app_service_key); get_all ids

-- The commands that move the object to the set of its new service key.
pub moved : StoredObject → Str → List Command
unfolding id_list service_key
moved o current_ask =
    if o.app_service_key === current_ask
    then []
    else (srem (id_list current_ask) o.id
        ∷ sadd (id_list o.app_service_key) o.id
        ∷ hset (service_key o.id) (str "ASK") o.app_service_key
        ∷ [])

module _ {W : Type 0} (conn : Connection W) (parse_uuid : Str → Option Str)
    (new_uuid : Act W Str) where
  -- `res[0]` of no replies panics.
  removed : Result (List Bool) → Act W (Option GoError)
  removed (err e) = pure (some e)
  removed (ok []) = panic
  removed (ok (exists ∷ _)) =
      pure (if exists then none else some (str "could not remove object from store"))

  remove_valid : StoredObject × Option GoError → Act W (Option GoError)
  unfolding removed id_list service_key
  remove_valid (o, some e) = pure (some e)
  remove_valid (o, none) = do
    replies ←
        conn.exec
          (unlink o.id ∷ srem (id_list o.app_service_key) o.id ∷ unlink (service_key o.id) ∷ [])
    removed replies

  unfoldable pub remove_from_store : StoredObject → Act W (Option GoError)
  unfolding remove_valid
  remove_from_store o = do
    checked ← validate_contract parse_uuid new_uuid true o
    remove_valid checked

  module _ (json_marshal : Alias → Result Bytes) where
    stored : Model → Result (List Bool) → Act W (Result Str)
    stored model (err e) = pure (err e)
    stored model (ok replies) =
        pure (if is_empty model.id then err (str "no ID produced") else ok model.id)

    write : Model → Result Bytes → Act W (Result Str)
    unfolding stored id_list service_key
    write model (err e) = pure (err e)
    write model (ok json) = do
      replies ← conn.exec (
          set model.id json
          ∷ sadd (id_list model.app_service_key) model.id
          ∷ hset (service_key model.id) (str "ASK") model.app_service_key
          ∷ [])
      stored model replies

    store_new : StoredObject → Result Bool → Act W (Result Str)
    unfolding write
    store_new o (err e) = pure (err e)
    store_new o (ok true) = pure (err (str "object exists in database"))
    store_new o (ok false) =
        let model = from_contract o in write model (marshal_json json_marshal model)

    store_valid : StoredObject × Option GoError → Act W (Result Str)
    unfolding store_new
    store_valid (o, some e) = pure (err e)
    store_valid (o, none) = do exists ← conn.exists o.id; store_new o exists

    unfoldable pub store : StoredObject → Act W (Result Str)
    unfolding store_valid
    store o = do checked ← validate_contract parse_uuid new_uuid false o; store_valid checked

    executed : Result (List Bool) → Act W (Option GoError)
    executed (err e) = pure (some e)
    executed (ok replies) = pure none

    rewrite : StoredObject → Str → Result Bytes → Act W (Option GoError)
    unfolding executed moved
    rewrite o current_ask (err e) = pure (some e)
    rewrite o current_ask (ok json) = do
      replies ← conn.exec (moved o current_ask ++ (set (from_contract o).id json ∷ []))
      executed replies

    update_current : StoredObject → Result Str → Act W (Option GoError)
    unfolding rewrite
    update_current o (err e) = pure (some e)
    update_current o (ok current_ask) =
        rewrite o current_ask (marshal_json json_marshal (from_contract o))

    update_valid : StoredObject × Option GoError → Act W (Option GoError)
    unfolding update_current service_key
    update_valid (o, some e) = pure (some e)
    update_valid (o, none) = do
      current_ask ← conn.hget (service_key o.id) (str "ASK")
      update_current o current_ask

    unfoldable pub update : StoredObject → Act W (Option GoError)
    unfolding update_valid
    update o = do checked ← validate_contract parse_uuid new_uuid true o; update_valid checked

    -- The database as the runtime sees it.
    abbrev pub redis_client : (Bytes → Result Alias) → StoreClient W
    redis_client json_unmarshal = record {
      store = store;
      retrieve_from_store = retrieve_from_store conn json_unmarshal;
      update = update;
      remove_from_store = remove_from_store;
    }
