-- ===== src/Store/Mongo.antt =====
-- internal/store/db/mongo: `Store`, `RetrieveFromStore`, `Update` and `RemoveFromStore` of store.go,
-- and `ToContract`, `GetUUID` and `ToContractId` of models/storedobject.go. The collection is an
-- interface.
pub mod Laws
use app_functions_sdk_go.Prelude.{
  [], ◌∷◌, none, some, true, false, ◌++◌, ◌&&◌, Str, Bytes, Bool, ℕ, ℤ, pos, ◌==◌, is_zero, Option,
  List, Act, pure, ◌>>=◌, str, is_empty, if◌then◌else◌, map,
}
use app_functions_sdk_go.AppContext.{Result, GoError, ok, err}
use app_functions_sdk_go.Store.Contracts.{
  StoreClient, StoredObject, validate_contract, new_stored_object,
}

-- `models.StoredObject`, with its object id in hexadecimal digits.
pub record Document : Type 0 where
  pub object_id : Str
  pub uuid : Str
  pub app_service_key : Str
  pub payload : Bytes
  pub retry_count : ℤ
  pub pipeline_position : ℕ
  pub version : Str
  pub correlation_id : Str
  pub event_id : Str
  pub event_checksum : Str

-- `reflect.DeepEqual(m, models.StoredObject{})`
pub is_no_document : Document → Bool
is_no_document m =
    is_empty m.object_id
    && (is_empty m.uuid
        && (is_empty m.app_service_key
            && (is_empty m.payload
                && (is_zero m.retry_count
                    && (m.pipeline_position == 0
                        && (is_empty m.version
                            && (is_empty m.correlation_id
                                && (is_empty m.event_id && is_empty m.event_checksum))))))))

unfoldable pub to_contract_id : Str → Str → Str
to_contract_id object_id uuid = if is_empty uuid then object_id else uuid

unfoldable pub document_to_contract : Document → StoredObject
unfolding to_contract_id
document_to_contract o =
    record (new_stored_object o.app_service_key o.payload o.pipeline_position o.version) {
      id = to_contract_id o.object_id o.uuid;
      retry_count = o.retry_count;
      correlation_id = o.correlation_id;
      event_id = o.event_id;
      event_checksum = o.event_checksum;
    }

-- What decoding each document gives, and the cursor's error at the end.
pub record Cursor : Type 0 where
  pub documents : List (Result Document)
  pub error : Option GoError

-- The collection. `find_one` gives what decoding leaves, the zero value where there is no document
-- of the UUID. A document that is written is an object whose id is its UUID; `update_one` and
-- `delete_one` take the UUID and the service key of their filter.
pub record Collection (W : Type 0) : Type 0 where
  pub find_one : Str → Act W Document
  pub insert_one : StoredObject → Act W (Option GoError)
  pub find : Str → Act W (Result Cursor)
  pub update_one : Str → Str → StoredObject → Act W (Option GoError)
  pub delete_one : Str → Str → Act W (Option GoError)

pub with_document : Document → Result (List Document) → Result (List Document)
with_document p (err e) = err e
with_document p (ok models) = ok (p ∷ models)

-- The loop over the cursor.
pub decode_documents : List (Result Document) → Result (List Document)
unfolding with_document
decode_documents [] = ok []
decode_documents (err e ∷ documents) = err e
decode_documents (ok p ∷ documents) = let rest = decode_documents documents in with_document p rest

-- The objects, or the error of a document or of the cursor.
pub objects_of : Result (List Document) → Option GoError → Result (List StoredObject)
objects_of (err e) error = err e
objects_of (ok models) (some e) = err e
objects_of (ok models) none = ok (map document_to_contract models)

module _ {W : Type 0} (collection : Collection W) where
  cursor_objects : Result Cursor → Act W (Result (List StoredObject))
  unfolding decode_documents objects_of
  cursor_objects (err e) = pure (err e)
  cursor_objects (ok cursor) = pure (objects_of (decode_documents cursor.documents) cursor.error)

  unfoldable pub retrieve_from_mongo : Str → Act W (Result (List StoredObject))
  unfolding cursor_objects
  retrieve_from_mongo app_service_key =
      if is_empty app_service_key
      then pure (err (str "no AppServiceKey provided"))
      else do cursor ← collection.find app_service_key; cursor_objects cursor

  module _ (parse_uuid : Str → Option Str) (new_uuid : Act W Str) where
    parsed_uuid : Str → Option Str → Result Str
    parsed_uuid id none = err (str "invalid id: " ++ id)
    parsed_uuid id (some uuid) = ok uuid

    unfoldable pub get_uuid : Str → Act W (Result Str)
    unfolding parsed_uuid
    get_uuid id =
        if is_empty id
        then (do uuid ← new_uuid; pure (ok uuid))
        else pure (parsed_uuid id (parse_uuid id))

    inserted : Str → Option GoError → Act W (Result Str)
    inserted uuid (some e) = pure (err e)
    inserted uuid none = pure (ok uuid)

    insert_new : StoredObject → Str → Document → Act W (Result Str)
    unfolding inserted is_no_document
    insert_new o uuid m =
        if is_no_document m
        then (do e ← collection.insert_one (record o { id = uuid }); inserted uuid e)
        else pure (err (str "object exists in database"))

    store_as : StoredObject → Result Str → Act W (Result Str)
    unfolding insert_new
    store_as o (err e) = pure (err e)
    store_as o (ok uuid) = do m ← collection.find_one uuid; insert_new o uuid m

    store_checked : StoredObject × Option GoError → Act W (Result Str)
    unfolding store_as
    store_checked (o, some e) = pure (err e)
    store_checked (o, none) = do uuid ← get_uuid o.id; store_as o uuid

    unfoldable pub store_in_mongo : StoredObject → Act W (Result Str)
    unfolding store_checked
    store_in_mongo o = do
      checked ← validate_contract parse_uuid new_uuid false o
      store_checked checked

    update_checked : StoredObject × Option GoError → Act W (Option GoError)
    update_checked (o, some e) = pure (some e)
    update_checked (o, none) = collection.update_one o.id o.app_service_key o

    unfoldable pub update_in_mongo : StoredObject → Act W (Option GoError)
    unfolding update_checked
    update_in_mongo o = do
      checked ← validate_contract parse_uuid new_uuid true o
      update_checked checked

    remove_checked : StoredObject × Option GoError → Act W (Option GoError)
    remove_checked (o, some e) = pure (some e)
    remove_checked (o, none) = collection.delete_one o.id o.app_service_key

    unfoldable pub remove_from_mongo : StoredObject → Act W (Option GoError)
    unfolding remove_checked
    remove_from_mongo o = do
      checked ← validate_contract parse_uuid new_uuid true o
      remove_checked checked

    -- The database as the runtime sees it.
    abbrev pub mongo_client : StoreClient W
    mongo_client = record {
      store = store_in_mongo;
      retrieve_from_store = retrieve_from_mongo;
      update = update_in_mongo;
      remove_from_store = remove_from_mongo;
    }
