-- ===== src/Store/Mongo/Laws.antt =====
-- internal/store/db/mongo: what `RetrieveFromStore` makes of the documents that `Store` wrote, and
-- what is refused.
use app_functions_sdk_go.Prelude.{
  bind-returns, All, is_empty, Act, refl, [], ◌∷◌, none, some, true, false, ◌≡◌, Str, Option, List,
  returns, ap, map, ◌∙◌,
}
use app_functions_sdk_go.AppContext.{GoError, Result, ok}
use app_functions_sdk_go.Store.Contracts.{StoredObject, validate_contract}
use app_functions_sdk_go.Store.Contracts.Valid.{is_acceptable, validate_contract-refuses}
use app_functions_sdk_go.Store.Mongo.{
  remove_checked, update_checked, objects_of, with_document, to_contract_id, cursor_objects,
  Document, Collection, decode_documents, document_to_contract, retrieve_from_mongo,
  update_in_mongo, remove_from_mongo,
}

-- The document that the collection keeps of an object, under some object id.
abbrev pub document : Str → StoredObject → Document
document object_id o = record {
  object_id = object_id;
  uuid = o.id;
  app_service_key = o.app_service_key;
  payload = o.payload;
  retry_count = o.retry_count;
  pipeline_position = o.pipeline_position;
  version = o.version;
  correlation_id = o.correlation_id;
  event_id = o.event_id;
  event_checksum = o.event_checksum;
}

-- An object that has an id.
abbrev pub HasId : StoredObject → Type 0
HasId o = is_empty o.id ≡ false

document_to_contract-document :
    (object_id : Str) (o : StoredObject) → HasId o → document_to_contract (document object_id o) ≡ o
unfolding document_to_contract to_contract_id
document_to_contract-document object_id o h = rw h refl

module _ (object_id : StoredObject → Str) where
  abbrev pub written : List StoredObject → List (Result Document)
  written objects = map (λ o. ok (document (object_id o) o)) objects

  decode_documents-written :
      (objects : List StoredObject)
      → decode_documents (written objects) ≡ ok (map (λ o. document (object_id o) o) objects)
  unfolding decode_documents with_document
  decode_documents-written [] = refl
  decode_documents-written (o ∷ objects) = rw (decode_documents-written objects) refl

  contracts_of :
      (objects : List StoredObject)
      → All HasId objects
      → map document_to_contract (map (λ o. document (object_id o) o) objects) ≡ objects
  contracts_of [] h = refl
  contracts_of (o ∷ objects) (h, hs) =
      rw (document_to_contract-document (object_id o) o h, contracts_of objects hs) refl

  -- `RetrieveFromStore` of the Mongo client gives exactly the objects whose documents the
  -- collection finds, in its order, whatever their other strings are.
  pub retrieve_from_mongo-written :
      {W : Type 0} (collection : Collection W) (key : Str) (objects : List StoredObject) (w w' : W)
      → is_empty key ≡ false
      → All HasId objects
      → collection.find key w
        ≡ returns (ok (record { documents = written objects; error = none }), w')
      → retrieve_from_mongo collection key w ≡ returns (ok objects, w')
  unfolding retrieve_from_mongo cursor_objects objects_of
  retrieve_from_mongo-written collection key objects w w' k ids found = rw k (
      bind-returns (collection.find key) (cursor_objects collection) found
      ∙ (rw (decode_documents-written objects)
          (ap (λ os. returns (ok os, w')) (contracts_of objects ids))))

module _ {W : Type 0} (collection : Collection W) (parse_uuid : Str → Option Str)
    (new_uuid : Act W Str) where
  -- An object without an id, with one that is no UUID, or without a service key, a payload or a
  -- version is refused by `Update` and `RemoveFromStore` of the Mongo client with an error before
  -- the collection is touched.
  pub update_in_mongo-refuses :
      (o : StoredObject) (w : W)
      → is_acceptable parse_uuid o ≡ false
      → (e : GoError) × (update_in_mongo collection parse_uuid new_uuid o w ≡ returns (some e, w))
        × (remove_from_mongo collection parse_uuid new_uuid o w ≡ returns (some e, w))
  unfolding update_in_mongo update_checked remove_from_mongo remove_checked
  update_in_mongo-refuses o w h =
      let (o', e, v) = validate_contract-refuses parse_uuid new_uuid o w h in
      (
        e,
        bind-returns (validate_contract parse_uuid new_uuid true o)
            (update_checked collection parse_uuid new_uuid) v,
        bind-returns (validate_contract parse_uuid new_uuid true o)
            (remove_checked collection parse_uuid new_uuid) v,
      )
