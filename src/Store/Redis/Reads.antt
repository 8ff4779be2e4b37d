-- ===== src/Store/Redis/Reads.antt =====
-- internal/store/db/redis: what `RetrieveFromStore` makes of the JSON that `Store` wrote.
use app_functions_sdk_go.Store.Redis.{
  no_model, decoded, get_all, id_list, retrieve_from_store, ◌and_then◌, Connection, unmarshaled,
  pointer, Model, unmarshal_json, from_contract, decode_all,
}
use app_functions_sdk_go.Store.Redis.Models.{from_alias, to_alias, assigned, to_contract, Alias}
use app_functions_sdk_go.Prelude.{
  bind-returns, ◌∙◌, returns, ap, is_empty, if◌then◌else◌, All, refl, [], ◌∷◌, false, ◌≡◌, Str,
  Bytes, List,
}
use app_functions_sdk_go.AppContext.{Result, ok}
use app_functions_sdk_go.Store.Contracts.{StoredObject}

-- An object with its empty strings replaced by those of the object before it.
abbrev or_before : Str → Str → Str
or_before before s = if is_empty s then before else s

abbrev pub fill_in : StoredObject → StoredObject → StoredObject
fill_in before o = record o {
  id = or_before before.id o.id;
  app_service_key = or_before before.app_service_key o.app_service_key;
  version = or_before before.version o.version;
  correlation_id = or_before before.correlation_id o.correlation_id;
  event_id = or_before before.event_id o.event_id;
  event_checksum = or_before before.event_checksum o.event_checksum;
}

abbrev pub filled : StoredObject → List StoredObject → List StoredObject
filled before [] = []
filled before (o ∷ objects) = fill_in before o ∷ filled (fill_in before o) objects

-- No string of the object is empty.
pub record IsFull (o : StoredObject) : Type 0 where
  pub id : is_empty o.id ≡ false
  pub app_service_key : is_empty o.app_service_key ≡ false
  pub version : is_empty o.version ≡ false
  pub correlation_id : is_empty o.correlation_id ≡ false
  pub event_id : is_empty o.event_id ≡ false
  pub event_checksum : is_empty o.event_checksum ≡ false

assigned-pointer : (before s : Str) → assigned before (pointer s) ≡ or_before before s
unfolding assigned
assigned-pointer before [] = refl
assigned-pointer before (c ∷ s) = refl

-- The object of a model that took over the alias of an object.
to_contract-from_alias :
    (m : Model) (o : StoredObject)
    → to_contract (from_alias m (to_alias (from_contract o))) ≡ fill_in (to_contract m) o
unfolding to_contract from_alias to_alias from_contract
to_contract-from_alias m o =
    rw
      (
        assigned-pointer m.id o.id,
        assigned-pointer m.app_service_key o.app_service_key,
        assigned-pointer m.version o.version,
        assigned-pointer m.correlation_id o.correlation_id,
        assigned-pointer m.event_id o.event_id,
        assigned-pointer m.event_checksum o.event_checksum,
      )
      refl

fill_in-full : (before o : StoredObject) → IsFull o → fill_in before o ≡ o
fill_in-full before o full = simp (
  full.id, full.app_service_key, full.version, full.correlation_id, full.event_id,
  full.event_checksum,
)

filled-full :
    (before : StoredObject) (objects : List StoredObject)
    → All IsFull objects
    → filled before objects ≡ objects
filled-full before [] full = refl
filled-full before (o ∷ objects) (f, full) =
    rw (fill_in-full before o f, filled-full o objects full) refl

module _ (json_unmarshal : Bytes → Result Alias) where
  -- The values are JSON of the objects: the decoder reads the structs that were written.
  abbrev pub ReadsAs : List Bytes → List StoredObject → Type 0
  ReadsAs [] [] = Unit {0}
  ReadsAs (bytes ∷ values) (o ∷ objects) =
      (json_unmarshal bytes ≡ ok (to_alias (from_contract o))) × ReadsAs values objects
  ReadsAs values objects = ⊥

  pub decode_all-filled :
      (m : Model) (values : List Bytes) (objects : List StoredObject)
      → ReadsAs values objects
      → decode_all json_unmarshal m values ≡ ok (filled (to_contract m) objects)
  unfolding decode_all unmarshal_json unmarshaled
  decode_all-filled m [] [] reads = refl
  decode_all-filled m [] (o ∷ objects) reads = absurd reads
  decode_all-filled m (bytes ∷ values) [] reads = absurd reads
  decode_all-filled m (bytes ∷ values) (o ∷ objects) (r, reads) =
      let m' = from_alias m (to_alias (from_contract o)) in
      let rest = decode_all-filled m' values objects reads in
      ap
        (λ r'. unmarshaled m r' and_then λ n.
          decode_all json_unmarshal n values and_then λ os. ok (to_contract n ∷ os))
        r
      ∙ (ap (λ r'. r' and_then λ os. ok (to_contract m' ∷ os)) rest
          ∙ rw (to_contract-from_alias m o) refl)

  module _ {W : Type 0} (conn : Connection W) where
    -- What two replies of the server make of a service key's objects.
    retrieve_decodes :
        (key : Str) (ids : List Str) (values : List Bytes) (w w1 w2 : W)
        → is_empty key ≡ false
        → conn.smembers (id_list key) w ≡ returns (ok ids, w1)
        → is_empty ids ≡ false
        → conn.mget ids w1 ≡ returns (ok values, w2)
        → retrieve_from_store conn json_unmarshal key w
          ≡ returns (decode_all json_unmarshal no_model values, w2)
    unfolding retrieve_from_store get_all decoded
    retrieve_decodes key ids values w w1 w2 k m i g = rw k (
        bind-returns (conn.smembers (id_list key)) (get_all conn json_unmarshal) m
        ∙ rw i (bind-returns (conn.mget ids) (decoded conn json_unmarshal) g))

    -- `RetrieveFromStore` gives the stored objects in the order of the server's reply, each with
    -- its empty strings replaced by those of the object before it.
    pub retrieve_from_store-filled :
        (key : Str) (ids : List Str) (values : List Bytes) (objects : List StoredObject)
        (w w1 w2 : W)
        → is_empty key ≡ false
        → conn.smembers (id_list key) w ≡ returns (ok ids, w1)
        → is_empty ids ≡ false
        → conn.mget ids w1 ≡ returns (ok values, w2)
        → ReadsAs values objects
        → retrieve_from_store conn json_unmarshal key w
          ≡ returns (ok (filled (to_contract no_model) objects), w2)
    retrieve_from_store-filled key ids values objects w w1 w2 k m i g reads =
        retrieve_decodes key ids values w w1 w2 k m i g
        ∙ ap (λ r. returns (r, w2)) (decode_all-filled no_model values objects reads)

    -- Where no string of the stored objects is empty, `RetrieveFromStore` gives exactly the
    -- objects, in the order of the server's reply.
    pub retrieve_from_store-full :
        (key : Str) (ids : List Str) (values : List Bytes) (objects : List StoredObject)
        (w w1 w2 : W)
        → is_empty key ≡ false
        → conn.smembers (id_list key) w ≡ returns (ok ids, w1)
        → is_empty ids ≡ false
        → conn.mget ids w1 ≡ returns (ok values, w2)
        → ReadsAs values objects
        → All IsFull objects
        → retrieve_from_store conn json_unmarshal key w ≡ returns (ok objects, w2)
    retrieve_from_store-full key ids values objects w w1 w2 k m i g reads full =
        retrieve_from_store-filled key ids values objects w w1 w2 k m i g reads
        ∙ ap (λ os. returns (ok os, w2)) (filled-full (to_contract no_model) objects full)
