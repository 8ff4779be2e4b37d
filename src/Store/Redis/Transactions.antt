-- ===== src/Store/Redis/Transactions.antt =====
-- internal/store/db/redis/store.go: the transactions of `Store`, `Update` and `RemoveFromStore`
-- keep the database a representation of the map.
use app_functions_sdk_go.Prelude.{
  [], ◌∷◌, none, some, true, false, Str, Bytes, Option, List, ◌===◌, Bool, if◌then◌else◌, ◌++◌, ◌≡◌,
  refl, str, ===_eq, Bool-cases, Option-cases, inl, inr, ◌∙◌, ap, arith, ===_refl,
}
use app_functions_sdk_go.AppContext.{Result, ok}
use app_functions_sdk_go.Store.Contracts.{StoredObject}
use app_functions_sdk_go.Store.Redis.{
  Command, Alias, set, sadd, srem, hset, unlink, id_list, service_key, from_contract, to_alias,
}
use app_functions_sdk_go.Store.Redis.Server.{Db, run}
use app_functions_sdk_go.Store.Redis.Represents.{
  Spec, put, delete, belongs, is_key, differs, differs', Represents, id_list_injective,
  service_key_injective, id_list-service_key, id_list-is_key, service_key-is_key,
}
use app_functions_sdk_go.Store.Redis.{moved}

-- The commands of the transactions.
abbrev pub stores : StoredObject → Bytes → List Command
stores o json =
    set o.id json
    ∷ sadd (id_list o.app_service_key) o.id
    ∷ hset (service_key o.id) (str "ASK") o.app_service_key
    ∷ []

abbrev pub removes : StoredObject → List Command
removes o = unlink o.id ∷ srem (id_list o.app_service_key) o.id ∷ unlink (service_key o.id) ∷ []

module _ (json_marshal : Alias → Result Bytes) (db : Db) (spec : Spec) (o : StoredObject)
    (r : Represents json_marshal db spec) (o_id : is_key o.id ≡ false) where
  list_not_id : (key : Str) → (id_list key === o.id) ≡ false
  list_not_id key = differs' (id_list key) o.id (id_list-is_key key) o_id

  ask_not_id : (id : Str) → (service_key id === o.id) ≡ false
  ask_not_id id = differs' (service_key id) o.id (service_key-is_key id) o_id

  -- Where the set of a service key has the id, by the object that the map has there.
  index_of :
      (key id : Str) (found : Option StoredObject)
      → (id === o.id) ≡ true
      → spec o.id ≡ found
      → db.sets (id_list key) id ≡ belongs key found
  index_of key id found h s =
      r.index key id ∙ (ap (λ i. belongs key (spec i)) (===_eq id o.id h) ∙ ap (belongs key) s)

  put_names :
      (id : Str) (found : StoredObject) (b : Bool)
      → (id === o.id) ≡ b
      → (if b then some o else spec id) ≡ some found
      → is_key id ≡ false
  put_names id found true h s = cc (o_id, ===_eq id o.id h)
  put_names id found false h s = r.names id found s

  delete_names :
      (id : Str) (found : StoredObject) (b : Bool)
      → (if b then none else spec id) ≡ some found
      → is_key id ≡ false
  delete_names id found true s = absurd (cc s)
  delete_names id found false s = r.names id found s

  pub stores-Represents :
      (json : Bytes)
      → json_marshal (to_alias (from_contract o)) ≡ ok json
      → spec o.id ≡ none
      → Represents json_marshal (run (stores o json) db) (put o spec)
  stores-Represents json j absent = record {
    data_at = λ id is_id. elim (Bool-cases (id === o.id)) [
      | inl h ↦ rw h j
      | inr h ↦ rw h (r.data_at id is_id)
    ];
    index = λ key id. elim (Bool-cases (id === o.id)) [
      | inl h ↦
          rw
            (
              id_list_injective key o.app_service_key,
              list_not_id key,
              h,
              index_of key id none h absent,
            )
            (ground arith)
      | inr h ↦ rw (list_not_id key, h, r.index key id) (ground arith)
    ];
    ask = λ id.
        rw (service_key_injective id o.id, ask_not_id id, ===_refl (str "ASK"), r.ask id)
          (ground arith);
    names = λ id found. put_names id found (id === o.id) refl;
  }

  pub removes-Represents :
      ((there : StoredObject) → spec o.id ≡ some there → there.app_service_key ≡ o.app_service_key)
      → Represents json_marshal (run (removes o) db) (delete o.id spec)
  removes-Represents same = record {
    data_at = λ id is_id.
        rw (differs id (service_key o.id) is_id (service_key-is_key o.id))
          (elim (Bool-cases (id === o.id)) [ inl h ↦ rw h tt | inr h ↦ rw h (r.data_at id is_id) ]);
    index = λ key id. elim (Bool-cases (id === o.id)) [
      | inl h ↦
          rw
            (
              id_list_injective key o.app_service_key,
              id_list-service_key key o.id,
              list_not_id key,
              h,
            )
            (elim (Option-cases (spec o.id)) [
              | inl s ↦ rw (index_of key id none h s) (ground arith)
              | inr (there, s) ↦ rw (index_of key id (some there) h s, same there s) (ground arith)
            ])
      | inr h ↦ rw (id_list-service_key key o.id, list_not_id key, h, r.index key id) (ground arith)
    ];
    ask = λ id. rw (service_key_injective id o.id, ask_not_id id, r.ask id) (ground arith);
    names = λ id found. delete_names id found (id === o.id);
  }

  -- The transaction of `Update` where the object that is there has the same service key.
  rewrites-Represents :
      (json : Bytes) (there : StoredObject)
      → json_marshal (to_alias (from_contract o)) ≡ ok json
      → spec o.id ≡ some there
      → o.app_service_key ≡ there.app_service_key
      → Represents json_marshal (run (set o.id json ∷ []) db) (put o spec)
  rewrites-Represents json there j s same = record {
    data_at = λ id is_id. elim (Bool-cases (id === o.id)) [
      | inl h ↦ rw h j
      | inr h ↦ rw h (r.data_at id is_id)
    ];
    index = λ key id. elim (Bool-cases (id === o.id)) [
      | inl h ↦ rw (list_not_id key, h, index_of key id (some there) h s, same) refl
      | inr h ↦ rw (list_not_id key, h, r.index key id) refl
    ];
    ask = λ id. elim (Bool-cases (id === o.id)) [
      | inl h ↦ rw (ask_not_id id, r.ask id, h, ===_eq id o.id h, s, same) refl
      | inr h ↦ rw (ask_not_id id, r.ask id, h) refl
    ];
    names = λ id found. put_names id found (id === o.id) refl;
  }

  -- The one that moves the object to another service key.
  moves-Represents :
      (json : Bytes) (there : StoredObject)
      → json_marshal (to_alias (from_contract o)) ≡ ok json
      → spec o.id ≡ some there
      → Represents json_marshal
          (run
            (srem (id_list there.app_service_key) o.id
              ∷ sadd (id_list o.app_service_key) o.id
              ∷ hset (service_key o.id) (str "ASK") o.app_service_key
              ∷ set o.id json
              ∷ [])
            db)
          (put o spec)
  moves-Represents json there j s = record {
    data_at = λ id is_id. elim (Bool-cases (id === o.id)) [
      | inl h ↦ rw h j
      | inr h ↦ rw h (r.data_at id is_id)
    ];
    index = λ key id. elim (Bool-cases (id === o.id)) [
      | inl h ↦
          rw
            (
              list_not_id key,
              id_list_injective key o.app_service_key,
              id_list_injective key there.app_service_key,
              h,
              index_of key id (some there) h s,
            )
            (ground arith)
      | inr h ↦ rw (list_not_id key, h, r.index key id) (ground arith)
    ];
    ask = λ id.
        rw (ask_not_id id, service_key_injective id o.id, ===_refl (str "ASK"), r.ask id)
          (ground arith);
    names = λ id found. put_names id found (id === o.id) refl;
  }

  pub updates-Represents :
      (json : Bytes) (there : StoredObject)
      → json_marshal (to_alias (from_contract o)) ≡ ok json
      → spec o.id ≡ some there
      → Represents json_marshal
          (run (moved o there.app_service_key ++ (set o.id json ∷ [])) db)
          (put o spec)
  unfolding moved
  updates-Represents json there j s =
      elim (Bool-cases (o.app_service_key === there.app_service_key)) [
        | inl e ↦
            rw e (
              rewrites-Represents json there j s (===_eq o.app_service_key there.app_service_key e))
        | inr e ↦ rw e (moves-Represents json there j s)
      ]
