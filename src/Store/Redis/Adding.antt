-- ===== src/Store/Redis/Adding.antt =====
-- internal/store/db/redis/store.go: `Store` as an operation of the map.
use app_functions_sdk_go.Prelude.{
  none, some, true, false, Str, Bytes, Bool, Option, List, ◌≡◌, refl, is_empty, Bool-cases, inl,
  inr, Act, Ensures, Ensures-bind,
}
use app_functions_sdk_go.AppContext.{Result, ok, err, GoError}
use app_functions_sdk_go.Store.Contracts.{StoredObject, validate_contract}
use app_functions_sdk_go.Store.Contracts.Standard.{Standard, Valid, validate_contract-Valid}
use app_functions_sdk_go.Store.Redis.{
  Connection, Alias, from_contract, to_alias, store, store_valid, store_new, write, stored,
  marshal_json,
}
use app_functions_sdk_go.Store.Redis.Server.{Db, IsServer, Executed, Reads}
use app_functions_sdk_go.Store.Redis.Represents.{same-Represents, Holds, Spec, put, Represents}
use app_functions_sdk_go.Store.Redis.Transactions.{stores, stores-Represents}
use app_functions_sdk_go.Store.Redis.Refinement.{IsUuidSource, Added, transacted, undecided}

module _ {W : Type 0} (conn : Connection W) (view : W → Db) (server : IsServer conn view)
    (parse_uuid : Str → Option Str) (new_uuid : Act W Str)
    (uuids : IsUuidSource view parse_uuid new_uuid) (json_marshal : Alias → Result Bytes)
    (spec : Spec) where
  absent :
      (bytes : Option Bytes) (found : Option StoredObject)
      → Holds json_marshal bytes found
      → bytes ≡ none
      → found ≡ none
  absent none none holds h = refl
  absent none (some o) holds h = absurd holds
  absent (some bytes) found holds h = absurd (cc h)

  stored-Added :
      (o o' : StoredObject) (w : W) (json : Bytes)
      → Standard parse_uuid o o'
      → Represents json_marshal (view w) spec
      → json_marshal (to_alias (from_contract o')) ≡ ok json
      → spec o'.id ≡ none
      → (replies : Result (List Bool)) (w' : W)
      → Executed (stores o' json) (view w) replies (view w')
      → Ensures
          (Added view parse_uuid json_marshal spec o)
          (stored conn parse_uuid new_uuid json_marshal (from_contract o') replies w')
  unfolding stored from_contract
  stored-Added o o' w json standard r j free (err e) w' x =
      undecided view parse_uuid json_marshal spec o o' (λ o''. put o'' spec) (stores o' json) w
        standard r
        (stores-Represents json_marshal (view w) spec o' r
          (uuids.no_key standard.given o'.id standard.parsed) json j free)
        w' x
  stored-Added o o' w json standard r j free (ok replies) w' (_, same) =
      let r' =
        transacted view parse_uuid json_marshal spec o o' (λ o''. put o'' spec) (stores o' json) w
          standard r
          (stores-Represents json_marshal (view w) spec o' r
            (uuids.no_key standard.given o'.id standard.parsed) json j free)
          w' same in
      elim (Bool-cases (is_empty o'.id)) [
        | inl h ↦ rw h (inr (o', standard, r'))
        | inr h ↦ rw h (o', standard, refl, free, r')
      ]

  write-Added :
      (o o' : StoredObject) (w : W) (json : Result Bytes)
      → Standard parse_uuid o o'
      → Represents json_marshal (view w) spec
      → json_marshal (to_alias (from_contract o')) ≡ json
      → spec o'.id ≡ none
      → Ensures
          (Added view parse_uuid json_marshal spec o)
          (write conn parse_uuid new_uuid json_marshal (from_contract o') json w)
  unfolding write from_contract
  write-Added o o' w (err e) standard r j free = inl r
  write-Added o o' w (ok json) standard r j free =
      Ensures-bind (λ replies w'. Executed (stores o' json) (view w) replies (view w'))
        (Added view parse_uuid json_marshal spec o) (conn.exec (stores o' json))
        (stored conn parse_uuid new_uuid json_marshal (from_contract o')) w
        (server.exec (stores o' json) w) (stored-Added o o' w json standard r j free)

  store_new-Added :
      (o o' : StoredObject) (w : W)
      → Standard parse_uuid o o'
      → Represents json_marshal (view w) spec
      → (exists : Result Bool) (w' : W)
      → Reads (λ b. b ≡ false → (view w).strings o'.id ≡ none) (view w) exists (view w')
      → Ensures
          (Added view parse_uuid json_marshal spec o)
          (store_new conn parse_uuid new_uuid json_marshal o' exists w')
  unfolding store_new marshal_json
  store_new-Added o o' w standard r (err e) w' same = inl (same-Represents json_marshal spec same r)
  store_new-Added o o' w standard r (ok true) w' (_, same) =
      inl (same-Represents json_marshal spec same r)
  store_new-Added o o' w standard r (ok false) w' (free, same) =
      write-Added o o' w' (marshal_json json_marshal (from_contract o')) standard
        (same-Represents json_marshal spec same r) refl
        (absent ((view w).strings o'.id) (spec o'.id)
          (r.data_at o'.id (uuids.no_key standard.given o'.id standard.parsed)) (free refl))

  store_valid-Added :
      (o : StoredObject) (w : W)
      → Represents json_marshal (view w) spec
      → (checked : StoredObject × Option GoError) (w' : W)
      → (view w' ≡ view w) × Valid parse_uuid o checked
      → Ensures
          (Added view parse_uuid json_marshal spec o)
          (store_valid conn parse_uuid new_uuid json_marshal checked w')
  unfolding store_valid
  store_valid-Added o w r (o', some e) w' (same, _) = inl (same-Represents json_marshal spec same r)
  store_valid-Added o w r (o', none) w' (same, standard) =
      Ensures-bind
        (λ exists w''.
          Reads (λ b. b ≡ false → (view w').strings o'.id ≡ none) (view w') exists (view w''))
        (Added view parse_uuid json_marshal spec o) (conn.exists o'.id)
        (store_new conn parse_uuid new_uuid json_marshal o') w' (server.exists o'.id w')
        (store_new-Added o o' w' standard (same-Represents json_marshal spec same r))

  -- `Store` adds the object to the map under the id that it returns, which was free; with an
  -- error it added the object, or it left the map as it was.
  pub store-refines :
      (o : StoredObject) (w : W)
      → Represents json_marshal (view w) spec
      → Ensures
          (Added view parse_uuid json_marshal spec o)
          (store conn parse_uuid new_uuid json_marshal o w)
  unfolding store
  store-refines o w r =
      Ensures-bind (λ checked w'. (view w' ≡ view w) × Valid parse_uuid o checked)
        (Added view parse_uuid json_marshal spec o) (validate_contract parse_uuid new_uuid false o)
        (store_valid conn parse_uuid new_uuid json_marshal) w
        (validate_contract-Valid view parse_uuid new_uuid uuids.draws false o w)
        (store_valid-Added o w r)
