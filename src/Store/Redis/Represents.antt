-- ===== src/Store/Redis/Represents.antt =====
-- internal/store/db/redis/store.go: the database as a map from ids to stored objects, and what the
-- transactions of the client do to that map.
use app_functions_sdk_go.Prelude.{
  has_prefix, none, some, true, false, Str, Bytes, Bool, Option, ◌===◌, ◌≡◌, refl, str,
  if◌then◌else◌, ===_eq, Bool-cases, inl, inr,
}
use mathlib.Core.Path.{subst, sym}
use app_functions_sdk_go.AppContext.{Result, ok}
use app_functions_sdk_go.Store.Contracts.{StoredObject}
use app_functions_sdk_go.Store.Redis.{Alias, id_list, service_key, from_contract, to_alias}
use app_functions_sdk_go.Store.Redis.Server.{Db}

-- The abstract database.
abbrev pub Spec : Type 0
Spec = Str → Option StoredObject

abbrev pub put : StoredObject → Spec → Spec
put o spec id = if id === o.id then some o else spec id

abbrev pub delete : Str → Spec → Spec
delete removed_id spec id = if id === removed_id then none else spec id

-- The object is there and belongs to the service key.
abbrev pub belongs : Str → Option StoredObject → Bool
belongs key none = false
belongs key (some o) = key === o.app_service_key

abbrev pub key_of : Option StoredObject → Option Str
key_of none = none
key_of (some o) = some o.app_service_key

-- A key of the client's own, not an id.
abbrev pub is_key : Str → Bool
is_key s = has_prefix (str "store:") s

pub id_list-is_key : (key : Str) → is_key (id_list key) ≡ true
unfolding id_list str
id_list-is_key key = refl

pub service_key-is_key : (id : Str) → is_key (service_key id) ≡ true
unfolding service_key str
service_key-is_key id = refl

pub differs : (s t : Str) → is_key s ≡ false → is_key t ≡ true → (s === t) ≡ false
differs s t s_id t_key = elim (Bool-cases (s === t)) [
  | inl h ↦ absurd (cc (s_id, t_key, ===_eq s t h))
  | inr h ↦ h
]

pub differs' : (s t : Str) → is_key s ≡ true → is_key t ≡ false → (s === t) ≡ false
differs' s t s_key t_id = elim (Bool-cases (s === t)) [
  | inl h ↦ absurd (cc (s_key, t_id, ===_eq s t h))
  | inr h ↦ h
]

pub id_list-service_key : (key id : Str) → (id_list key === service_key id) ≡ false
unfolding id_list service_key str ◌===◌
id_list-service_key key id = refl

pub id_list_injective : (key key' : Str) → (id_list key === id_list key') ≡ (key === key')
unfolding id_list str ◌===◌
id_list_injective key key' = refl

pub service_key_injective : (id id' : Str) → (service_key id === service_key id') ≡ (id === id')
unfolding service_key str ◌===◌
service_key_injective id id' = refl

module _ (json_marshal : Alias → Result Bytes) where
  -- The string is the JSON of the object.
  abbrev pub Holds : Option Bytes → Option StoredObject → Type 0
  Holds none none = Unit {0}
  Holds (some bytes) (some o) = json_marshal (to_alias (from_contract o)) ≡ ok bytes
  Holds _ _ = ⊥

  -- The strings, the sets of ids and the hashes with the service keys all say what the map says.
  pub record Represents (db : Db) (spec : Spec) : Type 0 where
    pub data_at : (id : Str) → is_key id ≡ false → Holds (db.strings id) (spec id)
    pub index : (key id : Str) → db.sets (id_list key) id ≡ belongs key (spec id)
    pub ask : (id : Str) → db.hashes (service_key id) (str "ASK") ≡ key_of (spec id)
    pub names : (id : Str) (o : StoredObject) → spec id ≡ some o → is_key id ≡ false

  pub same-Represents :
      (spec : Spec) {db db' : Db} → db' ≡ db → Represents db spec → Represents db' spec
  same-Represents spec same r = subst (λ db. Represents db spec) (sym same) r
