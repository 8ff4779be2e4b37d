-- ===== src/Security.antt =====
-- internal/security/credentials.go, with `isSecurityEnabled` of secret.go: the secrets of the
-- application service. The secret client of go-mod-secrets is an interface, and the environment
-- variable EDGEX_SECURITY_SECRET_STORE an argument. The mutex makes each access to the cache
-- atomic.
use app_functions_sdk_go.AppContext.{err, ok, Result, GoError}
use app_functions_sdk_go.Common.{ConfigurationStruct, DatabaseInfo, InsecureSecretsInfo}
mod Examples
pub mod Cache
pub mod Token
pub mod Insecure
use app_functions_sdk_go.Prelude.{
  refl, [], ◌∷◌, none, some, true, false, Str, Bool, Option, List, Act, pure, panic, ◌>>=◌, Map,
  lookup, insert, ◌===◌, ◌++◌, str, if◌then◌else◌, is_empty, not,
}

-- `pkg.SecretClient` of go-mod-secrets.
pub record SecretClient (W : Type 0) : Type 0 where
  pub get_secrets : Str → List Str → Act W (Result (Map Str))
  pub store_secrets : Str → Map Str → Act W (Option GoError)

pub record SecretProvider (W : Type 0) : Type 0 where
  pub secret_client : Option (SecretClient W)
  pub secrets_cache : Map (Map Str)
  pub configuration : ConfigurationStruct

unfoldable pub is_security_enabled : Str → Bool
is_security_enabled env = not (env === str "false")

-- `for k, v := range m { into[k] = v }`
pub merge : Map Str → Map Str → Map Str
merge [] into = into
merge ((k, v) ∷ m) into = insert k v (merge m into)

-- `strings.Join(keys, ",")`
join : List Str → Str
join [] = []
join (key ∷ []) = key
join (key ∷ keys) = key ++ (str "," ++ join keys)

-- The variables of the loops of `getInsecureSecrets`.
pub record Found : Type 0 where
  pub secrets : Map Str
  pub path_exists : Bool
  pub missing_keys : List Str

pub found_key : Str → Option Str → Found → Found
found_key key none found = record found { missing_keys = found.missing_keys ++ (key ∷ []) }
found_key key (some value) found = record found { secrets = insert key value found.secrets }

pub find_keys : Map Str → List Str → Found → Found
unfolding found_key
find_keys section [] found = found
find_keys section (key ∷ keys) found =
    find_keys section keys (found_key key (lookup key section) found)

pub insecure_result : Str → Found → Result (Map Str)
unfolding join
insecure_result path found =
    if is_empty found.missing_keys
    then (if found.path_exists
        then ok found.secrets
        else err (str "Error, path (" ++ (path ++ str ") doesn't exist in secret store")))
    else err (str "No value for the keys: [" ++ (join found.missing_keys ++ str "] exists"))

pub scan : Str → List Str → Map InsecureSecretsInfo → Found → Result (Map Str)
unfolding merge find_keys insecure_result
scan path keys [] found = insecure_result path found
scan path keys ((_, info) ∷ sections) found =
    let rest = scan path keys sections (
      if info.path === path
      then find_keys info.secrets keys (record found { path_exists = true })
      else found) in
    if info.path === path
    then (if is_empty keys then ok (merge info.secrets found.secrets) else rest)
    else rest

abbrev pub nothing_found : Found
nothing_found = record { secrets = []; path_exists = false; missing_keys = [] }

-- The loop of `getSecretsCache` over the keys: `none` where it returns nil.
cached_keys : Map Str → List Str → Map Str → Option (Map Str)
cached_keys cached [] secrets = some secrets
cached_keys cached (key ∷ keys) secrets = elim (lookup key cached) [
  | none ↦ none
  | some value ↦ cached_keys cached keys (insert key value secrets)
]

all_found : Bool → Option (Map Str) → Option (Map Str)
all_found all_keys_exist_in_cache none = none
all_found all_keys_exist_in_cache (some secrets) =
    if all_keys_exist_in_cache then some secrets else none

-- The variable `allKeysExistInCache` of the function is false, and stays so: the one that the loop
-- sets is another of that name, declared in the loop.
cached_secrets : Option (Map Str) → List Str → Option (Map Str)
unfolding cached_keys all_found
cached_secrets none keys = none
cached_secrets (some cached) keys =
    let all_keys_exist_in_cache = false in
    all_found all_keys_exist_in_cache (cached_keys cached keys [])

cached_or : Map Str → Option (Map Str) → Map Str
cached_or secrets none = secrets
cached_or secrets (some cached) = cached

-- `common.Credentials`
pub record Credentials : Type 0 where
  pub username : Str
  pub password : Str

abbrev pub no_credentials : Credentials
no_credentials = record { username = []; password = [] }

-- `m[key]`, the empty string where the key is missing.
value_at : Str → Map Str → Str
value_at key m = elim (lookup key m) [ none ↦ [] | some value ↦ value ]

credentials_of : Result (Map Str) → Result Credentials
unfolding value_at
credentials_of (err e) = err e
credentials_of (ok credentials) = ok (record {
  username = value_at (str "username") credentials;
  password = value_at (str "password") credentials;
})

module _ {W : Type 0} where
  unfoldable pub get_insecure_secrets : SecretProvider W → Str → List Str → Result (Map Str)
  unfolding scan
  get_insecure_secrets s path keys =
      scan path keys s.configuration.writable.insecure_secrets nothing_found

  unfoldable pub get_secrets_cache : SecretProvider W → Str → List Str → Option (Map Str)
  unfolding cached_secrets
  get_secrets_cache s path keys = cached_secrets (lookup path s.secrets_cache) keys

  unfoldable pub update_secrets_cache : SecretProvider W → Str → Map Str → SecretProvider W
  unfolding cached_or merge
  update_secrets_cache s path secrets =
      let cached = cached_or secrets (lookup path s.secrets_cache) in
      record s { secrets_cache = insert path (merge secrets cached) s.secrets_cache }

  fetched : SecretProvider W → Str → Result (Map Str) → Act W (SecretProvider W × Result (Map Str))
  fetched s path (err e) = pure (s, err e)
  fetched s path (ok secrets) = pure (update_secrets_cache s path secrets, ok secrets)

  fetch :
      SecretProvider W
      → Str
      → List Str
      → Option (SecretClient W)
      → Act W (SecretProvider W × Result (Map Str))
  unfolding fetched
  fetch s path keys none =
      pure (s, err (str "can't get secret(s) 'SecretProvider' is not properly initialized"))
  fetch s path keys (some client) = do
    secrets ← client.get_secrets path keys
    fetched s path secrets

  secure :
      SecretProvider W
      → Str
      → List Str
      → Option (Map Str)
      → Act W (SecretProvider W × Result (Map Str))
  unfolding fetch
  secure s path keys (some cached) = pure (s, ok cached)
  secure s path keys none = fetch s path keys s.secret_client

  unfoldable pub get_secrets :
      Str → SecretProvider W → Str → List Str → Act W (SecretProvider W × Result (Map Str))
  unfolding secure
  get_secrets env s path keys =
      if is_security_enabled env
      then secure s path keys (get_secrets_cache s path keys)
      else pure (s, get_insecure_secrets s path keys)

  stored : SecretProvider W → Option GoError → Act W (SecretProvider W × Option GoError)
  stored s (some e) = pure (s, some e)
  stored s none = pure (record s { secrets_cache = [] }, none)

  store_with :
      SecretProvider W
      → Str
      → Map Str
      → Option (SecretClient W)
      → Act W (SecretProvider W × Option GoError)
  unfolding stored
  store_with s path secrets none =
      pure (s, some (str "can't store secret(s) 'SecretProvider' is not properly initialized"))
  store_with s path secrets (some client) = do e ← client.store_secrets path secrets; stored s e

  unfoldable pub store_secrets :
      Str → SecretProvider W → Str → Map Str → Act W (SecretProvider W × Option GoError)
  unfolding store_with
  store_secrets env s path secrets =
      if is_security_enabled env
      then store_with s path secrets s.secret_client
      else pure (s, some (str "Storing secrets is not supported when running in insecure mode"))

  client_secrets : Option (SecretClient W) → Str → List Str → Act W (Result (Map Str))
  client_secrets none path keys = panic
  client_secrets (some client) path keys = client.get_secrets path keys

  unfoldable pub get_database_credentials :
      Str → SecretProvider W → DatabaseInfo → Act W (Result Credentials)
  unfolding credentials_of client_secrets
  get_database_credentials env s database =
      let keys = str "username" ∷ str "password" ∷ [] in
      if database.type_name === str "redisdb"
      then pure (ok no_credentials)
      else if is_security_enabled env
      then (do
        credentials ← client_secrets s.secret_client database.type_name keys
        pure (credentials_of credentials))
      else pure (credentials_of (get_insecure_secrets s database.type_name keys))
