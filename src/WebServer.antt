-- ===== src/WebServer.antt =====
-- internal/webserver: `validateSecretData` of types.go and `secretHandler` of server.go. Decoding
-- the request's JSON and `url.Parse` are parameters.
pub mod Secrets
pub mod Routes
mod Examples
use app_functions_sdk_go.Prelude.{
  [], ◌∷◌, none, some, true, false, Str, Bytes, Bool, ℕ, Option, List, Act, pure, ◌>>=◌, ◌++◌, str,
  Map, insert, is_empty, if◌then◌else◌, ◌==◌,
}
use app_functions_sdk_go.AppContext.{Result, ok, err, GoError}
use app_functions_sdk_go.Security.{SecretProvider, store_secrets}
use app_functions_sdk_go.Util.{trim_space}
use app_functions_sdk_go.Trigger.{Response}

pub record KeyValue : Type 0 where
  pub key : Str
  pub value : Str

pub record SecretData : Type 0 where
  pub path : Str
  pub secrets : List KeyValue

pub any_empty_key : List KeyValue → Bool
any_empty_key [] = false
any_empty_key (kv ∷ secrets) =
    let rest = any_empty_key secrets in if is_empty kv.key then true else rest

path_error : Option GoError → Option GoError
path_error none = none
path_error (some e) = some (str "'Path' is invalid " ++ e)

unfoldable pub validate_secret_data : (Str → Option GoError) → SecretData → Option GoError
unfolding any_empty_key path_error
validate_secret_data url_error secret_data =
    if is_empty secret_data.secrets
    then some (str "Missing required field 'Secrets'")
    else if any_empty_key secret_data.secrets
    then some (str "'Secrets' key should not be empty")
    else path_error (url_error secret_data.path)

-- `secretsKV`: a later value of a key takes the place of an earlier one.
pub secrets_kv : List KeyValue → Map Str → Map Str
secrets_kv [] kv = kv
secrets_kv (secret ∷ secrets) kv = secrets_kv secrets (insert secret.key secret.value kv)

abbrev pub starts_with_slash : Str → Bool
starts_with_slash [] = false
starts_with_slash (c ∷ s) = c == 47

pub with_slash : Str → Str
with_slash path = if is_empty path then path else if starts_with_slash path then path else 47 ∷ path

abbrev pub status_created : ℕ
status_created = 201

module _ {W : Type 0} where
  pub stored_response : SecretProvider W × Option GoError → Act W (SecretProvider W × Response)
  stored_response (s, some e) =
      pure (s, record { status = 500; body = str "Storing secret failed: " ++ e })
  stored_response (s, none) = pure (s, record { status = status_created; body = [] })

  module _ (env : Str) (url_error : Str → Option GoError) where
    pub store_data :
        SecretProvider W → SecretData → Option GoError → Act W (SecretProvider W × Response)
    unfolding secrets_kv with_slash stored_response
    store_data s secret_data (some e) = pure (s, record { status = 400; body = e })
    store_data s secret_data none = do
      answer ←
          store_secrets env s (with_slash (trim_space secret_data.path))
            (secrets_kv secret_data.secrets [])
      stored_response answer

    unfoldable pub secret_handler :
        SecretProvider W → Result SecretData → Act W (SecretProvider W × Response)
    unfolding store_data
    secret_handler s (err e) =
        pure (s, record { status = 400; body = str "Failed to parse json payload: " ++ e })
    secret_handler s (ok secret_data) =
        store_data s secret_data (validate_secret_data url_error secret_data)
