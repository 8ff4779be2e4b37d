-- ===== src/Security/Token.antt =====
-- internal/security/authtokenloader/methods.go: `Load`; the callback of
-- internal/security/client/vaultclient.go; and `getSecretConfig` and `Initialize` of
-- internal/security/secret.go. The file system, `json.Unmarshal` and the secret client factory are
-- parameters.
use app_functions_sdk_go.Prelude.{
  Allows, ◌≡◌, [], none, some, true, false, Str, Bytes, Bool, Option, Act, pure, ◌>>=◌, ◌===◌, ◌++◌,
  str, is_empty, if◌then◌else◌, not, ◌||◌,
}
use app_functions_sdk_go.Common.{SecretConfig, SecretStoreInfo, ConfigurationStruct}
use app_functions_sdk_go.AppContext.{Result, ok, err}
use app_functions_sdk_go.Security.{SecretClient, SecretProvider, is_security_enabled}

-- `vaultTokenFile`, with the field of its `Auth`.
pub record VaultTokenFile : Type 0 where
  pub client_token : Str
  pub root_token : Str

-- The client token, or else the root token.
token_of : Str → VaultTokenFile → Result Str
token_of path contents =
    if is_empty contents.client_token
    then (if is_empty contents.root_token
        then err (str "Unable to find authentication token in " ++ path)
        else ok contents.root_token)
    else ok contents.client_token

parsed_token : Str → Result VaultTokenFile → Result Str
unfolding token_of
parsed_token path (err e) = err e
parsed_token path (ok contents) = token_of path contents

-- `NewSecretProvider`
unfoldable pub new_secret_provider : {W : Type 0} → ConfigurationStruct → SecretProvider W
new_secret_provider configuration = record {
  secret_client = none;
  secrets_cache = [];
  configuration = configuration;
}

-- A token that was found is not empty.
abbrev Filled : Result Str → Type 0
Filled (err e) = Unit
Filled (ok token) = is_empty token ≡ false

module _ {W : Type 0} (read_file : Str → Act W (Result Bytes))
    (unmarshal : Bytes → Result VaultTokenFile) where
  read_token : Str → Result Bytes → Act W (Result Str)
  unfolding parsed_token
  read_token path (err e) = pure (err e)
  read_token path (ok contents) = pure (parsed_token path (unmarshal contents))

  unfoldable pub load : Str → Act W (Result Str)
  unfolding read_token
  load path = do contents ← read_file path; read_token path contents

  pub replacement : Str → Result Str → Str × Bool
  replacement expired_token (err e) = ([], false)
  replacement expired_token (ok token) = (token, not (token === expired_token))

  -- The callback; without a token file there is none.
  unfoldable pub token_expired : Str → Option (Str → Act W (Str × Bool))
  unfolding load replacement
  token_expired token_file =
      if is_empty token_file
      then none
      else some λ expired_token. do token ← load token_file; pure (replacement expired_token token)

  with_token : SecretConfig → Result Str → SecretConfig × Bool
  with_token config (err e) = (config, false)
  with_token config (ok token) = (record config { auth_token = token }, true)

  -- The configuration, and whether it could be made.
  unfoldable pub get_secret_config : Str → SecretStoreInfo → Act W (SecretConfig × Bool)
  unfolding load with_token
  get_secret_config env info =
      if not (is_security_enabled env) || is_empty info.token_file
      then pure (info.secret_config, true)
      else do token ← load info.token_file; pure (with_token info.secret_config token)

  module _
      (new_secret_client : SecretConfig
        → Option (Str → Act W (Str × Bool))
        → Act W (Result (SecretClient W))) where
    with_secret_client : SecretProvider W → Result (SecretClient W) → SecretProvider W × Bool
    with_secret_client s (err e) = (record s { secret_client = none }, false)
    with_secret_client s (ok client) = (record s { secret_client = some client }, true)

    configured : Str → SecretProvider W → SecretConfig × Bool → Act W (SecretProvider W × Bool)
    unfolding with_secret_client token_expired
    configured env s (config, false) = pure (s, false)
    configured env s (config, true) =
        if is_security_enabled env
        then (do
          client ← new_secret_client config (token_expired s.configuration.secret_store.token_file)
          pure (with_secret_client s client))
        else pure (s, true)

    -- `Initialize`, with whether it succeeded.
    unfoldable pub initialize_provider : Str → SecretProvider W → Act W (SecretProvider W × Bool)
    unfolding configured get_secret_config
    initialize_provider env s = do
      config ← get_secret_config env s.configuration.secret_store
      configured env s config

  -- What is true of a new token.
  abbrev pub IsNew : Str → Str × Bool → W → Type 0
  IsNew expired_token r v = r.1 ≡ true → ((r.0 === expired_token) ≡ false) × (is_empty r.0 ≡ false)

  abbrev Retries : Str → W → Option (Str → Act W (Str × Bool)) → Type 0
  Retries expired_token w none = Unit
  Retries expired_token w (some callback) = Allows (IsNew expired_token) (callback expired_token w)
