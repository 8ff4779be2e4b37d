-- ===== src/Security/Examples.antt =====
-- internal/security: secrets of a small service.
use app_functions_sdk_go.Security.Token.{replacement, load, VaultTokenFile}
use app_functions_sdk_go.Prelude.{
  pure, Bool, Act, Str, Bytes, ◌+◌, str, ℕ, ◌===◌, refl, [], ◌∷◌, none, some, returns, ◌≡◌, ◌>>=◌,
}
use app_functions_sdk_go.AppContext.{Result, ok}
use app_functions_sdk_go.Security.{is_security_enabled, SecretProvider, SecretClient, get_secrets}
use app_functions_sdk_go.Security.Cache.{get_secrets_asks_client, handed_on}
use app_functions_sdk_go.Runtime.Examples.{config}

abbrev vault : SecretClient ℕ
vault = record {
  get_secrets = λ path keys w. returns (ok ((1 ∷ [], 2 ∷ []) ∷ []), w + 1);
  store_secrets = λ path secrets w. returns (none, w);
}

-- The cache holds the secret, with an older value.
abbrev provider : SecretProvider ℕ
provider = record {
  secret_client = some vault;
  secrets_cache = (3 ∷ [], (1 ∷ [], 9 ∷ []) ∷ []) ∷ [];
  configuration = config;
}

get_secrets_asks_client_example :
    get_secrets [] provider (3 ∷ []) ((1 ∷ []) ∷ []) 0
    ≡ (vault.get_secrets (3 ∷ []) ((1 ∷ []) ∷ []) >>= handed_on provider (3 ∷ [])) 0
unfolding is_security_enabled ◌===◌ str
get_secrets_asks_client_example =
    get_secrets_asks_client [] provider vault (3 ∷ []) ((1 ∷ []) ∷ []) refl refl 0

-- A file with a root token, and the callback that reads it.
abbrev token_file_reader : Str → Act ℕ (Result Bytes)
token_file_reader path w = returns (ok (5 ∷ []), w)

abbrev token_file_decoder : Bytes → Result VaultTokenFile
token_file_decoder bytes = ok (record { client_token = []; root_token = bytes })

abbrev reread : Str → Act ℕ (Str × Bool)
reread expired_token = load token_file_reader token_file_decoder (1 ∷ []) >>= λ token.
    pure (replacement token_file_reader token_file_decoder expired_token token)
