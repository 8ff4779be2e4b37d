-- ===== src/WebServer/Examples.antt =====
-- internal/webserver: a request without secrets.
use app_functions_sdk_go.Prelude.{◌+◌, returns, ℕ, [], ◌∷◌, none, some, Allows}
use app_functions_sdk_go.AppContext.{ok}
use app_functions_sdk_go.WebServer.{SecretData, secret_handler}
use app_functions_sdk_go.WebServer.Secrets.{secret_handler-SecretTells, SecretTells}
use app_functions_sdk_go.Security.{SecretProvider}
use app_functions_sdk_go.Runtime.Examples.{config}

abbrev provider : SecretProvider ℕ
provider = record {
  secret_client = some (record {
    get_secrets = λ path keys w. returns (ok [], w);
    store_secrets = λ path secrets w. returns (none, w + 1);
  });
  secrets_cache = (3 ∷ [], []) ∷ [];
  configuration = config;
}

abbrev one_secret : SecretData
one_secret = record { path = 3 ∷ []; secrets = record { key = 1 ∷ []; value = 2 ∷ [] } ∷ [] }

secret_handler-SecretTells_example :
    Allows (SecretTells provider 0) (secret_handler [] (λ path. none) provider (ok one_secret) 0)
secret_handler-SecretTells_example =
    secret_handler-SecretTells [] (λ path. none) provider (ok one_secret) 0
