-- ===== src/WebServer/Secrets.antt =====
-- internal/webserver/server.go, `secretHandler`: what its status says.
use app_functions_sdk_go.Security.Cache.{store_secrets-StoreTells, StoreTells}
use app_functions_sdk_go.Prelude.{
  Allows-then, inl, inr, ◌⊎◌, refl, [], none, some, ◌≡◌, Str, Allows, Option,
}
use app_functions_sdk_go.AppContext.{GoError, Result, ok, err}
use app_functions_sdk_go.Security.{SecretProvider, store_secrets}
use app_functions_sdk_go.WebServer.{
  secrets_kv, trim_space, with_slash, store_data, stored_response, Response, SecretData,
  secret_handler, validate_secret_data,
}

-- What the status says of the provider and the world before the call and after it: with 201 the
-- cache is empty; with 400 and 500 the provider is as it was, with 400 the world as well.
abbrev pub SecretTells :
    {W : Type 0} → SecretProvider W → W → SecretProvider W × Response → W → Type 0
SecretTells s w (s', response) w' =
    ((response.status ≡ 201) × (s'.secrets_cache ≡ []))
    ⊎ ((response.status ≡ 500) × (s' ≡ s))
    ⊎ ((response.status ≡ 400) × (s' ≡ s) × (w' ≡ w))

module _ {W : Type 0} where
  stored_response-SecretTells :
      (s s' : SecretProvider W) (e : Option GoError) (w w' : W)
      → StoreTells s (s', e) w'
      → Allows (SecretTells s w) (stored_response (s', e) w')
  unfolding stored_response
  stored_response-SecretTells s s' none w w' h = inl (refl, h)
  stored_response-SecretTells s s' (some e) w w' h = inr (inl (refl, h))

  module _ (env : Str) (url_error : Str → Option GoError) where
    store_data-SecretTells :
        (s : SecretProvider W) (secret_data : SecretData) (e : Option GoError) (w : W)
        → Allows (SecretTells s w) (store_data env url_error s secret_data e w)
    unfolding store_data
    store_data-SecretTells s secret_data (some e) w = inr (inr (refl, refl, refl))
    store_data-SecretTells s secret_data none w =
        let path = with_slash (trim_space secret_data.path) in
        let kv = secrets_kv secret_data.secrets [] in
        Allows-then (StoreTells s) (SecretTells s w) (store_secrets env s path kv) _ w
          (store_secrets-StoreTells env s path kv w)
          (λ answer w' h. stored_response-SecretTells s answer.0 answer.1 w w' h)

    -- The secret handler answers with 201, and the cache of secrets is empty then; or with 500,
    -- and the provider is as it was; or with 400, and nothing was stored: the provider and the
    -- world are as they were.
    pub secret_handler-SecretTells :
        (s : SecretProvider W) (decoded : Result SecretData) (w : W)
        → Allows (SecretTells s w) (secret_handler env url_error s decoded w)
    unfolding secret_handler
    secret_handler-SecretTells s (err e) w = inr (inr (refl, refl, refl))
    secret_handler-SecretTells s (ok secret_data) w =
        store_data-SecretTells s secret_data (validate_secret_data url_error secret_data) w
