-- ===== src/Security/Cache.antt =====
-- internal/security/credentials.go: what the cache of secrets holds and when it answers.
use app_functions_sdk_go.Prelude.{
  Allows-bind, Allows, Act, ◌∙◌, ap, bind_cong, pure, ◌>>=◌, inr, ===_refl, lookup-insert, inl,
  Bool-cases, ◌===◌, lookup, List, refl, [], ◌∷◌, none, some, true, false, ◌≡◌, Str, Option, Map,
}
use app_functions_sdk_go.Security.{
  stored, GoError, store_secrets, store_with, all_found, Result, ok, err, is_security_enabled,
  fetched, cached_or, fetch, cached_keys, update_secrets_cache, cached_secrets, secure, merge,
  SecretProvider, get_secrets_cache, get_secrets, SecretClient,
}

-- `lookup` in the first map, or else in the second.
abbrev or_else : Option Str → Option Str → Option Str
or_else none other = other
or_else (some value) other = some value

lookup-merge :
    (key : Str) (m into : Map Str)
    → lookup key (merge m into) ≡ or_else (lookup key m) (lookup key into)
unfolding merge lookup
lookup-merge key [] into = refl
lookup-merge key ((k, v) ∷ m) into = elim (Bool-cases (k === key)) [
  | inl e ↦ rw (lookup-insert k key v (merge m into), e) refl
  | inr e ↦ rw (lookup-insert k key v (merge m into), e) (lookup-merge key m into)
]

merge_self :
    (key value : Str) (m into : Map Str)
    → lookup key m ≡ some value
    → lookup key (merge m into) ≡ some value
merge_self key value m into h = rw (lookup-merge key m into, h) refl

all_found-none : (found : Option (Map Str)) → all_found false found ≡ none
unfolding all_found
all_found-none none = refl
all_found-none (some secrets) = refl

cached_secrets-none :
    (cached : Option (Map Str)) (keys : List Str) → cached_secrets cached keys ≡ none
unfolding cached_secrets
cached_secrets-none none keys = refl
cached_secrets-none (some cached) keys = all_found-none (cached_keys cached keys [])

module _ {W : Type 0} where
  pub get_secrets_cache-none :
      (s : SecretProvider W) (path : Str) (keys : List Str) → get_secrets_cache s path keys ≡ none
  unfolding get_secrets_cache
  get_secrets_cache-none s path keys = cached_secrets-none (lookup path s.secrets_cache) keys

  -- The answer as it is, and the cache brought up to date with it.
  abbrev pub handed_on :
      SecretProvider W → Str → Result (Map Str) → Act W (SecretProvider W × Result (Map Str))
  handed_on s path (err e) = pure (s, err e)
  handed_on s path (ok secrets) = pure (update_secrets_cache s path secrets, ok secrets)

  fetched_lem :
      (s : SecretProvider W) (path : Str) (answer : Result (Map Str)) (w : W)
      → fetched s path answer w ≡ handed_on s path answer w
  unfolding fetched
  fetched_lem s path (err e) w = refl
  fetched_lem s path (ok secrets) w = refl

  -- With security enabled and a client in place, `GetSecrets` calls the client, whatever the cache
  -- holds; it hands on what the client answers, and the error leaves the cache as it was.
  pub get_secrets_asks_client :
      (env : Str) (s : SecretProvider W) (client : SecretClient W) (path : Str) (keys : List Str)
      → is_security_enabled env ≡ true
      → s.secret_client ≡ some client
      → (w : W)
      → get_secrets env s path keys w ≡ (client.get_secrets path keys >>= handed_on s path) w
  unfolding get_secrets secure fetch
  get_secrets_asks_client env s client path keys enabled h w =
      rw (enabled, get_secrets_cache-none s path keys)
        (ap (λ c. fetch s path keys c w) h
          ∙ bind_cong (client.get_secrets path keys) (fetched_lem s path) w)

  -- After an update, the cache holds every secret of the answer, with its value, under its path;
  -- other paths are as they were.
  pub update_secrets_cache-lookup :
      (s : SecretProvider W) (path : Str) (secrets : Map Str) (key value : Str)
      → lookup key secrets ≡ some value
      → (cached : Map Str) × (lookup path (update_secrets_cache s path secrets).secrets_cache
          ≡ some cached)
        × (lookup key cached ≡ some value)
        × ((other : Str)
            → (path === other) ≡ false
            → lookup other (update_secrets_cache s path secrets).secrets_cache
              ≡ lookup other s.secrets_cache)
  unfolding update_secrets_cache
  update_secrets_cache-lookup s path secrets key value h =
      let cached = merge secrets (cached_or secrets (lookup path s.secrets_cache)) in
      (
        cached,
        rw (lookup-insert path path cached s.secrets_cache, ===_refl path) refl,
        merge_self key value secrets (cached_or secrets (lookup path s.secrets_cache)) h,
        λ other d. rw (lookup-insert path other cached s.secrets_cache, d) refl,
      )

-- What `StoreSecrets` leaves: the provider as it was with an error, or an empty cache.
abbrev pub StoreTells :
    {W : Type 0} → SecretProvider W → SecretProvider W × Option GoError → W → Type 0
StoreTells s (s', none) w' = s'.secrets_cache ≡ []
StoreTells s (s', some e) w' = s' ≡ s

module _ {W : Type 0} where
  stored-StoreTells :
      (s : SecretProvider W) (e : Option GoError) (w : W) → Allows (StoreTells s) (stored s e w)
  unfolding stored
  stored-StoreTells s none w = refl
  stored-StoreTells s (some e) w = refl

  store_with-StoreTells :
      (s : SecretProvider W) (path : Str) (secrets : Map Str) (client : Option (SecretClient W))
      (w : W)
      → Allows (StoreTells s) (store_with s path secrets client w)
  unfolding store_with
  store_with-StoreTells s path secrets none w = refl
  store_with-StoreTells s path secrets (some client) w =
      Allows-bind (StoreTells s) (client.store_secrets path secrets) (stored s) w
        (λ e v. stored-StoreTells s e v)

  pub store_secrets-StoreTells :
      (env : Str) (s : SecretProvider W) (path : Str) (secrets : Map Str) (w : W)
      → Allows (StoreTells s) (store_secrets env s path secrets w)
  unfolding store_secrets
  store_secrets-StoreTells env s path secrets w = elim (Bool-cases (is_security_enabled env)) [
    | inl e ↦ rw e (store_with-StoreTells s path secrets s.secret_client w)
    | inr e ↦ rw e refl
  ]
