-- ===== src/AppSdk/Lifecycle.antt =====
-- appsdk/sdk.go: `initializeStoreClient`, `startStoreForward`, `stopStoreForward`, and what
-- `listenForConfigChanges` does with one update of the writable configuration. Logging is left
-- out. How a built-in function runs is a parameter here.
pub mod Loops
pub mod Restart
pub mod Listening
pub mod Toggles
pub mod Updates
use app_functions_sdk_go.Prelude.{
  [], ◌∷◌, none, some, true, false, Str, Bool, Option, List, Act, pure, panic, ◌>>=◌, ◌===◌, not, ℤ,
  ℕ, pos, negsuc, lt_int, ◌==◌, if◌then◌else◌, map, suc,
}
use app_functions_sdk_go.Common.{WritableInfo, StoreAndForwardInfo}
use app_functions_sdk_go.AppContext.{Result, GoError, ok, err, AppFunction, Ref}
use app_functions_sdk_go.Store.{StoreClient}
use app_functions_sdk_go.Store.Factory.{
  ClientValue, RedisPackage, nil_value, MongoOptions, new_store_client,
}
use app_functions_sdk_go.Store.Mongo.{Collection}
use app_functions_sdk_go.Transforms.Mqtt.{MqttClient}
use app_functions_sdk_go.Transforms.Mqtt.Sender.{KeyPairs, ClientOptions}
use app_functions_sdk_go.Security.{
  SecretProvider, Credentials, no_credentials, get_database_credentials,
}
use app_functions_sdk_go.Runtime.{GolangRuntime, initialize}
use app_functions_sdk_go.AppSdk.Pipeline.{
  AppFunctionsSdk, set_functions_pipeline, load_configurable_pipeline,
}
use app_functions_sdk_go.AppSdk.Configurable.{Method}

-- The SDK with its retry loops. `cancel` is the loop that `storeForwardCancelCtx` and
-- `storeForwardWg` belong to, nil before the first start; `running` are the loops that were
-- started and not cancelled, and `started` counts all of them.
pub record Service (W : Type 0) : Type 0 where
  pub sdk : AppFunctionsSdk W
  pub store_client : ClientValue W
  pub secret_provider : SecretProvider W
  pub redis : RedisPackage
  pub cancel : Option ℕ
  pub running : List ℕ
  pub started : ℕ

abbrev pub without : ℕ → List ℕ → List ℕ
without n [] = []
without n (m ∷ ms) = if m == n then without n ms else m ∷ without n ms

credentials_or_none : Result Credentials → Credentials
credentials_or_none (err e) = no_credentials
credentials_or_none (ok credentials) = credentials

abbrev equal_bool : Bool → Bool → Bool
equal_bool true b = b
equal_bool false b = not b

abbrev equal_int : ℤ → ℤ → Bool
equal_int (pos a) (pos b) = a == b
equal_int (pos a) (negsuc b) = false
equal_int (negsuc a) (pos b) = false
equal_int (negsuc a) (negsuc b) = a == b

-- The cases of the switch in `listenForConfigChanges`.
pub data Change : Type 0 where
  log_level : Change
  max_retry_count : Change
  retry_interval : Change
  enabled : Change
  pipeline : Change

-- The first setting that differs; what differs in none of them is a change of the pipeline.
unfoldable pub change : WritableInfo → WritableInfo → Change
change previous actual =
    let before = previous.store_and_forward in
    let after = actual.store_and_forward in
    if not (previous.log_level === actual.log_level)
    then log_level
    else if not (equal_int before.max_retry_count after.max_retry_count)
    then max_retry_count
    else if not (before.retry_interval === after.retry_interval)
    then retry_interval
    else if not (equal_bool before.enabled after.enabled)
    then enabled
    else pipeline

module _ {W : Type 0} where
  abbrev pub section : Service W → StoreAndForwardInfo
  section s = s.sdk.config.writable.store_and_forward

  abbrev pub with_section : StoreAndForwardInfo → Service W → Service W
  with_section info s = record s {
    sdk = record s.sdk {
      config = record s.sdk.config {
        writable = record s.sdk.config.writable { store_and_forward = info };
      };
    };
  }

  abbrev pub with_writable : WritableInfo → Service W → Service W
  with_writable writable s = record s {
    sdk = record s.sdk { config = record s.sdk.config { writable = writable } };
  }

  start_loop : Service W → Option (GolangRuntime W) → Act W (Service W)
  start_loop s none = panic
  start_loop s (some runtime) = pure (record s {
    cancel = some s.started;
    running = s.started ∷ s.running;
    started = suc s.started;
  })

  unfoldable pub start_store_forward : Service W → Act W (Service W)
  unfolding start_loop
  start_store_forward s = start_loop s s.sdk.runtime

  -- A nil cancel function panics. Waiting ends when the loop has seen the cancellation.
  stop_loop : Service W → Option ℕ → Act W (Service W)
  stop_loop s none = panic
  stop_loop s (some loop) = pure (record s { running = without loop s.running })

  unfoldable pub stop_store_forward : Service W → Act W (Service W)
  unfolding stop_loop
  stop_store_forward s = stop_loop s s.cancel

  restarted : Service W → Bool → Act W (Service W)
  unfolding stop_store_forward start_store_forward
  restarted s true = do stopped ← stop_store_forward s; start_store_forward stopped
  restarted s false = pure s

  unfoldable pub process_retry_interval : Service W → Act W (Service W)
  unfolding restarted
  process_retry_interval s = restarted s (section s).enabled

  is_nil_value : ClientValue W → Bool
  is_nil_value nil_value = true
  is_nil_value value = false

  abbrev with_credentials : Credentials → Service W → Service W
  with_credentials credentials s = record s {
    sdk = record s.sdk {
      config = record s.sdk.config {
        database = record s.sdk.config.database {
          username = credentials.username;
          password = credentials.password;
        };
      };
    };
  }

  module _ (env : Str) (parse_duration : Str → Option ℤ) (itoa : ℤ → Str)
      (connect : MongoOptions → Act W (Result (Collection W))) where
    -- An error of the credentials is logged, and the database is opened without credentials.
    unfoldable pub initialize_store_client : Service W → Act W (Service W × Option GoError)
    unfolding credentials_or_none
    initialize_store_client s = do
      found ←
          get_database_credentials env (record s.secret_provider { configuration = s.sdk.config })
            s.sdk.config.database
      let s' = with_credentials (credentials_or_none found) s
      made ← new_store_client parse_duration itoa connect s'.sdk.config.database s.redis
      pure (record s' { store_client = made.0.0; redis = made.1 }, made.0.1)

    module _ (client_of : ClientValue W → Option (StoreClient W)) (secrets : Ref) where
      with_client : Service W → Option (GolangRuntime W) → Act W (Service W)
      with_client s none = panic
      with_client s (some runtime) = pure (record s {
        sdk = record s.sdk {
          runtime = some (initialize runtime (client_of s.store_client) (some secrets));
        };
      })

      client_made : Service W × Option GoError → Act W (Service W)
      unfolding with_client start_store_forward
      client_made (s, some e) = pure (with_section (record (section s) { enabled = false }) s)
      client_made (s, none) = do
        initialized ← with_client s s.sdk.runtime
        start_store_forward initialized

      -- With the test `sdk.storeClient == nil`.
      enabled_with : Service W → Bool → Act W (Service W)
      unfolding client_made start_store_forward initialize_store_client
      enabled_with s true = do made ← initialize_store_client s; client_made made
      enabled_with s false = start_store_forward s

      pub toggled : Service W → Bool → Act W (Service W)
      unfolding enabled_with is_nil_value stop_store_forward
      toggled s true = enabled_with s (is_nil_value s.store_client)
      toggled s false = stop_store_forward s

      unfoldable pub process_enabled : Service W → Act W (Service W)
      unfolding toggled
      process_enabled s = toggled s (section s).enabled

      module _ (key_pairs : KeyPairs W) (new_client : ClientOptions → MqttClient W)
          (run : Option (Method W) → AppFunction W) where
        abbrev with_sdk : Service W → AppFunctionsSdk W → Service W
        with_sdk s sdk = record s { sdk = sdk }

        reloaded :
            Service W → AppFunctionsSdk W × Result (List (Option (Method W))) → Act W (Service W)
        reloaded s (sdk, err e) = pure (with_sdk s sdk)
        reloaded s (sdk, ok functions) = do
          set ← set_functions_pipeline sdk (map run functions)
          pure (with_sdk s set.0)

        reload : Service W → Bool → Act W (Service W)
        unfolding reloaded
        reload s false = pure s
        reload s true = do
          loaded ← load_configurable_pipeline key_pairs new_client itoa s.sdk
          reloaded s loaded

        unfoldable pub process_pipeline : Service W → Act W (Service W)
        unfolding reload
        process_pipeline s = reload s s.sdk.using_configurable_pipeline

        -- A negative count is taken for 1.
        with_count : Service W → Service W
        with_count s =
            if lt_int (section s).max_retry_count (pos 0)
            then with_section (record (section s) { max_retry_count = pos 1 }) s
            else s

        handle : Service W → Change → Act W (Service W)
        unfolding with_count process_retry_interval process_enabled process_pipeline
        handle s log_level = pure s
        handle s max_retry_count = pure (with_count s)
        handle s retry_interval = process_retry_interval s
        handle s enabled = process_enabled s
        handle s pipeline = process_pipeline s

        -- One update from the registry.
        unfoldable pub process_update : Service W → WritableInfo → Act W (Service W)
        unfolding handle
        process_update s actual =
            handle (with_writable actual s) (change s.sdk.config.writable actual)
