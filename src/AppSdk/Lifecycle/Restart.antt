-- ===== src/AppSdk/Lifecycle/Restart.antt =====
-- appsdk/sdk.go: a change of the retry interval.
use app_functions_sdk_go.Prelude.{
  [], ◌∷◌, none, some, true, Str, Option, Act, ◌≡◌, refl, ℕ, suc, ℤ, returns, panics, ap, ◌∙◌,
  bind-returns, ◌>>=◌,
}
use mathlib.Core.Path.{subst}
use app_functions_sdk_go.Common.{WritableInfo}
use app_functions_sdk_go.AppContext.{Result, AppFunction, Ref}
use app_functions_sdk_go.Runtime.{GolangRuntime}
use app_functions_sdk_go.Store.{StoreClient}
use app_functions_sdk_go.Store.Factory.{ClientValue, MongoOptions}
use app_functions_sdk_go.Store.Mongo.{Collection}
use app_functions_sdk_go.Transforms.Mqtt.{MqttClient}
use app_functions_sdk_go.Transforms.Mqtt.Sender.{KeyPairs, ClientOptions}
use app_functions_sdk_go.AppSdk.Configurable.{Method}
use app_functions_sdk_go.AppSdk.Lifecycle.{
  Service, section, with_writable, restarted, start_loop, stop_loop, stop_store_forward,
  start_store_forward, process_retry_interval, process_update, handle, change, retry_interval,
  without,
}
use app_functions_sdk_go.AppSdk.Lifecycle.Loops.{WellFormed, Loops, without-one}
use app_functions_sdk_go.AppSdk.Pipeline.Kept.{Ready}

module _ {W : Type 0} where
  -- The loop that is cancelled and the one that takes its place.
  abbrev pub with_new_loop : Service W → Service W
  with_new_loop s = record s {
    cancel = some s.started;
    running = s.started ∷ [];
    started = suc s.started;
  }

  start_loop-new :
      (s : Service W) (runtime : Option (GolangRuntime W)) (w : W)
      → Ready runtime
      → start_loop (record s { running = [] }) runtime w ≡ returns (with_new_loop s, w)
  unfolding start_loop
  start_loop-new s none w ready = absurd ready
  start_loop-new s (some runtime) w ready = refl

  stop_loop-stopped :
      (s : Service W) (cancel : Option ℕ) (w : W)
      → Loops true cancel s.running
      → stop_loop s cancel w ≡ returns (record s { running = [] }, w)
  unfolding stop_loop
  stop_loop-stopped s none w loops = absurd loops
  stop_loop-stopped s (some loop) w loops =
      ap (λ running. returns (record s { running = running }, w))
        (ap (without loop) loops ∙ without-one loop)

  restarted-new :
      (s : Service W) (w : W)
      → Loops true s.cancel s.running
      → Ready s.sdk.runtime
      → restarted s true w ≡ returns (with_new_loop s, w)
  unfolding restarted stop_store_forward start_store_forward
  restarted-new s w loops ready =
      bind-returns (stop_loop s s.cancel) start_store_forward (stop_loop-stopped s s.cancel w loops)
      ∙ start_loop-new s s.sdk.runtime w ready

  restarted-panics : (s : Service W) (w : W) → s.cancel ≡ none → restarted s true w ≡ panics
  unfolding restarted stop_store_forward stop_loop
  restarted-panics s w c = ap (λ cancel. (stop_loop s cancel >>= start_store_forward) w) c

  module _ (env : Str) (parse_duration : Str → Option ℤ) (itoa : ℤ → Str)
      (connect : MongoOptions → Act W (Result (Collection W)))
      (client_of : ClientValue W → Option (StoreClient W)) (secrets : Ref) (key_pairs : KeyPairs W)
      (new_client : ClientOptions → MqttClient W) (run : Option (Method W) → AppFunction W)
      (s : Service W) (actual : WritableInfo) (w : W)
      (c : change s.sdk.config.writable actual ≡ retry_interval) where
    interval_changed :
        process_update env parse_duration itoa connect client_of secrets key_pairs new_client run s
          actual w
        ≡ restarted (with_writable actual s) actual.store_and_forward.enabled w
    unfolding process_update handle process_retry_interval
    interval_changed = rw c refl

    -- Where Store and Forward is and stays enabled, an update of the retry interval takes the
    -- configuration over, cancels the loop that runs, and starts a new one in its place.
    pub process_update-restarts :
        WellFormed s
        → (section s).enabled ≡ true
        → actual.store_and_forward.enabled ≡ true
        → process_update env parse_duration itoa connect client_of secrets key_pairs new_client run
            s actual w
          ≡ returns (with_new_loop (with_writable actual s), w)
    process_update-restarts wf was on =
        interval_changed
        ∙ (ap (λ b. restarted (with_writable actual s) b w) on
            ∙ restarted-new (with_writable actual s) w
                (subst (λ b. Loops b s.cancel s.running) was wf.loops) wf.ready)

    -- Where no loop was ever started, an update that finds another retry interval together with
    -- `Enabled` panics: `stopStoreForward` calls a nil function.
    pub process_update-panics :
        s.cancel ≡ none
        → actual.store_and_forward.enabled ≡ true
        → process_update env parse_duration itoa connect client_of secrets key_pairs new_client run
            s actual w
          ≡ panics
    process_update-panics never on =
        interval_changed
        ∙ ap (λ b. restarted (with_writable actual s) b w) on
        ∙ restarted-panics (with_writable actual s) w never
