-- ===== src/AppSdk/Lifecycle/Updates.antt =====
-- appsdk/sdk.go: each update of the configuration keeps the retry loop running while Store and
-- Forward is enabled.
use app_functions_sdk_go.AppSdk.Lifecycle.Toggles.{toggled-WellFormed}
use app_functions_sdk_go.Prelude.{
  true, false, Str, Bool, Option, List, Act, ◌≡◌, refl, ℤ, map, if◌then◌else◌, ap, ◌∙◌, sym, arith,
  Allows, Allows-then, Allows-Ensures, not, lt_int, pos, ◌≢◌, ◌⊎◌, inl, inr,
}
use app_functions_sdk_go.AppSdk.Pipeline.Kept.{Ready, Same, load-Same, set_functions_pipeline-Ready}
use mathlib.Core.Path.{subst}
use app_functions_sdk_go.Common.{WritableInfo}
use app_functions_sdk_go.AppContext.{Result, ok, err, AppFunction, Ref}
use app_functions_sdk_go.Store.{StoreClient}
use app_functions_sdk_go.Store.Factory.{ClientValue, MongoOptions}
use app_functions_sdk_go.Store.Mongo.{Collection}
use app_functions_sdk_go.Transforms.Mqtt.{MqttClient}
use app_functions_sdk_go.Transforms.Mqtt.Sender.{KeyPairs, ClientOptions}
use app_functions_sdk_go.AppSdk.Configurable.{Method}
use app_functions_sdk_go.AppSdk.Pipeline.{
  AppFunctionsSdk, set_functions_pipeline, load_configurable_pipeline,
}
use app_functions_sdk_go.AppSdk.Lifecycle.{
  Service, section, process_enabled, reloaded, reload, with_count, handle, process_update,
  process_pipeline, process_retry_interval, Change, change, log_level, max_retry_count,
  retry_interval, enabled, pipeline, with_writable,
}
use app_functions_sdk_go.AppSdk.Lifecycle.Loops.{
  Loops, WellFormed, well_formed, process_retry_interval-WellFormed,
}

either : {A : Type 0} (P : A → Type 0) (b : Bool) (x y : A) → P x → P y → P (if b then x else y)
either P true x y p q = p
either P false x y p q = q

-- The last test of the switch.
changes_enabled :
    (previous actual : WritableInfo)
    → change previous actual ≡ enabled
    → previous.store_and_forward.enabled ≡ not actual.store_and_forward.enabled
unfolding change
changes_enabled previous actual h = ground arith

module _ {W : Type 0} (env : Str) (parse_duration : Str → Option ℤ) (itoa : ℤ → Str)
    (connect : MongoOptions → Act W (Result (Collection W))) where
  module _ (client_of : ClientValue W → Option (StoreClient W)) (secrets : Ref) where
    module _ (key_pairs : KeyPairs W) (new_client : ClientOptions → MqttClient W)
        (run : Option (Method W) → AppFunction W) where
      reloaded-WellFormed :
          (s : Service W) (w : W)
          → WellFormed s
          → (loaded : AppFunctionsSdk W × Result (List (Option (Method W)))) (w' : W)
          → Same s.sdk loaded.0
          → Allows
              (λ t w'. WellFormed t)
              (reloaded env parse_duration itoa connect client_of secrets key_pairs new_client run s
                loaded w')
      unfolding reloaded
      reloaded-WellFormed s w wf (sdk, err e) w' (same, runtime) =
          well_formed (record s { sdk = sdk }) (section s).enabled (ap (λ info. info.enabled) same)
            wf.loops (subst Ready (sym runtime) wf.ready)
      reloaded-WellFormed s w wf (sdk, ok functions) w' (same, runtime) =
          Allows-then (λ r w''. (r.0.config ≡ sdk.config) × Ready r.0.runtime)
            (λ t w'. WellFormed t) (set_functions_pipeline sdk (map run functions)) _ w'
            (set_functions_pipeline-Ready sdk (map run functions) w'
              (subst Ready (sym runtime) wf.ready))
            λ set w'' (config, ready).
              well_formed (record s { sdk = set.0 }) (section s).enabled
                (ap (λ c. c.writable.store_and_forward.enabled) config
                  ∙ ap (λ info. info.enabled) same)
                wf.loops ready

      reload-WellFormed :
          (s : Service W) (b : Bool) (w : W)
          → WellFormed s
          → Allows
              (λ t w'. WellFormed t)
              (reload env parse_duration itoa connect client_of secrets key_pairs new_client run s b
                w)
      unfolding reload
      reload-WellFormed s false w wf = wf
      reload-WellFormed s true w wf =
          Allows-then (λ r w'. Same s.sdk r.0) (λ t w'. WellFormed t)
            (load_configurable_pipeline key_pairs new_client itoa s.sdk) _ w
            (load-Same key_pairs new_client itoa s.sdk w) (reloaded-WellFormed s w wf)

      counted-WellFormed :
          (s : Service W)
          → WellFormed s
          → WellFormed (
              with_count env parse_duration itoa connect client_of secrets key_pairs new_client run
                s)
      unfolding with_count
      counted-WellFormed s wf =
          either WellFormed (lt_int (section s).max_retry_count (pos 0)) _ s
            (well_formed _ (section s).enabled refl wf.loops wf.ready) wf

      handle-WellFormed :
          (s : Service W) (c : Change) (w : W)
          → ((c ≡ enabled) → Loops (not (section s).enabled) s.cancel s.running)
          → ((c ≢ enabled) → Loops (section s).enabled s.cancel s.running)
          → Ready s.sdk.runtime
          → Allows
              (λ t w'. WellFormed t)
              (handle env parse_duration itoa connect client_of secrets key_pairs new_client run s c
                w)
      unfolding handle process_enabled process_pipeline
      handle-WellFormed s log_level w on off ready =
          well_formed s (section s).enabled refl (off λ e. cc e) ready
      handle-WellFormed s max_retry_count w on off ready =
          counted-WellFormed s (well_formed s (section s).enabled refl (off λ e. cc e) ready)
      handle-WellFormed s retry_interval w on off ready =
          Allows-Ensures (λ t w'. WellFormed t) (process_retry_interval s w)
            (process_retry_interval-WellFormed s w
              (well_formed s (section s).enabled refl (off λ e. cc e) ready))
      handle-WellFormed s enabled w on off ready =
          toggled-WellFormed env parse_duration itoa connect client_of secrets s (section s).enabled
            w refl (on refl) ready
      handle-WellFormed s pipeline w on off ready =
          reload-WellFormed s s.sdk.using_configurable_pipeline w
            (well_formed s (section s).enabled refl (off λ e. cc e) ready)

      -- One retry loop runs where Store and Forward is enabled, the one that the SDK can cancel,
      -- and none where it is not: an update from the registry keeps this, if it changes `Enabled`
      -- and no setting that is looked at before, or leaves `Enabled` as it is. A failure to open
      -- the database counts as not enabled.
      pub process_update-WellFormed :
          (s : Service W) (actual : WritableInfo) (w : W)
          → WellFormed s
          → (change s.sdk.config.writable actual ≡ enabled)
            ⊎ (actual.store_and_forward.enabled ≡ (section s).enabled)
          → Allows
              (λ t w'. WellFormed t)
              (process_update env parse_duration itoa connect client_of secrets key_pairs new_client
                run s actual w)
      unfolding process_update
      process_update-WellFormed s actual w wf one =
          handle-WellFormed (with_writable actual s) (change s.sdk.config.writable actual) w
            (λ e.
              subst (λ b. Loops b s.cancel s.running)
                (changes_enabled s.sdk.config.writable actual e) wf.loops)
            (λ other. elim one [
              | inl e ↦ absurd (other e)
              | inr same ↦ subst (λ b. Loops b s.cancel s.running) (sym same) wf.loops
            ])
            wf.ready
