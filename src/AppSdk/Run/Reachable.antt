-- ===== src/AppSdk/Run/Reachable.antt =====
-- appsdk/sdk.go: the states of a run, from `MakeItRun` over updates of the configuration to its end.
use app_functions_sdk_go.Prelude.{
  Allows-Ensures, Allows_at, pure, ◌>>=◌, ap, [], some, true, false, Str, Bool, Option, Act, ◌≡◌,
  ◌⊎◌, refl, ℤ, returns, Ensures, Ensures-bind, Allows, Allows-bind, Allows-then,
}
use app_functions_sdk_go.Common.{WritableInfo}
use app_functions_sdk_go.AppContext.{Result, GoError, AppFunction, Ref}
use app_functions_sdk_go.Runtime.{
  GolangRuntime, initialize, set_transforms, calculate_pipeline_hash,
}
use app_functions_sdk_go.Store.{StoreClient}
use app_functions_sdk_go.Store.Factory.{ClientValue, MongoOptions}
use app_functions_sdk_go.Store.Mongo.{Collection}
use app_functions_sdk_go.Transforms.Mqtt.{MqttClient}
use app_functions_sdk_go.Transforms.Mqtt.Sender.{KeyPairs, ClientOptions}
use app_functions_sdk_go.AppSdk.Configurable.{Method}
use app_functions_sdk_go.AppSdk.Lifecycle.{Service, section, change, enabled, process_update}
use app_functions_sdk_go.AppSdk.Lifecycle.Loops.{
  WellFormed, Loops, well_formed, start_store_forward-WellFormed, stop_store_forward-stops,
}
use app_functions_sdk_go.AppSdk.Lifecycle.Updates.{process_update-WellFormed}
use app_functions_sdk_go.AppSdk.Pipeline.Kept.{Ready}
use app_functions_sdk_go.AppSdk.Run.{
  Trigger, Ending, begin, finish, started_or_not, stopped_or_not, with_runtime, new_runtime,
  triggered, setup_trigger, ending_error,
}

module _ {W : Type 0} (env : Str) (parse_duration : Str → Option ℤ) (itoa : ℤ → Str)
    (connect : MongoOptions → Act W (Result (Collection W)))
    (client_of : ClientValue W → Option (StoreClient W)) (secrets : Ref) (key_pairs : KeyPairs W)
    (new_client : ClientOptions → MqttClient W) (run : Option (Method W) → AppFunction W)
    (to_upper : Str → Str) (service_key : Str)
    (initialize_trigger : Trigger → GolangRuntime W → Act W (Option GoError)) where
  -- The states of a run. An update changes `Enabled` and no setting that is looked at before, or
  -- leaves it as it is.
  pub data Reachable : Service W → W → Type 0 where
    begun :
        (s t : Service W) (w v : W) (error : Option GoError)
        → s.running ≡ []
        → begin to_upper client_of secrets service_key initialize_trigger s w
          ≡ returns ((t, error), v)
        → Reachable t v
    updated :
        (s t : Service W) (w v : W) (actual : WritableInfo)
        → Reachable s w
        → (change s.sdk.config.writable actual ≡ enabled)
          ⊎ (actual.store_and_forward.enabled ≡ (section s).enabled)
        → process_update env parse_duration itoa connect client_of secrets key_pairs new_client run
            s actual w
          ≡ returns (t, v)
        → Reachable t v

  started_or_not-WellFormed :
      (s : Service W) (b : Bool) (w : W)
      → (section s).enabled ≡ b
      → s.running ≡ []
      → Ready s.sdk.runtime
      → Ensures (λ t v. WellFormed t) (started_or_not s b w)
  unfolding started_or_not
  started_or_not-WellFormed s true w h none_runs ready =
      start_store_forward-WellFormed s w h none_runs ready
  started_or_not-WellFormed s false w h none_runs ready = well_formed s false h none_runs ready

  -- The runtime that `MakeItRun` makes.
  abbrev made_runtime : Service W → GolangRuntime W
  made_runtime s =
      let runtime =
        initialize (new_runtime s.sdk.target_type service_key) (client_of s.store_client)
          (some secrets) in
      record runtime {
        transforms = s.sdk.transforms;
        store_forward = record runtime.store_forward {
          pipeline_hash = calculate_pipeline_hash s.sdk.transforms;
        };
      }

  begin-WellFormed :
      (s : Service W) (w : W)
      → s.running ≡ []
      → Allows
          (λ r v. WellFormed r.0)
          (begin to_upper client_of secrets service_key initialize_trigger s w)
  unfolding begin set_transforms initialize
  begin-WellFormed s w none_runs =
      let t = with_runtime (made_runtime s) s in
      Allows-bind (λ (r : Service W × Option GoError) v. WellFormed r.0)
        (triggered to_upper client_of secrets service_key initialize_trigger (made_runtime s)
          (setup_trigger to_upper s.sdk.config.binding.type_name))
        (λ error. started_or_not t (section s).enabled >>= λ s'. pure (s', error)) w
        λ error v.
          Allows-then (λ t v. WellFormed t) (λ (r : Service W × Option GoError) v. WellFormed r.0)
            (started_or_not t (section s).enabled) (λ s'. pure (s', error)) v
            (Allows-Ensures (λ t v. WellFormed t) (started_or_not t (section s).enabled v)
              (started_or_not-WellFormed t (section s).enabled v refl none_runs refl))
            λ t v wf. wf

  -- In every state of a run one retry loop runs where Store and Forward is enabled, the one that
  -- the SDK can cancel, and none where it is not.
  pub Reachable-WellFormed : (s : Service W) (w : W) → Reachable s w → WellFormed s
  Reachable-WellFormed _ _ (begun s t w v error none_runs e) =
      Allows_at (λ r v. WellFormed r.0)
        (begin to_upper client_of secrets service_key initialize_trigger s w)
        (begin-WellFormed s w none_runs) e
  Reachable-WellFormed _ _ (updated s t w v actual before one e) =
      Allows_at (λ t v. WellFormed t)
        (process_update env parse_duration itoa connect client_of secrets key_pairs new_client run s
          actual w)
        (process_update-WellFormed env parse_duration itoa connect client_of secrets key_pairs
          new_client run s actual w (Reachable-WellFormed s w before) one)
        e

  stopped_or_not-stops :
      (s : Service W) (b : Bool) (w : W)
      → Loops b s.cancel s.running
      → Ensures (λ t v. t ≡ record s { running = [] }) (stopped_or_not s b w)
  unfolding stopped_or_not
  stopped_or_not-stops s true w loops = stop_store_forward-stops s w loops
  stopped_or_not-stops s false w loops = ap (λ running. record s { running = running }) loops

  -- From every state of a run, its end cancels what there is to cancel without a panic: no loop
  -- is left, the configuration is as it was, and the result is the error of the web server or, after a
  -- signal, that of the trigger.
  pub finish-returns :
      (s : Service W) (w : W) (error : Option GoError) (ending : Ending)
      → Reachable s w
      → Ensures
          (λ r v. r ≡ (record s { running = [] }, ending_error error ending))
          (finish s error ending w)
  unfolding finish
  finish-returns s w error ending reached =
      Ensures-bind (λ t v. t ≡ record s { running = [] })
        (λ r v. r ≡ (record s { running = [] }, ending_error error ending))
        (stopped_or_not s (section s).enabled)
        (λ stopped. pure (record stopped { running = [] }, ending_error error ending)) w
        (stopped_or_not-stops s (section s).enabled w (Reachable-WellFormed s w reached).loops)
        λ t v same. ap (λ t. (record t { running = [] }, ending_error error ending)) same
