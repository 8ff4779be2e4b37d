-- ===== src/AppSdk/Lifecycle/Listening.antt =====
-- appsdk/sdk.go: the loop of `listenForConfigChanges`. What its select receives, one after the other,
-- is a list of events.
use app_functions_sdk_go.Prelude.{
  [], ◌∷◌, Str, Option, List, Act, ◌≡◌, refl, ℤ, pure, ◌>>=◌, bind_cong,
}
use app_functions_sdk_go.Common.{WritableInfo}
use app_functions_sdk_go.AppContext.{Result, GoError, AppFunction, Ref}
use app_functions_sdk_go.Store.{StoreClient}
use app_functions_sdk_go.Store.Factory.{ClientValue, MongoOptions}
use app_functions_sdk_go.Store.Mongo.{Collection}
use app_functions_sdk_go.Transforms.Mqtt.{MqttClient}
use app_functions_sdk_go.Transforms.Mqtt.Sender.{KeyPairs, ClientOptions}
use app_functions_sdk_go.AppSdk.Configurable.{Method}
use app_functions_sdk_go.AppSdk.Lifecycle.{Service, process_update}

-- `not_writable` is an update of another type.
pub data ConfigEvent : Type 0 where
  app_done : ConfigEvent
  registry_error : GoError → ConfigEvent
  updates_closed : ConfigEvent
  not_writable : ConfigEvent
  updated : WritableInfo → ConfigEvent

-- The updates that arrive before the loop ends.
abbrev pub updates : List ConfigEvent → List WritableInfo
updates [] = []
updates (app_done ∷ events) = []
updates (registry_error e ∷ events) = updates events
updates (updates_closed ∷ events) = []
updates (not_writable ∷ events) = []
updates (updated actual ∷ events) = actual ∷ updates events

module _ {W : Type 0} (env : Str) (parse_duration : Str → Option ℤ) (itoa : ℤ → Str)
    (connect : MongoOptions → Act W (Result (Collection W)))
    (client_of : ClientValue W → Option (StoreClient W)) (secrets : Ref) (key_pairs : KeyPairs W)
    (new_client : ClientOptions → MqttClient W) (run : Option (Method W) → AppFunction W) where
  abbrev pub process : Service W → WritableInfo → Act W (Service W)
  process =
      process_update env parse_duration itoa connect client_of secrets key_pairs new_client run

  unfoldable pub listen_for_config_changes : Service W → List ConfigEvent → Act W (Service W)
  listen_for_config_changes s [] = pure s
  listen_for_config_changes s (app_done ∷ events) = pure s
  listen_for_config_changes s (registry_error e ∷ events) = listen_for_config_changes s events
  listen_for_config_changes s (updates_closed ∷ events) = pure s
  listen_for_config_changes s (not_writable ∷ events) = pure s
  listen_for_config_changes s (updated actual ∷ events) = do
    t ← process s actual
    listen_for_config_changes t events

  abbrev pub process_all : Service W → List WritableInfo → Act W (Service W)
  process_all s [] = pure s
  process_all s (actual ∷ rest) = do t ← process s actual; process_all t rest

  -- The loop acts on every update that arrives before it ends, in their order, whatever errors of
  -- the registry come between, and on none that arrives later.
  pub listen_for_config_changes-updates :
      (s : Service W) (events : List ConfigEvent) (w : W)
      → listen_for_config_changes s events w ≡ process_all s (updates events) w
  unfolding listen_for_config_changes
  listen_for_config_changes-updates s [] w = refl
  listen_for_config_changes-updates s (app_done ∷ events) w = refl
  listen_for_config_changes-updates s (registry_error e ∷ events) w =
      listen_for_config_changes-updates s events w
  listen_for_config_changes-updates s (updates_closed ∷ events) w = refl
  listen_for_config_changes-updates s (not_writable ∷ events) w = refl
  listen_for_config_changes-updates s (updated actual ∷ events) w =
      bind_cong (process s actual) (λ t v. listen_for_config_changes-updates t events v) w
