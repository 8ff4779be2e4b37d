-- ===== src/AppSdk/Run.antt =====
-- appsdk/sdk.go: `MakeItRun` and `setupTrigger`. `strings.ToUpper` and the `Initialize` methods of the
-- triggers are parameters; the web server and the signals are what ends the run.
mod Examples
pub mod Reachable
use app_functions_sdk_go.Prelude.{
  [], ◌∷◌, none, some, true, false, Str, Bool, Option, List, Act, pure, panic, ◌>>=◌, str, ◌===◌,
  if◌then◌else◌,
}
use app_functions_sdk_go.AppContext.{GoError, Ref}
use app_functions_sdk_go.Runtime.{GolangRuntime, TargetType, initialize, set_transforms}
use app_functions_sdk_go.Store.{StoreClient}
use app_functions_sdk_go.Store.Factory.{ClientValue}
use app_functions_sdk_go.AppSdk.Lifecycle.{
  Service, section, start_store_forward, stop_store_forward,
}

-- The triggers of the bindings.
pub data Trigger : Type 0 where
  http : Trigger
  message_bus : Trigger

-- Any other binding gives a nil trigger.
unfoldable pub setup_trigger : (Str → Str) → Str → Option Trigger
setup_trigger to_upper type_name =
    if to_upper type_name === str "HTTP"
    then some http
    else if to_upper type_name === str "MESSAGEBUS"
    then some message_bus
    else none

-- What ends the run.
pub data Ending : Type 0 where
  http_error : GoError → Ending
  signal : Ending

unfoldable pub ending_error : Option GoError → Ending → Option GoError
ending_error error (http_error e) = some e
ending_error error signal = error

module _ {W : Type 0} where
  abbrev new_runtime : Option TargetType → Str → GolangRuntime W
  new_runtime target_type service_key = record {
    target_type = target_type;
    service_key = service_key;
    transforms = [];
    store_forward = record { runtime_set = false; store_client = none; pipeline_hash = [] };
    secret_provider = none;
  }

  abbrev pub with_runtime : GolangRuntime W → Service W → Service W
  with_runtime runtime s = record s { sdk = record s.sdk { runtime = some runtime } }

  started_or_not : Service W → Bool → Act W (Service W)
  started_or_not s true = start_store_forward s
  started_or_not s false = pure s

  stopped_or_not : Service W → Bool → Act W (Service W)
  stopped_or_not s true = stop_store_forward s
  stopped_or_not s false = pure s

  module _ (to_upper : Str → Str) (client_of : ClientValue W → Option (StoreClient W))
      (secrets : Ref) (service_key : Str)
      (initialize_trigger : Trigger → GolangRuntime W → Act W (Option GoError)) where
    -- The `Initialize` of a nil trigger panics; an error of it is logged, and returned in the end.
    triggered : GolangRuntime W → Option Trigger → Act W (Option GoError)
    triggered runtime none = panic
    triggered runtime (some trigger) = initialize_trigger trigger runtime

    -- `MakeItRun` up to the start of the web server.
    unfoldable pub begin : Service W → Act W (Service W × Option GoError)
    unfolding triggered started_or_not
    begin s = do
      runtime ←
          set_transforms
            (initialize (new_runtime s.sdk.target_type service_key) (client_of s.store_client)
              (some secrets))
            s.sdk.transforms
      error ← triggered runtime (setup_trigger to_upper s.sdk.config.binding.type_name)
      s' ← started_or_not (with_runtime runtime s) (section s).enabled
      pure (s', error)

  -- `MakeItRun` from the end of the waiting. Cancelling the context of the application ends what
  -- is left of the loops.
  unfoldable pub finish : Service W → Option GoError → Ending → Act W (Service W × Option GoError)
  unfolding stopped_or_not ending_error
  finish s error ending = do
    stopped ← stopped_or_not s (section s).enabled
    pure (record stopped { running = [] }, ending_error error ending)
