-- ===== src/AppSdk/Run/Examples.antt =====
-- appsdk/sdk.go: a run with two updates of the configuration.
use app_functions_sdk_go.Runtime.{set_transforms, initialize, calculate_pipeline_hash}
use app_functions_sdk_go.Transforms.Mqtt.{MqttClient}
use app_functions_sdk_go.Transforms.Mqtt.Sender.{ClientOptions, KeyPairs}
use app_functions_sdk_go.Prelude.{
  ◌===◌, [], ◌∷◌, none, some, true, false, Str, Option, Act, ◌≡◌, refl, ℤ, pos, returns, panics,
  str, Ensures, inr, is_empty, if◌then◌else◌,
}
use app_functions_sdk_go.Common.{WritableInfo, ConfigurationStruct}
use app_functions_sdk_go.AppContext.{Result, err, GoError}
use app_functions_sdk_go.Runtime.Examples.{Objects, config, client, export, runtime}
use app_functions_sdk_go.Store.Factory.{MongoOptions, nil_value}
use app_functions_sdk_go.Store.Mongo.{Collection}
use app_functions_sdk_go.AppSdk.Lifecycle.{
  start_store_forward, Service, change, process_update, retry_interval, with_writable,
}
use app_functions_sdk_go.AppSdk.Lifecycle.Restart.{
  process_update-restarts, process_update-panics, with_new_loop,
}
use app_functions_sdk_go.AppSdk.Lifecycle.Loops.{WellFormed}
use app_functions_sdk_go.AppSdk.Run.{
  ◌===◌, setup_trigger, initialize, GolangRuntime, set_transforms, begin, finish, signal,
  ending_error,
}
use app_functions_sdk_go.AppSdk.Run.Reachable.{
  Reachable, begun, updated, Reachable-WellFormed, finish-returns,
}

abbrev parse_duration : Str → Option ℤ
parse_duration s = if is_empty s then none else some (pos 1000)

abbrev connect : MongoOptions → Act Objects (Result (Collection Objects))
connect options w = returns (err [], w)

abbrev key_pairs : KeyPairs Objects
key_pairs = record {
  x509_key_pair = λ cert key. none;
  load_x509_key_pair = λ cert key w. returns (none, w);
}

abbrev new_client : ClientOptions → MqttClient Objects
new_client opts = record {
  is_connected = λ w. returns (true, w);
  connect = λ w. returns ((true, none), w);
  publish = λ topic qos retain b w. returns (none, w);
}

abbrev http_config : ConfigurationStruct
http_config = record config { binding = record config.binding { type_name = str "HTTP" } }

-- Before `MakeItRun`.
abbrev fresh : Service Objects
fresh = record {
  sdk = record {
    config = http_config;
    using_configurable_pipeline = false;
    target_type = none;
    transforms = export ∷ [];
    runtime = none;
  };
  store_client = nil_value;
  secret_provider = record { secret_client = none; secrets_cache = []; configuration = config };
  redis = record { once = false; curr_client = none };
  cancel = none;
  running = [];
  started = 0;
}

abbrev begun_runtime : GolangRuntime Objects
begun_runtime = record (runtime (export ∷ [])) {
  store_forward = record {
    runtime_set = true;
    store_client = some client;
    pipeline_hash = calculate_pipeline_hash (export ∷ []);
  };
  secret_provider = some 7;
}

abbrev running : Service Objects
running = record fresh {
  sdk = record fresh.sdk { runtime = some begun_runtime };
  cancel = some 0;
  running = 0 ∷ [];
  started = 1;
}

abbrev start : Service Objects → Act Objects (Service Objects × Option GoError)
start = begin (λ s. s) (λ v. some client) 7 (3 ∷ []) (λ trigger runtime w. returns (none, w))

abbrev States : Service Objects → Objects → Type 0
States =
    Reachable [] parse_duration (λ n. []) connect (λ v. some client) 7 key_pairs new_client
      (λ m. export) (λ s. s) (3 ∷ []) (λ trigger runtime w. returns (none, w))

start_returns : start fresh [] ≡ returns ((running, none), [])
unfolding begin set_transforms initialize setup_trigger start_store_forward ◌===◌ str
start_returns = refl

running_States : States running []
running_States = begun fresh running [] [] none refl start_returns

-- The update of the retry interval.
abbrev longer : WritableInfo
longer = record config.writable {
  store_and_forward = record config.writable.store_and_forward { retry_interval = str "5s" };
}

change-longer : change config.writable longer ≡ retry_interval
unfolding change ◌===◌ str
change-longer = refl

running-WellFormed : WellFormed running
running-WellFormed = record { loops = refl; ready = refl }

update_restarts :
    process_update [] parse_duration
      (λ n. [])
      connect
      (λ v. some client)
      7
      key_pairs
      new_client
      (λ m. export)
      running
      longer
      []
    ≡ returns (with_new_loop (with_writable longer running), [])
update_restarts =
    process_update-restarts [] parse_duration (λ n. []) connect (λ v. some client) 7 key_pairs
      new_client (λ m. export) running longer [] change-longer running-WellFormed refl refl

updated_States : States (with_new_loop (with_writable longer running)) []
updated_States =
    updated running (with_new_loop (with_writable longer running)) [] [] longer running_States
      (inr refl) update_restarts

Reachable-WellFormed_example : WellFormed (with_new_loop (with_writable longer running))
Reachable-WellFormed_example =
    Reachable-WellFormed [] parse_duration (λ n. []) connect (λ v. some client) 7 key_pairs
      new_client (λ m. export) (λ s. s) (3 ∷ []) (λ trigger runtime w. returns (none, w))
      (with_new_loop (with_writable longer running)) [] updated_States

finish-returns_example :
    Ensures
      (λ r w. r ≡ (record running { running = [] }, ending_error none signal))
      (finish running none signal [])
finish-returns_example =
    finish-returns [] parse_duration (λ n. []) connect (λ v. some client) 7 key_pairs new_client
      (λ m. export) (λ s. s) (3 ∷ []) (λ trigger runtime w. returns (none, w)) running [] none
      signal running_States

-- Store and Forward could not be enabled, and no loop was started.
abbrev never_started : Service Objects
never_started = record running {
  sdk = record running.sdk {
    config = record running.sdk.config {
      writable = record running.sdk.config.writable {
        store_and_forward = record running.sdk.config.writable.store_and_forward {
          enabled = false;
        };
      };
    };
  };
  cancel = none;
  running = [];
  started = 0;
}

late_change : change never_started.sdk.config.writable longer ≡ retry_interval
unfolding change ◌===◌ str
late_change = refl

process_update-panics_example :
    process_update [] parse_duration
      (λ n. [])
      connect
      (λ v. some client)
      7
      key_pairs
      new_client
      (λ m. export)
      never_started
      longer
      []
    ≡ panics
process_update-panics_example =
    process_update-panics [] parse_duration (λ n. []) connect (λ v. some client) 7 key_pairs
      new_client (λ m. export) never_started longer [] late_change refl refl
