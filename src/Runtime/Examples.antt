-- ===== src/Runtime/Examples.antt =====
-- internal/runtime: a small service, and runs of it.
mod Pipeline
mod Retry
use app_functions_sdk_go.Prelude.{
  refl, [], ◌∷◌, none, some, true, false, pos, returns, ◌++◌, Str, Bytes, List, Option,
}
use app_functions_sdk_go.Common.{ConfigurationStruct}
use app_functions_sdk_go.AppContext.{ok, err, error, bytes, Context, AppFunction, Value}
use app_functions_sdk_go.Store.{StoreClient, StoredObject}
use app_functions_sdk_go.Runtime.{GolangRuntime, StoreForwardInfo}

-- The world is what the store holds.
abbrev pub Objects : Type 0
Objects = List StoredObject

abbrev pub config : ConfigurationStruct
config = record {
  writable = record {
    log_level = [];
    pipeline = record {
      execution_order = [];
      use_target_type_of_byte_array = false;
      functions = [];
    };
    store_and_forward = record { enabled = true; retry_interval = []; max_retry_count = pos 3 };
    insecure_secrets = [];
  };
  logging = record { enable_remote = false; file = [] };
  binding = record { type_name = []; subscribe_topic = []; publish_topic = [] };
  application_settings = none;
  clients = [];
  database = record {
    type_name = [];
    host = [];
    port = pos 0;
    timeout = [];
    username = [];
    password = [];
    max_idle = pos 0;
    batch_size = pos 0;
  };
  registry = record { host = []; port = pos 0; type_name = [] };
  service = record {
    boot_timeout = [];
    check_interval = [];
    client_monitor = [];
    host = [];
    https_cert = [];
    https_key = [];
    port = pos 0;
    protocol = [];
    startup_msg = [];
    read_max_limit = pos 0;
    timeout = [];
  };
  secret_store = record {
    secret_config = record {
      host = [];
      port = pos 0;
      path = [];
      protocol = [];
      namespace = [];
      root_ca_cert_path = [];
      server_name = [];
      auth_token = [];
    };
    token_file = [];
  };
}

abbrev pub client : StoreClient Objects
client = record {
  store = λ o w. returns (ok o.id, w ++ (o ∷ []));
  retrieve_from_store = λ key w. returns (ok w, w);
  update = λ o w. returns (none, w);
  remove_from_store = λ o w. returns (none, w);
}

abbrev pub store_forward : StoreForwardInfo Objects
store_forward = record { runtime_set = true; store_client = some client; pipeline_hash = 5 ∷ [] }

abbrev pub context : Context Objects
context = record {
  event_id = 1 ∷ [];
  event_checksum = [];
  correlation_id = 2 ∷ [];
  output_data = none;
  configuration = config;
  event_client = none;
  retry_data = none;
  secret_provider = none;
}

-- A function that replaces the data, and one that fails to export it.
abbrev pub transform : AppFunction Objects
transform = record {
  name = 116 ∷ [];
  call = λ c params w.
      returns (record { context = c; continue_pipeline = true; result = some (bytes (9 ∷ [])) }, w);
}

abbrev pub export : AppFunction Objects
export = record {
  name = 101 ∷ [];
  call = λ c params w. returns (
    record {
      context = record c { retry_data = some (9 ∷ []) };
      continue_pipeline = false;
      result = some (error (4 ∷ []));
    },
    w,
  );
}

abbrev pub discard : AppFunction Objects
discard = record {
  name = 100 ∷ [];
  call =
      λ c params w. returns (record { context = c; continue_pipeline = false; result = none }, w);
}

abbrev pub runtime : List (AppFunction Objects) → GolangRuntime Objects
runtime transforms = record {
  target_type = none;
  service_key = 3 ∷ [];
  transforms = transforms;
  store_forward = store_forward;
  secret_provider = none;
}
