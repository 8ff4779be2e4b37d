-- ===== src/Store/Redis/Examples/Durable.antt =====
-- internal/runtime with internal/store/db/redis: a failed pass on the server in memory.
use app_functions_sdk_go.Prelude.{[], ◌∷◌, none, some, true, false, returns, ◌≡◌, refl, List, str}
use app_functions_sdk_go.AppContext.{ok, error, bytes, AppFunction, Context, Reply, Value}
use app_functions_sdk_go.Store.{validate_contract}
use app_functions_sdk_go.Store.Redis.{
  Command, store, redis_client, from_contract, to_alias, marshal_json, write,
}
use app_functions_sdk_go.Store.Redis.Codec.{json_marshal, json_unmarshal}
use app_functions_sdk_go.Store.Redis.Memory.{memory}
use app_functions_sdk_go.Store.Redis.Examples.{parse_uuid, new_uuid, object, stored}
use app_functions_sdk_go.Runtime.{GolangRuntime}
use app_functions_sdk_go.Runtime.Examples.{config}

abbrev context : Context (List Command)
context = record {
  event_id = 7 ∷ [];
  event_checksum = 8 ∷ [];
  correlation_id = 2 ∷ [];
  output_data = none;
  configuration = config;
  event_client = none;
  retry_data = none;
  secret_provider = none;
}

abbrev gr : GolangRuntime (List Command)
gr = record {
  target_type = none;
  service_key = 3 ∷ [];
  transforms = [];
  store_forward = record {
    runtime_set = true;
    store_client = some (redis_client memory parse_uuid new_uuid json_marshal json_unmarshal);
    pipeline_hash = 5 ∷ [];
  };
  secret_provider = none;
}

abbrev transformed : Reply (List Command)
transformed = record { context = context; continue_pipeline = true; result = some (bytes (9 ∷ [])) }

abbrev exported : Reply (List Command)
exported = record {
  context = record context { retry_data = some (9 ∷ []) };
  continue_pipeline = false;
  result = some (error (4 ∷ []));
}

abbrev transform : AppFunction (List Command)
transform = record {
  name = 116 ∷ [];
  call = λ c params w.
      returns (record { context = c; continue_pipeline = true; result = some (bytes (9 ∷ [])) }, w);
}

abbrev export : AppFunction (List Command)
export = record {
  name = 101 ∷ [];
  call = λ c params w. returns (
    record {
      context = record c { retry_data = some (9 ∷ []) };
      continue_pipeline = false;
      result = some (error (4 ∷ []));
    },
    w,
  );
}

abbrev target : Value
target = bytes (1 ∷ [])

taken : store memory parse_uuid new_uuid json_marshal object [] ≡ returns (ok (str "7"), stored)
unfolding store validate_contract write from_contract marshal_json to_alias str
taken = refl
