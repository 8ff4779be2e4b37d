-- ===== src/Store/Examples.antt =====
-- internal/store: stored objects, and what Redis makes of them.
use app_functions_sdk_go.Common.{DatabaseInfo}
use app_functions_sdk_go.Store.Mongo.Laws.{written, document, retrieve_from_mongo-written}
use app_functions_sdk_go.Store.Mongo.{Collection, retrieve_from_mongo}
use app_functions_sdk_go.Prelude.{
  some, is_empty, if◌then◌else◌, ℤ, Option, Str, zero, ◌+◌, map, ℕ, Bytes, List, refl, [], ◌∷◌,
  none, true, pos, returns, ◌≡◌,
}
use app_functions_sdk_go.AppContext.{ok, Result}
use app_functions_sdk_go.Store.Contracts.{StoredObject}
use app_functions_sdk_go.Store.Redis.{
  from_contract, to_alias, Connection, Alias, no_model, to_contract,
}
use app_functions_sdk_go.Store.Redis.Reads.{filled}

-- Two objects; the second one has no event id.
abbrev first : StoredObject
first = record {
  id = 1 ∷ [];
  app_service_key = 3 ∷ [];
  payload = 9 ∷ [];
  retry_count = pos 0;
  pipeline_position = 1;
  version = 5 ∷ [];
  correlation_id = 2 ∷ [];
  event_id = 7 ∷ [];
  event_checksum = 8 ∷ [];
}

abbrev second : StoredObject
second = record first { id = 2 ∷ []; event_id = [] }

-- A decoder that knows the JSON of both.
abbrev decoder : Bytes → Result Alias
decoder (zero ∷ _) = ok (to_alias (from_contract first))
decoder _ = ok (to_alias (from_contract second))

-- A server with the two values.
abbrev server : List Bytes → Connection ℕ
server values = record {
  exists = λ id w. returns (ok true, w);
  smembers = λ key w. returns (ok (map (λ b. b) values), w);
  mget = λ ids w. returns (ok values, w);
  hget = λ key f w. returns (ok (3 ∷ []), w);
  exec = λ commands w. returns (ok (true ∷ []), w + 1);
}

-- The second object comes back with the event id of the first.
second_has_first_event_id :
    filled (to_contract no_model) (first ∷ second ∷ [])
    ≡ first ∷ record second { event_id = 7 ∷ [] } ∷ []
second_has_first_event_id = refl

-- A collection that finds the documents of some objects, and counts what is written.
abbrev collection : List StoredObject → Collection ℕ
collection objects = record {
  find_one = λ uuid w. returns (document [] second, w);
  insert_one = λ o w. returns (none, w + 1);
  find = λ key w. returns (ok (record { documents = written (λ o. []) objects; error = none }), w);
  update_one = λ uuid key o w. returns (none, w + 1);
  delete_one = λ uuid key w. returns (none, w + 1);
}

retrieve_from_mongo-written_example :
    retrieve_from_mongo (collection (first ∷ second ∷ [])) (3 ∷ []) 0
    ≡ returns (ok (first ∷ second ∷ []), 0)
retrieve_from_mongo-written_example =
    retrieve_from_mongo-written (λ o. []) (collection (first ∷ second ∷ [])) (3 ∷ [])
      (first ∷ second ∷ []) 0 0 refl (refl, (refl, tt)) refl

-- A database whose timeout does not parse, and one whose timeout does.
abbrev misconfigured : DatabaseInfo
misconfigured = record {
  type_name = [];
  host = [];
  port = pos 0;
  timeout = [];
  username = [];
  password = [];
  max_idle = pos 0;
  batch_size = pos 0;
}

abbrev timeout : Str → Option ℤ
timeout s = if is_empty s then none else some (pos 1000)
