-- ===== src/Store/Factory.antt =====
-- internal/store/factory.go, and `NewClient` of internal/store/db/redis/store.go and
-- internal/store/db/mongo/store.go. `time.ParseDuration`, `strconv.Itoa`, and what the client
-- libraries make of a pool and of a connection are parameters.
use app_functions_sdk_go.Prelude.{
  none, some, true, Str, Bytes, Bool, Option, Act, pure, panic, ◌>>=◌, str, ◌++◌, ℤ, ◌===◌, not,
  is_empty, if◌then◌else◌,
}
use app_functions_sdk_go.Common.{DatabaseInfo}
use app_functions_sdk_go.AppContext.{Result, GoError, ok, err}
use app_functions_sdk_go.Store.Contracts.{StoreClient}
use app_functions_sdk_go.Store.Redis.{Connection, Alias, redis_client}
use app_functions_sdk_go.Store.Mongo.{Collection, mongo_client}

-- `redis.Client` with its pool: what the pool dials.
pub record RedisPool : Type 0 where
  pub connection_string : Str
  pub password : Str
  pub connect_timeout : ℤ
  pub max_idle : ℤ
  pub batch_size : ℤ

-- The variables of the package: whether `once` has run, and `currClient`.
pub record RedisPackage : Type 0 where
  pub once : Bool
  pub curr_client : Option RedisPool

-- The options and the timeout of a Mongo connection.
pub record MongoOptions : Type 0 where
  pub hosts : Str
  pub username : Str
  pub password : Str
  pub password_set : Bool
  pub timeout : ℤ

-- The interface value that a factory returns. `redis none` is an interface that holds a nil
-- pointer, and so is not nil itself.
pub data ClientValue (W : Type 0) : Type 0 where
  nil_value : ClientValue W
  redis : Option RedisPool → ClientValue W
  mongo : Collection W → ClientValue W

module _ (parse_duration : Str → Option ℤ) (itoa : ℤ → Str) where
  -- The function that `once` runs.
  first_client : DatabaseInfo → Option ℤ → Option RedisPool × Option GoError
  first_client config none = (none, some (str "config.Timeout failed to parse"))
  first_client config (some connect_timeout) = (
    some (record {
      connection_string = config.host ++ (str ":" ++ itoa config.port);
      password = config.password;
      connect_timeout = connect_timeout;
      max_idle = config.max_idle;
      batch_size = config.batch_size;
    }),
    none,
  )

  with_once : DatabaseInfo → RedisPackage → RedisPackage × Option GoError
  unfolding first_client
  with_once config vars =
      let (client, ret_err) = first_client config (parse_duration config.timeout) in
      if vars.once then (vars, none) else (record { once = true; curr_client = client }, ret_err)

  -- `redis.NewClient`
  unfoldable pub new_redis_client :
      {W : Type 0} → DatabaseInfo → RedisPackage → (ClientValue W × Option GoError) × RedisPackage
  unfolding with_once
  new_redis_client config vars =
      let (vars', ret_err) = with_once config vars in ((redis vars'.curr_client, ret_err), vars')

  module _ {W : Type 0} (connect : MongoOptions → Act W (Result (Collection W))) where
    connected : Result (Collection W) → ClientValue W × Option GoError
    connected (err e) = (nil_value, some e)
    connected (ok collection) = (mongo collection, none)

    connect_within : DatabaseInfo → Option ℤ → Act W (ClientValue W × Option GoError)
    unfolding connected
    connect_within config none = pure (nil_value, some (str "failed to parse Database.Timeout"))
    connect_within config (some timeout) = do
      result ← connect (record {
        hosts = config.host ++ (str ":" ++ itoa config.port);
        username = config.username;
        password = config.password;
        password_set = not (is_empty config.password);
        timeout = timeout;
      })
      pure (connected result)

    -- `mongo.NewClient`
    unfoldable pub new_mongo_client : DatabaseInfo → Act W (ClientValue W × Option GoError)
    unfolding connect_within
    new_mongo_client config = connect_within config (parse_duration config.timeout)

    -- `NewStoreClient`, with the package variables of the Redis client.
    unfoldable pub new_store_client :
        DatabaseInfo → RedisPackage → Act W ((ClientValue W × Option GoError) × RedisPackage)
    unfolding new_mongo_client
    new_store_client config vars =
        if config.type_name === str "mongodb"
        then (do made ← new_mongo_client config; pure (made, vars))
        else if config.type_name === str "redisdb"
        then pure (new_redis_client config vars)
        else pure ((nil_value, some (str "unsupported database type")), vars)

-- A call through the interface: `redis.Client` has value receivers, so a nil pointer panics.
abbrev nil_pointer : {W : Type 0} → StoreClient W
nil_pointer = record {
  store = λ o. panic;
  retrieve_from_store = λ key. panic;
  update = λ o. panic;
  remove_from_store = λ o. panic;
}

module _ {W : Type 0} (pool : RedisPool → Connection W) (parse_uuid : Str → Option Str)
    (new_uuid : Act W Str) (json_marshal : Alias → Result Bytes)
    (json_unmarshal : Bytes → Result Alias) where
  -- The client that the runtime calls.
  unfoldable pub store_client : ClientValue W → Option (StoreClient W)
  store_client nil_value = none
  store_client (redis none) = some nil_pointer
  store_client (redis (some client)) =
      some (redis_client (pool client) parse_uuid new_uuid json_marshal json_unmarshal)
  store_client (mongo collection) = some (mongo_client collection parse_uuid new_uuid)
