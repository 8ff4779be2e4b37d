-- ===== src/Lib.antt =====
-- The EdgeX application functions SDK: a service receives messages, runs each through a
-- pipeline of functions, and stores what could not be exported, to try it again later.
--
-- The parts, and the files that model them:
--   Common      internal/common/config.go, the database section of internal/store/db/db.go
--   Util        pkg/util/helpers.go (SplitComma, DeleteEmptyAndTrim), and what the code uses of
--               strings and strconv, on ASCII text
--   AppContext  appcontext/context.go (Types: the values of a pipeline and the context of a pass;
--               CoreData: Complete, SetRetryData, MarkAsPushed, PushToCoreData) and CoerceType of
--               pkg/util/helpers.go (Helpers)
--   Store       internal/store/contracts/storedobject.go (Contracts: NewStoredObject and
--               ValidateContract; the interface of internal/store/db/interfaces/store.go),
--               internal/store/db/redis (Redis: Store, RetrieveFromStore, Update, RemoveFromStore;
--               Redis/Models: FromContract, ToContract, MarshalJSON, UnmarshalJSON),
--               internal/store/db/mongo (Mongo: the same operations over a collection) and
--               internal/store/factory.go with NewClient of both databases (Factory)
--   Runtime     internal/runtime/runtime.go (Message: ProcessMessage; Pipeline: ExecutePipeline,
--               Initialize, SetTransforms) and storeforward.go (Pipeline: storeForLaterRetry and
--               calculatePipelineHash; Retry: the settings of the retry loop, retryStoredData,
--               processRetryItems, retryExportFunction; Retry/Loop: the loop itself). Durable: a
--               failed pass with Redis for its store
--   Security    internal/security/credentials.go: GetSecrets with its cache, getInsecureSecrets,
--               StoreSecrets, GetDatabaseCredentials; isSecurityEnabled of secret.go. Token: Load
--               of authtokenloader/methods.go, the callback of client/vaultclient.go for an
--               expired token, and the rest of secret.go
--   Transforms  pkg/transforms, a file for each of its files; Output holds outputdata.go and
--               coredata.go; Batch/Machine runs any number of calls of Batch, interleaved
--   Telemetry   internal/telemetry/telemetry.go, linux_cpu.go and windows_cpu.go (Windows)
--   Trigger     requestHandler of internal/trigger/http/rest.go, and of
--               internal/trigger/messagebus/messaging.go the handling of one message, Initialize
--               and its loop (MessageBus)
--   WebServer   secretHandler of internal/webserver/server.go, validateSecretData of types.go;
--               Routes: the other handlers, the routes and StartWebServer
--   Endpoint    pkg/endpoint/endpoint.go and pkg/urlclient/urlclient.go
--   Configuration  internal/config/environment.go (Environment) and internal/common/loader.go
--               (Loader)
--   AppSdk      appsdk/configurable.go (Configurable: the functions of a configured pipeline) and
--               appsdk/sdk.go (Pipeline: LoadConfigurablePipeline, SetFunctionsPipeline; Startup:
--               Initialize; Bootstrap: its loop; Registry: initializeConfiguration; Version:
--               validateVersionMatch; Clients: initializeClients; CommandLine: the overrides of
--               the arguments; Settings: AddRoute, GetAppSettingStrings and the logging target;
--               Lifecycle: the store client and what listenForConfigChanges calls;
--               Lifecycle/Listening: its loop; Run: setupTrigger and MakeItRun)
--
-- A trigger hands each message to ProcessMessage with a new context, and answers or publishes
-- the output data. ProcessMessage decodes the message and hands it to ExecutePipeline, which
-- calls the functions in turn with the context. A function that fails may have set the
-- context's retry data, and then storeForLaterRetry stores it through the store client with the
-- function's position. The retry loop retrieves the objects of the service, runs each from its
-- position, and removes or updates it. The pipeline functions are those of pkg/transforms, or
-- an application's own: to the runtime they are parameters. Proofs stand in child modules of
-- what they are about, and runs of concrete services in the modules named Examples.
--
-- Initialize brings the configuration, the logger, the secret provider, the database and the
-- clients up, in rounds until all succeed or the time is used up. MakeItRun starts the trigger
-- and the retry loop; each update from the registry may restart or stop that loop or reload the
-- pipeline. Of the loop the service keeps the cancel function, here the number of the loop that
-- it cancels, and the model also keeps the numbers of the loops that run.
--
-- Store/Redis/Server gives the meaning of the Redis commands, as hypotheses on a connection:
-- strings, sets and hashes, and MULTI/EXEC, which may fail with or without effect. Represents
-- says when a database holds a map from ids to objects; Adding, Updating, Removal and Retrieval
-- have the proofs about the operations, and Memory is a connection that keeps the hypotheses.
--
-- Code that reads or writes the world outside the process is a function of the state `W` of
-- that world, of any type, and ends with a result and the new state, or with a panic
-- (Prelude/Effects). An error is a value. Pointers, interfaces and slices that may be nil are
-- options; where the code uses a nil one, the model panics. Log messages have no effect. Loops
-- are structural recursion on the lists that they range over, so no fuel is needed; the
-- bootstrap loop is bounded by the rounds that fit into its time, which are an argument, and
-- loops that wait for timers and signals read the sequence of the events that they see. Go's
-- `int` is a signed number whose increment wraps around at 2^63 - 1 (Prelude/Int); strings and
-- byte slices are lists of bytes; a map is an association list, in the order in which a loop
-- meets its entries (Prelude/Maps).
--
-- Databases, brokers, HTTP, clocks, UUIDs, JSON, CBOR, XML, TOML, the registry, Vault,
-- compression, cryptography, floats, system calls and the rule engine of JSON logic are
-- parameters. Goroutines are interleaved for Batch only: messages of the bus are handled one
-- after the other, and so are updates of the configuration. Not modelled: the flags of the
-- command line, Disconnect of the databases, Get of the Vault client, the context that the SDK
-- adds to the requests of an application's routes, and telemetry of other systems than Linux
-- and Windows. They hand their arguments on, or only log.
mod Prelude
pub mod Common
pub mod Util
pub mod AppContext
pub mod Store
pub mod Telemetry
pub mod Runtime
pub mod Security
pub mod Trigger
pub mod WebServer
pub mod Transforms
pub mod AppSdk
pub mod Configuration
pub mod Endpoint
