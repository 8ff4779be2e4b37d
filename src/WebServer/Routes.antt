-- ===== src/WebServer/Routes.antt =====
-- internal/webserver/server.go: the handlers of the standard routes but `secretHandler`, `encode`, the
-- registration of routes, and `StartWebServer`; and `Initialize` of internal/trigger/http/rest.go.
-- JSON, the router of mux and the listening of net/http are parameters.
use app_functions_sdk_go.AppSdk.Settings.{Routes}
use app_functions_sdk_go.Prelude.{
  ◌===◌, pure, if◌then◌else◌, [], ◌∷◌, none, Str, Bytes, List, Option, Act, ◌++◌, str, ℕ, ℤ,
}
use app_functions_sdk_go.Common.{ConfigurationStruct, ServiceInfo}
use app_functions_sdk_go.AppContext.{Result, ok, err, GoError}
use app_functions_sdk_go.Telemetry.{SystemUsage, Telemetry, MemStats, new_system_usage}

-- What a handler wrote, with the header `Content-Type`.
pub record HttpReply : Type 0 where
  pub content_type : Str
  pub status : ℕ
  pub body : Bytes

pub record Version : Type 0 where
  pub version : Str
  pub sdk_version : Str

-- The functions that routes are given.
pub data Handler : Type 0 where
  ping_handler : Handler
  config_handler : Handler
  metrics_handler : Handler
  version_handler : Handler
  secret_handler : Handler
  trigger_handler : Handler
  application_handler : ℕ → Handler

-- No methods stand for all.
pub record Route : Type 0 where
  pub path : Str
  pub methods : List Str
  pub handler : Handler

unfoldable pub ping : HttpReply
ping = record { content_type = str "text/plain"; status = 200; body = str "pong" }

-- `encode`, with what the JSON encoder gives; `http.Error` replaces the content type.
unfoldable pub encode : Result Bytes → HttpReply
encode (ok json) = record { content_type = str "application/json"; status = 200; body = json }
encode (err e) = record {
  content_type = str "text/plain; charset=utf-8";
  status = 500;
  body = e ++ (10 ∷ []);
}

unfoldable pub reply_config : (ConfigurationStruct → Result Bytes) → ConfigurationStruct → HttpReply
unfolding encode
reply_config json config = encode (json config)

unfoldable pub reply_metrics :
    {F : Type 0} → (SystemUsage F → Result Bytes) → Telemetry F → MemStats → HttpReply
unfolding encode new_system_usage
reply_metrics json telemetry rtm = encode (json (new_system_usage telemetry rtm))

unfoldable pub reply_version : (Version → Result Bytes) → Str → Str → HttpReply
unfolding encode
reply_version json application_version sdk_version =
    encode (json (record { version = application_version; sdk_version = sdk_version }))

-- `AddRoute`: mux keeps a route with an error too.
unfoldable pub add_route :
    (Str → Option GoError) → List Route → Str → ℕ → List Str → List Route × Option GoError
add_route get_error router route_path handler methods = (
  router
      ++ (record { path = route_path; methods = methods; handler = application_handler handler }
          ∷ []),
  get_error route_path,
)

get : Str → Handler → Route
get path handler = record { path = path; methods = str "GET" ∷ []; handler = handler }

-- The routes of `clients` and of `internal/constants.go`.
unfoldable pub configure_standard_routes : Routes → Str → List Route → List Route
unfolding get
configure_standard_routes routes api_base router =
    router
    ++ (get routes.ping ping_handler
        ∷ get routes.config config_handler
        ∷ get routes.metrics metrics_handler
        ∷ get routes.version version_handler
        ∷ record {
          path = api_base ++ str "/secrets";
          methods = str "POST" ∷ [];
          handler = secret_handler;
        }
        ∷ [])

unfoldable pub setup_trigger_route : List Route → List Route
setup_trigger_route router =
    router
    ++ (record { path = str "/api/v1/trigger"; methods = []; handler = trigger_handler } ∷ [])

-- `Initialize` of the HTTP trigger gives no error.
unfoldable pub initialize_http_trigger : List Route → List Route × Option GoError
unfolding setup_trigger_route
initialize_http_trigger router = (setup_trigger_route router, none)

module _ {W : Type 0} (itoa : ℤ → Str) (parse_duration : Str → Result ℤ)
    (listen_and_serve : Str → List Route → ℤ → Act W GoError)
    (listen_and_serve_tls : Str → Str → Str → List Route → ℤ → Act W GoError) where
  listen : ServiceInfo → List Route → ℤ → Act W GoError
  listen service router service_timeout =
      let p = str ":" ++ itoa service.port in
      if service.protocol === str "https"
      then listen_and_serve_tls p service.https_cert service.https_key router service_timeout
      else listen_and_serve p router service_timeout

  with_timeout : ServiceInfo → List Route → Result ℤ → Act W GoError
  unfolding listen
  with_timeout service router (err e) = pure (str "failed to parse Service.Timeout: " ++ e)
  with_timeout service router (ok service_timeout) = listen service router service_timeout

  -- The error that the goroutine sends on its channel.
  unfoldable pub start_web_server : ServiceInfo → List Route → Act W GoError
  unfolding with_timeout
  start_web_server service router = with_timeout service router (parse_duration service.timeout)
