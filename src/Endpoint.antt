-- ===== src/Endpoint.antt =====
-- pkg/endpoint/endpoint.go and pkg/urlclient/urlclient.go. The registry and `strconv.Itoa` are
-- parameters; what the goroutine of `Monitor` meets is a list of events.
pub mod Monitoring
use app_functions_sdk_go.Prelude.{
  [], ◌∷◌, none, some, true, false, Str, Bool, Option, List, Act, pure, panic, ◌>>=◌, ◌++◌, str, ℤ,
  pos, negsuc, lt_int, if◌then◌else◌, ◌*◌, ◌+◌,
}
use app_functions_sdk_go.AppContext.{Result, ok, err}

pub record Endpoint : Type 0 where
  pub service_key : Str
  pub path : Str
  pub interval : ℤ

-- `endpoint.New`
abbrev pub new_endpoint : Str → Str → ℤ → Endpoint
new_endpoint service_key path interval = record {
  service_key = service_key;
  path = path;
  interval = interval;
}

-- What the `select` of the loop receives.
pub data Event : Type 0 where
  tick : Event
  done : Event

module _ (itoa : ℤ → Str) where
  fetched : Endpoint → Result (Str × ℤ) → List Str
  fetched e (err message) = []
  fetched e (ok (host, port)) = (str "http://" ++ (host ++ (str ":" ++ (itoa port ++ e.path)))) ∷ []

  module _ {W : Type 0} (get_service_endpoint : Str → Act W (Result (Str × ℤ))) where
    -- What is sent on the channel.
    unfoldable pub fetch_url : Endpoint → Act W (List Str)
    unfolding fetched
    fetch_url e = do endpoint ← get_service_endpoint e.service_key; pure (fetched e endpoint)

    looped : Endpoint → List Event → Act W (List Str)
    unfolding fetch_url
    looped e [] = pure []
    looped e (done ∷ events) = pure []
    looped e (tick ∷ events) = do sent ← fetch_url e; later ← looped e events; pure (sent ++ later)

    -- The goroutine that `Monitor` starts.
    unfoldable pub monitored : Endpoint → List Event → Act W (List Str)
    unfolding looped
    monitored e events = do sent ← fetch_url e; later ← looped e events; pure (sent ++ later)

-- `time.NewTicker` panics on an interval that is not positive.
unfoldable pub monitor : {W : Type 0} → Endpoint → Act W Endpoint
monitor e = if lt_int (pos 0) e.interval then pure e else panic

-- A client that asks the registry, with its two intervals, or one with a fixed URL.
pub data UrlClient : Type 0 where
  retry : Endpoint → ℤ → ℤ → UrlClient
  local : Str → UrlClient

-- `interval * 10`
times_ten : ℤ → ℤ
times_ten (pos n) = pos (n * 10)
times_ten (negsuc n) = negsuc (n * 10 + 9)

-- `urlclient.New`, with whether there is a registry client.
unfoldable pub new_url_client : {W : Type 0} → Bool → Str → Str → ℤ → Str → Act W UrlClient
unfolding times_ten monitor
new_url_client true service_key route interval url = do
  endpoint ← monitor (new_endpoint service_key route interval)
  pure (retry endpoint interval (times_ten interval))
new_url_client false service_key route interval url = pure (local url)
