-- ===== src/AppSdk/Clients/Monitor.antt =====
-- appsdk/sdk.go: the interval at which `initializeClients` has the endpoints looked up.
use app_functions_sdk_go.Prelude.{
  zero, ◌/◌, ◌+◌, bind-panics, arith, some, true, false, Str, Option, str, lookup, ℤ, pos, lt_int,
  ◌≡◌, refl, panics, ap, ◌∙◌,
}
use app_functions_sdk_go.Common.{ClientInfo, ConfigurationStruct}
use app_functions_sdk_go.Endpoint.{new_url_client, monitor}
use app_functions_sdk_go.AppSdk.Clients.{
  suc, ℕ, negsuc, negated, Contracts, EdgexClients, initialize_clients, all_clients,
  core_data_clients, service_client, client_monitor, milliseconds,
}

negated-negative : (n : ℕ) → lt_int (pos 0) (negated n) ≡ false
unfolding negated lt_int
negated-negative zero = refl
negated-negative (suc n) = refl

rounded :
    (monitor : ℤ)
    → lt_int monitor (pos 1000000) ≡ true
    → lt_int (pos 0) (milliseconds monitor) ≡ false
unfolding milliseconds lt_int
rounded (pos n) h = ground arith
rounded (negsuc n) h = negated-negative ((n + 1) / 1000000)

module _ {W : Type 0} (contracts : Contracts) (itoa : ℤ → Str) where
  module _ (interval : ℤ) (short : lt_int (pos 0) interval ≡ false) where
    core_data_clients-panics :
        (clients : EdgexClients) (info : ClientInfo) (w : W)
        → core_data_clients contracts itoa true interval clients (some info) w ≡ panics
    unfolding core_data_clients service_client new_url_client monitor
    core_data_clients-panics clients info w = rw short refl

    all_clients-panics :
        (config : ConfigurationStruct) (clients : EdgexClients) (info : ClientInfo) (w : W)
        → lookup (str "CoreData") config.clients ≡ some info
        → all_clients contracts itoa true interval config clients w ≡ panics
    unfolding all_clients
    all_clients-panics config clients info w h =
        bind-panics
          (core_data_clients contracts itoa true interval clients
            (lookup (str "CoreData") config.clients))
          _
          (ap (λ found. core_data_clients contracts itoa true interval clients found w) h
            ∙ core_data_clients-panics clients info w)

  -- With a registry and a client section for core data, a client monitor of less than a millisecond,
  -- 0 or negative panics: it is rounded to a number of milliseconds that a ticker does not accept.
  pub initialize_clients-panics :
      (parse_duration : Str → Option ℤ) (config : ConfigurationStruct) (clients : EdgexClients)
      (info : ClientInfo) (monitor : ℤ) (w : W)
      → parse_duration config.service.client_monitor ≡ some monitor
      → lt_int monitor (pos 1000000) ≡ true
      → lookup (str "CoreData") config.clients ≡ some info
      → initialize_clients contracts itoa parse_duration true config clients w ≡ panics
  unfolding initialize_clients client_monitor
  initialize_clients-panics parse_duration config clients info monitor w p short h =
      rw p
        (all_clients-panics (milliseconds monitor) (rounded monitor short) config clients info w h)
