-- ===== src/AppSdk/Registry/Empty.antt =====
-- appsdk/sdk.go: `initializeConfiguration` with a configuration from the registry that has no port.
use app_functions_sdk_go.Prelude.{
  some, true, false, Str, Option, Act, ℤ, ◌≡◌, refl, ap, ◌∙◌, returns, panics, is_zero,
  bind-returns, ◌&&◌, not,
}
use app_functions_sdk_go.Common.{ConfigurationStruct}
use app_functions_sdk_go.AppContext.{Result, ok}
use app_functions_sdk_go.Configuration.Environment.{Url, Tree}
use app_functions_sdk_go.AppSdk.Registry.{
  RegistryClient, RegistryConfig, Environment, Bootstrap, initialize_configuration, with_registry,
  with_overrides, connect_every, registry_config, connected, alive, synchronized, pulled,
  check_port, pull_or_push, registry_or_file,
}

module _ {W T : Type 0} (env : Environment) (parse_duration : Str → Option ℤ)
    (parse_url : Str → Option Url) (toml : Tree T) (marshal : ConfigurationStruct → Result T)
    (unmarshal : T → Result ConfigurationStruct)
    (new_registry_client : RegistryConfig → Act W (Result (RegistryClient W T))) where
  -- The configuration that is found in the registry has the port 0.
  pulled-panics :
      (s : Bootstrap W T) (client : RegistryClient W T) (actual : ConfigurationStruct) (w : W)
      → s.logger ≡ false
      → is_zero actual.service.port ≡ true
      → pulled env parse_duration parse_url toml marshal unmarshal new_registry_client s client
          (ok (some actual))
          w
        ≡ panics
  unfolding pulled check_port
  pulled-panics s client actual w l z = rw (z, l) refl

  synchronized-panics :
      (s : Bootstrap W T) (client : RegistryClient W T) (actual : ConfigurationStruct) (w v : W)
      → s.logger ≡ false
      → s.overwrite_config ≡ false
      → client.get_configuration s.configuration w ≡ returns (ok (some actual), v)
      → is_zero actual.service.port ≡ true
      → synchronized env parse_duration parse_url toml marshal unmarshal new_registry_client s
          client
          (ok true)
          w
        ≡ panics
  unfolding synchronized pull_or_push
  synchronized-panics s client actual w v l o g z =
      ap
        (λ b.
          pull_or_push env parse_duration parse_url toml marshal unmarshal new_registry_client s
            client (not b && true) w)
        o
      ∙ (bind-returns (client.get_configuration s.configuration)
            (pulled env parse_duration parse_url toml marshal unmarshal new_registry_client s
              client)
            g
          ∙ pulled-panics s client actual v l z)

  connected-panics :
      (s : Bootstrap W T) (client : RegistryClient W T) (actual : ConfigurationStruct)
      (w w1 w2 w3 : W)
      → s.logger ≡ false
      → s.overwrite_config ≡ false
      → client.is_alive w ≡ returns (true, w1)
      → client.has_configuration w1 ≡ returns (ok true, w2)
      → client.get_configuration s.configuration w2 ≡ returns (ok (some actual), w3)
      → is_zero actual.service.port ≡ true
      → connected env parse_duration parse_url toml marshal unmarshal new_registry_client s
          (ok client)
          w
        ≡ panics
  unfolding connected alive
  connected-panics s client actual w w1 w2 w3 l o a h g z =
      let t = record s { registry_client = some client } in
      bind-returns client.is_alive
        (alive env parse_duration parse_url toml marshal unmarshal new_registry_client t client) a
      ∙ (bind-returns client.has_configuration
            (synchronized env parse_duration parse_url toml marshal unmarshal new_registry_client t
              client)
            h
          ∙ synchronized-panics t client actual w2 w3 l o g z)

  -- What the registry was asked for, with the environment's changes.
  abbrev pub overridden_configuration : Bootstrap W T → ConfigurationStruct
  overridden_configuration s =
      (with_overrides env parse_duration parse_url toml marshal unmarshal new_registry_client
        s).configuration

  -- In the first round of the bootstrap loop, when there is no logging client yet, a registry that
  -- has a configuration whose service port is 0 makes the SDK panic, unless it is told to
  -- overwrite: the error is logged through a nil client.
  pub initialize_configuration-panics :
      (s : Bootstrap W T) (interval : ℤ) (client : RegistryClient W T)
      (actual : ConfigurationStruct) (w w1 w2 w3 w4 : W)
      → s.use_registry ≡ true
      → s.logger ≡ false
      → s.overwrite_config ≡ false
      → parse_duration (overridden_configuration s).service.check_interval ≡ some interval
      → new_registry_client
          (registry_config env parse_duration parse_url toml marshal unmarshal new_registry_client
            s.service_key
            (overridden_configuration s))
          w
        ≡ returns (ok client, w1)
      → client.is_alive w1 ≡ returns (true, w2)
      → client.has_configuration w2 ≡ returns (ok true, w3)
      → client.get_configuration (overridden_configuration s) w3 ≡ returns (ok (some actual), w4)
      → is_zero actual.service.port ≡ true
      → initialize_configuration env parse_duration parse_url toml marshal unmarshal
          new_registry_client s w
        ≡ panics
  unfolding initialize_configuration registry_or_file with_registry connect_every with_overrides
  initialize_configuration-panics s interval client actual w w1 w2 w3 w4 u l o p n a h g z =
      let t =
        with_overrides env parse_duration parse_url toml marshal unmarshal new_registry_client s in
      ap
        (λ b.
          registry_or_file env parse_duration parse_url toml marshal unmarshal new_registry_client s
            b w)
        u
      ∙ (ap
            (λ i.
              connect_every env parse_duration parse_url toml marshal unmarshal new_registry_client
                t i w)
            p
          ∙ (bind-returns
                (new_registry_client (
                  registry_config env parse_duration parse_url toml marshal unmarshal
                    new_registry_client s.service_key t.configuration))
                (connected env parse_duration parse_url toml marshal unmarshal new_registry_client
                  t)
                n
              ∙ connected-panics t client actual w1 w2 w3 w4 l o a h g z))
