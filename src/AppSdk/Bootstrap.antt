-- ===== src/AppSdk/Bootstrap.antt =====
-- appsdk/sdk.go: the bootstrap loop of `Initialize`. The dependencies are an interface; the time that
-- is left is a number of rounds.
pub mod Flags
pub mod Once
pub mod Completes
use app_functions_sdk_go.Prelude.{◌>>◌, ℕ, zero, suc, true, false, Bool, Act, pure, ◌>>=◌}

-- What the loop brings up, with whether it succeeded. `store_enabled` reads the configuration.
pub record Dependencies (W : Type 0) : Type 0 where
  pub configuration : Act W Bool
  pub logger : Act W Bool
  pub version_match : Act W Bool
  pub secret_provider : Act W Bool
  pub store_enabled : Act W Bool
  pub database : Act W Bool
  pub clients : Act W (Unit {0})

-- The flags of the loop.
pub record Progress : Type 0 where
  pub configuration : Bool
  pub logger : Bool
  pub secret_provider : Bool
  pub database : Bool

abbrev pub no_progress : Progress
no_progress = record {
  configuration = false;
  logger = false;
  secret_provider = false;
  database = false;
}

-- How one round ends, and the loop.
pub data Outcome : Type 0 where
  complete : Outcome
  incompatible_version : Outcome
  no_secret_provider : Outcome
  timed_out : Outcome

pub data Round : Type 0 where
  ended : Outcome → Round
  again : Progress → Round

module _ {W : Type 0} (deps : Dependencies W) where
  bring_up_clients : Progress → Act W Round
  bring_up_clients p = do deps.clients; pure (ended complete)

  database_done : Progress → Bool → Act W Round
  unfolding bring_up_clients
  database_done p true = bring_up_clients (record p { database = true })
  database_done p false = pure (again p)

  bring_up_database : Progress → Bool → Act W Round
  unfolding database_done bring_up_clients
  bring_up_database p true = bring_up_clients p
  bring_up_database p false = do ok ← deps.database; database_done p ok

  with_store : Progress → Bool → Act W Round
  unfolding bring_up_database
  with_store p true = bring_up_database p p.database
  with_store p false = bring_up_clients p

  check_store : Progress → Act W Round
  unfolding with_store
  check_store p = do enabled ← deps.store_enabled; with_store p enabled

  secrets_done : Progress → Bool → Act W Round
  unfolding check_store
  secrets_done p true = check_store (record p { secret_provider = true })
  secrets_done p false = pure (ended no_secret_provider)

  bring_up_secrets : Progress → Bool → Act W Round
  unfolding secrets_done
  bring_up_secrets p true = check_store p
  bring_up_secrets p false = do ok ← deps.secret_provider; secrets_done p ok

  version_checked : Progress → Bool → Act W Round
  unfolding bring_up_secrets
  version_checked p true = bring_up_secrets p p.secret_provider
  version_checked p false = pure (ended incompatible_version)

  check_version : Progress → Act W Round
  unfolding version_checked
  check_version p = do ok ← deps.version_match; version_checked p ok

  logger_done : Progress → Bool → Act W Round
  unfolding check_version
  logger_done p true = check_version (record p { logger = true })
  logger_done p false = pure (again p)

  bring_up_logger : Progress → Bool → Act W Round
  unfolding logger_done
  bring_up_logger p true = check_version p
  bring_up_logger p false = do ok ← deps.logger; logger_done p ok

  configuration_done : Progress → Bool → Act W Round
  unfolding bring_up_logger
  configuration_done p true = bring_up_logger (record p { configuration = true }) p.logger
  configuration_done p false = pure (again p)

  bring_up_configuration : Progress → Bool → Act W Round
  unfolding configuration_done
  bring_up_configuration p true = bring_up_logger p p.logger
  bring_up_configuration p false = do ok ← deps.configuration; configuration_done p ok

  -- One round of the loop.
  unfoldable pub boot_round : Progress → Act W Round
  unfolding bring_up_configuration
  boot_round p = bring_up_configuration p p.configuration

  next_round : (Progress → Act W Outcome) → Round → Act W Outcome
  next_round boot (ended outcome) = pure outcome
  next_round boot (again p) = boot p

  -- The loop, with the rounds that fit into the time.
  unfoldable pub boot : ℕ → Progress → Act W Outcome
  unfolding next_round
  boot zero p = pure timed_out
  boot (suc n) p = do round ← boot_round p; next_round (boot n) round
