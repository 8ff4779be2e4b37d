-- ===== src/AppSdk/Bootstrap/Flags.antt =====
-- appsdk/sdk.go: the rounds of the bootstrap loop keep the flags that are set.
use app_functions_sdk_go.Prelude.{
  bind-same, ℕ, zero, suc, true, false, Bool, Act, ◌≡◌, refl, Allows, Allows-bind,
}
use app_functions_sdk_go.AppSdk.Bootstrap.{
  Dependencies, Progress, Outcome, Round, ended, again, boot, boot_round, next_round,
  bring_up_clients, database_done, bring_up_database, with_store, check_store, secrets_done,
  bring_up_secrets, version_checked, check_version, logger_done, bring_up_logger,
  configuration_done, bring_up_configuration,
}

-- Setting a flag keeps the predicate.
pub record Closed (P : Progress → Type 0) : Type 0 where
  pub configuration : (p : Progress) → P p → P (record p { configuration = true })
  pub logger : (p : Progress) → P p → P (record p { logger = true })
  pub secret_provider : (p : Progress) → P p → P (record p { secret_provider = true })
  pub database : (p : Progress) → P p → P (record p { database = true })

module _ {W : Type 0} (deps : Dependencies W) where
  module _ (P : Progress → Type 0) (closed : Closed P) where
    abbrev Keeps : Round → W → Type 0
    Keeps (ended outcome) w = Unit
    Keeps (again p) w = P p

    clients_keep : (p : Progress) (w : W) → Allows Keeps (bring_up_clients deps p w)
    unfolding bring_up_clients
    clients_keep p w = Allows-bind Keeps deps.clients _ w λ u v. tt

    database_done-Keeps :
        (p : Progress) (b : Bool) (w : W) → P p → Allows Keeps (database_done deps p b w)
    unfolding database_done
    database_done-Keeps p true w h = clients_keep (record p { database = true }) w
    database_done-Keeps p false w h = h

    database-Keeps :
        (p : Progress) (b : Bool) (w : W) → P p → Allows Keeps (bring_up_database deps p b w)
    unfolding bring_up_database
    database-Keeps p true w h = clients_keep p w
    database-Keeps p false w h =
        Allows-bind Keeps deps.database (database_done deps p) w λ b v. database_done-Keeps p b v h

    store-Keeps : (p : Progress) (b : Bool) (w : W) → P p → Allows Keeps (with_store deps p b w)
    unfolding with_store
    store-Keeps p true w h = database-Keeps p p.database w h
    store-Keeps p false w h = clients_keep p w

    check_store-Keeps : (p : Progress) (w : W) → P p → Allows Keeps (check_store deps p w)
    unfolding check_store
    check_store-Keeps p w h =
        Allows-bind Keeps deps.store_enabled (with_store deps p) w λ b v. store-Keeps p b v h

    secrets_done-Keeps :
        (p : Progress) (b : Bool) (w : W) → P p → Allows Keeps (secrets_done deps p b w)
    unfolding secrets_done
    secrets_done-Keeps p true w h =
        check_store-Keeps (record p { secret_provider = true }) w (closed.secret_provider p h)
    secrets_done-Keeps p false w h = tt

    secrets_keep :
        (p : Progress) (b : Bool) (w : W) → P p → Allows Keeps (bring_up_secrets deps p b w)
    unfolding bring_up_secrets
    secrets_keep p true w h = check_store-Keeps p w h
    secrets_keep p false w h =
        Allows-bind Keeps deps.secret_provider (secrets_done deps p) w
          λ b v. secrets_done-Keeps p b v h

    version_checked-Keeps :
        (p : Progress) (b : Bool) (w : W) → P p → Allows Keeps (version_checked deps p b w)
    unfolding version_checked
    version_checked-Keeps p true w h = secrets_keep p p.secret_provider w h
    version_checked-Keeps p false w h = tt

    check_version-Keeps : (p : Progress) (w : W) → P p → Allows Keeps (check_version deps p w)
    unfolding check_version
    check_version-Keeps p w h =
        Allows-bind Keeps deps.version_match (version_checked deps p) w
          λ b v. version_checked-Keeps p b v h

    logger_done-Keeps :
        (p : Progress) (b : Bool) (w : W) → P p → Allows Keeps (logger_done deps p b w)
    unfolding logger_done
    logger_done-Keeps p true w h =
        check_version-Keeps (record p { logger = true }) w (closed.logger p h)
    logger_done-Keeps p false w h = h

    logger-Keeps :
        (p : Progress) (b : Bool) (w : W) → P p → Allows Keeps (bring_up_logger deps p b w)
    unfolding bring_up_logger
    logger-Keeps p true w h = check_version-Keeps p w h
    logger-Keeps p false w h =
        Allows-bind Keeps deps.logger (logger_done deps p) w λ b v. logger_done-Keeps p b v h

    configuration_done-Keeps :
        (p : Progress) (b : Bool) (w : W) → P p → Allows Keeps (configuration_done deps p b w)
    unfolding configuration_done
    configuration_done-Keeps p true w h =
        logger-Keeps (record p { configuration = true }) p.logger w (closed.configuration p h)
    configuration_done-Keeps p false w h = h

    configuration-Keeps :
        (p : Progress) (b : Bool) (w : W) → P p → Allows Keeps (bring_up_configuration deps p b w)
    unfolding bring_up_configuration
    configuration-Keeps p true w h = logger-Keeps p p.logger w h
    configuration-Keeps p false w h =
        Allows-bind Keeps deps.configuration (configuration_done deps p) w
          λ b v. configuration_done-Keeps p b v h

    round-Keeps : (p : Progress) (w : W) → P p → Allows Keeps (boot_round deps p w)
    unfolding boot_round
    round-Keeps p w h = configuration-Keeps p p.configuration w h

    next_same :
        (deps' : Dependencies W) (boot1 boot2 : Progress → Act W Outcome)
        → ((p : Progress) (w : W) → P p → boot1 p w ≡ boot2 p w)
        → (r : Round) (w : W) → Keeps r w
        → next_round deps boot1 r w ≡ next_round deps' boot2 r w
    unfolding next_round
    next_same deps' boot1 boot2 same (ended outcome) w h = refl
    next_same deps' boot1 boot2 same (again p) w h = same p w h

    -- Rounds that do the same wherever the predicate holds make the same loop.
    pub boot_same :
        (deps' : Dependencies W)
        → ((p : Progress) (w : W) → P p → boot_round deps p w ≡ boot_round deps' p w)
        → (n : ℕ) (p : Progress) (w : W) → P p
        → boot deps n p w ≡ boot deps' n p w
    unfolding boot
    boot_same deps' same zero p w h = refl
    boot_same deps' same (suc n) p w h =
        bind-same Keeps (boot_round deps p) (boot_round deps' p) (next_round deps (boot deps n))
          (next_round deps' (boot deps' n)) w (same p w h) (round-Keeps p w h)
          (next_same deps' (boot deps n) (boot deps' n) (boot_same deps' same n))
