-- ===== src/AppSdk/Bootstrap/Completes.antt =====
-- appsdk/sdk.go: the bootstrap loop completes once its dependencies are there.
use app_functions_sdk_go.Prelude.{
  ℕ, suc, true, false, Bool, Act, ◌>>=◌, ◌≡◌, refl, Ensures, Ensures-bind, sym, pure,
}
use mathlib.Core.Path.{subst}
use app_functions_sdk_go.AppSdk.Bootstrap.{
  Dependencies, Progress, Round, complete, ended, boot, boot_round, next_round, bring_up_clients,
  database_done, bring_up_database, with_store, check_store, secrets_done, bring_up_secrets,
  version_checked, check_version, logger_done, bring_up_logger, configuration_done,
  bring_up_configuration,
}

-- The call succeeds, whatever the state of the world.
abbrev pub Succeeds : {W : Type 0} → Act W Bool → Type 0
Succeeds m = (w : _) → Ensures (λ b v. b ≡ true) (m w)

abbrev pub Returns : {W A : Type 0} → Act W A → Type 0
Returns m = (w : _) → Ensures (λ a v. Unit {0}) (m w)

-- All dependencies are there; the store may be enabled or not.
pub record AreReady {W : Type 0} (deps : Dependencies W) : Type 0 where
  pub configuration : Succeeds deps.configuration
  pub logger : Succeeds deps.logger
  pub version_match : Succeeds deps.version_match
  pub secret_provider : Succeeds deps.secret_provider
  pub store_enabled : Returns deps.store_enabled
  pub database : Succeeds deps.database
  pub clients : Returns deps.clients

module _ {W : Type 0} where
  abbrev Completes : Act W Round → Type 0
  Completes m = (w : W) → Ensures (λ r v. r ≡ ended complete) (m w)

  after :
      (m : Act W Bool) (k : Bool → Act W Round)
      → Succeeds m
      → Completes (k true)
      → Completes (m >>= k)
  after m k succeeds rest w =
      Ensures-bind (λ b v. b ≡ true) (λ r v. r ≡ ended complete) m k w (succeeds w)
        λ b v h. subst (λ c. Ensures (λ r v. r ≡ ended complete) (k c v)) (sym h) (rest v)

  either :
      (k : Bool → Act W Round) (b : Bool)
      → Completes (k true)
      → Completes (k false)
      → Completes (k b)
  either k true p q = p
  either k false p q = q

  module _ (deps : Dependencies W) (ready : AreReady deps) where
    clients_complete : (p : Progress) → Completes (bring_up_clients deps p)
    unfolding bring_up_clients
    clients_complete p w =
        Ensures-bind (λ u v. Unit) (λ r v. r ≡ ended complete) deps.clients
          (λ u. pure (ended complete)) w (ready.clients w) λ u v h. refl

    store_completes : (p : Progress) (b : Bool) → Completes (with_store deps p b)
    unfolding with_store bring_up_database database_done
    store_completes p b =
        either (with_store deps p) b
          (either (bring_up_database deps p) p.database (clients_complete p) (
            after deps.database (database_done deps p) ready.database
              (clients_complete (record p { database = true }))))
          (clients_complete p)

    check_store_completes : (p : Progress) → Completes (check_store deps p)
    unfolding check_store
    check_store_completes p w =
        Ensures-bind (λ b v. Unit) (λ r v. r ≡ ended complete) deps.store_enabled
          (with_store deps p) w (ready.store_enabled w) λ b v h. store_completes p b v

    check_version_completes : (p : Progress) → Completes (check_version deps p)
    unfolding check_version version_checked bring_up_secrets secrets_done
    check_version_completes p =
        after deps.version_match (version_checked deps p) ready.version_match (
          either (bring_up_secrets deps p) p.secret_provider (check_store_completes p) (
            after deps.secret_provider (secrets_done deps p) ready.secret_provider
              (check_store_completes (record p { secret_provider = true }))))

    logger_completes : (p : Progress) (b : Bool) → Completes (bring_up_logger deps p b)
    unfolding bring_up_logger logger_done
    logger_completes p b = either (bring_up_logger deps p) b (check_version_completes p) (
        after deps.logger (logger_done deps p) ready.logger
          (check_version_completes (record p { logger = true })))

    round_completes : (p : Progress) → Completes (boot_round deps p)
    unfolding boot_round bring_up_configuration configuration_done
    round_completes p =
        either (bring_up_configuration deps p) p.configuration (logger_completes p p.logger) (
          after deps.configuration (configuration_done deps p) ready.configuration
            (logger_completes (record p { configuration = true }) p.logger))

    -- Where all dependencies can be brought up, the bootstrap loop completes in its first round,
    -- whatever was brought up before.
    pub boot-completes :
        (n : ℕ) (p : Progress) (w : W)
        → Ensures (λ outcome v. outcome ≡ complete) (boot deps (suc n) p w)
    unfolding boot next_round
    boot-completes n p w =
        Ensures-bind (λ r v. r ≡ ended complete) (λ outcome v. outcome ≡ complete)
          (boot_round deps p) (next_round deps (boot deps n)) w (round_completes p w)
          λ r v h.
            subst
              (λ r. Ensures (λ outcome v. outcome ≡ complete) (next_round deps (boot deps n) r v))
              (sym h) refl
