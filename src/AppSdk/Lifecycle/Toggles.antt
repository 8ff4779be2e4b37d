-- ===== src/AppSdk/Lifecycle/Toggles.antt =====
-- appsdk/sdk.go: the change of `Enabled` keeps the retry loop running while Store and Forward is
-- enabled.
use app_functions_sdk_go.Prelude.{
  [], none, some, true, false, Str, Bool, Option, Act, ◌≡◌, refl, ℤ, ap, ◌∙◌, sym, Allows,
  Allows-bind, Allows-then, Allows-Ensures, not,
}
use app_functions_sdk_go.AppSdk.Pipeline.Kept.{Ready}
use mathlib.Core.Path.{subst}
use app_functions_sdk_go.AppContext.{Result, GoError, Ref}
use app_functions_sdk_go.Runtime.{GolangRuntime, initialize}
use app_functions_sdk_go.Store.{StoreClient}
use app_functions_sdk_go.Store.Factory.{ClientValue, MongoOptions, new_store_client}
use app_functions_sdk_go.Store.Mongo.{Collection}
use app_functions_sdk_go.Security.{get_database_credentials}
use app_functions_sdk_go.AppSdk.Lifecycle.{
  Service, section, with_client, client_made, initialize_store_client, enabled_with, toggled,
  is_nil_value, start_store_forward, stop_store_forward,
}
use app_functions_sdk_go.AppSdk.Lifecycle.Loops.{
  Loops, WellFormed, well_formed, start_store_forward-WellFormed, stop_store_forward-WellFormed,
}

module _ {W : Type 0} (env : Str) (parse_duration : Str → Option ℤ) (itoa : ℤ → Str)
    (connect : MongoOptions → Act W (Result (Collection W))) where
  -- The client and the credentials may change, and nothing that concerns the loops.
  pub record Kept (s t : Service W) : Type 0 where
    pub section_same : section t ≡ section s
    pub running_same : t.running ≡ s.running
    pub runtime_same : t.sdk.runtime ≡ s.sdk.runtime

  initialize_store_client-Kept :
      (s : Service W) (w : W)
      → Allows (λ r w'. Kept s r.0) (initialize_store_client env parse_duration itoa connect s w)
  unfolding initialize_store_client
  initialize_store_client-Kept s w =
      Allows-bind (λ r w'. Kept s r.0) (get_database_credentials env _ s.sdk.config.database) _ w
        λ found w1.
          Allows-bind (λ r w'. Kept s r.0) (new_store_client parse_duration itoa connect _ s.redis)
            _ w1 λ made w2. record { section_same = refl; running_same = refl; runtime_same = refl }

  module _ (client_of : ClientValue W → Option (StoreClient W)) (secrets : Ref) where
    with_client-Ready :
        (s : Service W) (runtime : Option (GolangRuntime W)) (w : W)
        → Allows
            (λ t w'. (section t ≡ section s) × (t.running ≡ s.running) × Ready t.sdk.runtime)
            (with_client env parse_duration itoa connect client_of secrets s runtime w)
    unfolding with_client initialize
    with_client-Ready s none w = tt
    with_client-Ready s (some runtime) w = (refl, refl, refl)

    client_made-WellFormed :
        (s : Service W) (w : W)
        → (section s).enabled ≡ true
        → s.running ≡ []
        → Ready s.sdk.runtime
        → (made : Service W × Option GoError) (w' : W) → Kept s made.0
        → Allows
            (λ t w''. WellFormed t)
            (client_made env parse_duration itoa connect client_of secrets made w')
    unfolding client_made
    client_made-WellFormed s w on none_runs ready (t, some e) w' kept =
        well_formed _ false refl (kept.running_same ∙ none_runs)
          (subst Ready (sym kept.runtime_same) ready)
    client_made-WellFormed s w on none_runs ready (t, none) w' kept =
        Allows-then
          (λ t' w''. (section t' ≡ section t) × (t'.running ≡ t.running) × Ready t'.sdk.runtime)
          (λ t w''. WellFormed t)
          (with_client env parse_duration itoa connect client_of secrets t t.sdk.runtime)
          start_store_forward w' (with_client-Ready t t.sdk.runtime w')
          λ t' w'' (same, runs, ready').
            Allows-Ensures (λ t w''. WellFormed t) (start_store_forward t' w'')
              (start_store_forward-WellFormed t' w''
                (ap (λ info. info.enabled) (same ∙ kept.section_same) ∙ on)
                (runs ∙ kept.running_same ∙ none_runs) ready')

    enabled_with-WellFormed :
        (s : Service W) (nil : Bool) (w : W)
        → (section s).enabled ≡ true
        → s.running ≡ []
        → Ready s.sdk.runtime
        → Allows
            (λ t w'. WellFormed t)
            (enabled_with env parse_duration itoa connect client_of secrets s nil w)
    unfolding enabled_with
    enabled_with-WellFormed s false w on none_runs ready =
        Allows-Ensures (λ t w'. WellFormed t) (start_store_forward s w)
          (start_store_forward-WellFormed s w on none_runs ready)
    enabled_with-WellFormed s true w on none_runs ready =
        Allows-then (λ made w'. Kept s made.0) (λ t w'. WellFormed t)
          (initialize_store_client env parse_duration itoa connect s)
          (client_made env parse_duration itoa connect client_of secrets) w
          (initialize_store_client-Kept s w) (client_made-WellFormed s w on none_runs ready)

    -- Before the change the loops were those of the other value.
    pub toggled-WellFormed :
        (s : Service W) (b : Bool) (w : W)
        → (section s).enabled ≡ b
        → Loops (not b) s.cancel s.running
        → Ready s.sdk.runtime
        → Allows
            (λ t w'. WellFormed t)
            (toggled env parse_duration itoa connect client_of secrets s b w)
    unfolding toggled
    toggled-WellFormed s true w on loops ready =
        enabled_with-WellFormed s (is_nil_value s.store_client) w on loops ready
    toggled-WellFormed s false w off loops ready =
        Allows-Ensures (λ t w'. WellFormed t) (stop_store_forward s w)
          (stop_store_forward-WellFormed s w off loops ready)
