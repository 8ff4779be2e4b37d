-- ===== src/Runtime/Retry/Loop.antt =====
-- internal/runtime/storeforward.go: the loop of `startStoreAndForwardRetryLoop`. What its `select`
-- receives, one after the other, is a list of events.
use app_functions_sdk_go.Prelude.{
  [], ◌∷◌, ℕ, zero, suc, Str, Bool, true, false, List, Option, Act, pure, ◌>>◌, ◌++◌, replicate,
  ◌≡◌, refl, bind_cong, bind_assoc, ◌∙◌,
}
use app_functions_sdk_go.Common.{ConfigurationStruct}
use app_functions_sdk_go.AppContext.{EventClient}
use app_functions_sdk_go.Runtime.Types.{GolangRuntime}
use app_functions_sdk_go.Runtime.Retry.{retry_stored_data}

-- The application ends, Store and Forward is disabled, or the interval has passed.
pub data LoopEvent : Type 0 where
  app_done : LoopEvent
  disabled : LoopEvent
  elapsed : LoopEvent

-- Whether the event ends the loop.
abbrev pub ends : LoopEvent → Bool
ends app_done = true
ends disabled = true
ends elapsed = false

module _ {W : Type 0} (gr : GolangRuntime W) (config : ConfigurationStruct)
    (event_client : Option (EventClient W)) (service_key : Str) where
  -- One round.
  abbrev pub retry : Act W (Unit {0})
  retry = retry_stored_data gr config event_client service_key

  -- With whether the loop was left, so that the wait groups are done.
  unfoldable pub retry_loop : List LoopEvent → Act W Bool
  retry_loop [] = pure false
  retry_loop (app_done ∷ events) = pure true
  retry_loop (disabled ∷ events) = pure true
  retry_loop (elapsed ∷ events) = retry >> retry_loop events

  abbrev pub rounds : ℕ → Act W (Unit {0})
  rounds zero = pure tt
  rounds (suc n) = retry >> rounds n

  -- The retry loop does one round for each interval that passes before the application ends or
  -- Store and Forward is disabled, and none after: it is left then, whatever would come later.
  pub retry_loop-ends :
      (n : ℕ) (event : LoopEvent) (events : List LoopEvent) (w : W)
      → ends event ≡ true
      → retry_loop (replicate n elapsed ++ (event ∷ events)) w ≡ (rounds n >> pure true) w
  unfolding retry_loop
  retry_loop-ends zero app_done events w h = refl
  retry_loop-ends zero disabled events w h = refl
  retry_loop-ends zero elapsed events w h = absurd (cc h)
  retry_loop-ends (suc n) event events w h =
      bind_cong retry (λ u v. retry_loop-ends n event events v h) w
      ∙ bind_assoc retry (λ u. rounds n) (λ u. pure true) w
