-- ===== src/AppSdk/Lifecycle/Loops.antt =====
-- appsdk/sdk.go: the retry loop runs while Store and Forward is enabled, across the updates of the
-- configuration.
use app_functions_sdk_go.Prelude.{
  Ensures-map, [], ◌∷◌, none, some, true, false, Bool, Option, List, ◌≡◌, refl, ℕ, suc, ap, ◌∙◌,
  sym, arith, Ensures, Ensures-bind,
}
use app_functions_sdk_go.AppSdk.Pipeline.Kept.{Ready}
use mathlib.Core.Path.{subst}
use app_functions_sdk_go.Runtime.{GolangRuntime}
use app_functions_sdk_go.AppSdk.Lifecycle.{
  restarted, Service, section, without, start_loop, start_store_forward, stop_loop,
  stop_store_forward, process_retry_interval,
}

-- Where Store and Forward is enabled one loop runs, the one that can be cancelled, and else none.
abbrev pub Loops : Bool → Option ℕ → List ℕ → Type 0
Loops true (some loop) running = running ≡ loop ∷ []
Loops true none running = ⊥
Loops false cancel running = running ≡ []

pub record WellFormed {W : Type 0} (s : Service W) : Type 0 where
  pub loops : Loops (section s).enabled s.cancel s.running
  pub ready : Ready s.sdk.runtime

pub without-one : (n : ℕ) → without n (n ∷ []) ≡ []
without-one n = ground arith

module _ {W : Type 0} (s : Service W) (w : W) where
  abbrev with_no_loop : Service W
  with_no_loop = record s { running = [] }

  abbrev started_one : Service W
  started_one = record s {
    cancel = some s.started;
    running = s.started ∷ s.running;
    started = suc s.started;
  }

  stop_loop-stops :
      (cancel : Option ℕ)
      → Loops true cancel s.running
      → Ensures (λ s' w'. s' ≡ with_no_loop) (stop_loop s cancel w)
  unfolding stop_loop
  stop_loop-stops none l = absurd l
  stop_loop-stops (some loop) l =
      ap (λ running. record s { running = running }) (ap (without loop) l ∙ without-one loop)

  pub stop_store_forward-stops :
      Loops true s.cancel s.running → Ensures (λ s' w'. s' ≡ with_no_loop) (stop_store_forward s w)
  unfolding stop_store_forward
  stop_store_forward-stops = stop_loop-stops s.cancel

  start_loop-starts :
      (runtime : Option (GolangRuntime W))
      → Ready runtime
      → Ensures (λ s' w'. s' ≡ started_one) (start_loop s runtime w)
  unfolding start_loop
  start_loop-starts none ready = absurd ready
  start_loop-starts (some runtime) ready = refl

  pub start_store_forward-starts :
      Ready s.sdk.runtime → Ensures (λ s' w'. s' ≡ started_one) (start_store_forward s w)
  unfolding start_store_forward
  start_store_forward-starts = start_loop-starts s.sdk.runtime

module _ {W : Type 0} where
  pub well_formed :
      (s : Service W) (b : Bool)
      → (section s).enabled ≡ b
      → Loops b s.cancel s.running
      → Ready s.sdk.runtime
      → WellFormed s
  well_formed s b h loops ready = record {
    loops = subst (λ e. Loops e s.cancel s.running) (sym h) loops;
    ready = ready;
  }

  pub Loops-at :
      (s : Service W) (b : Bool)
      → (section s).enabled ≡ b
      → WellFormed s
      → Loops b s.cancel s.running
  Loops-at s b h wf = subst (λ e. Loops e s.cancel s.running) h wf.loops

  -- A start from no loop.
  pub start_store_forward-WellFormed :
      (s : Service W) (w : W)
      → (section s).enabled ≡ true
      → s.running ≡ []
      → Ready s.sdk.runtime
      → Ensures (λ s' w'. WellFormed s') (start_store_forward s w)
  start_store_forward-WellFormed s w enabled none_runs ready =
      Ensures-map (λ s' w'. s' ≡ started_one s w) (λ s' w'. WellFormed s') (start_store_forward s w)
        (start_store_forward-starts s w ready)
        λ s' w' same.
          subst WellFormed (sym same)
            (well_formed (started_one s w) true enabled (ap (λ l. s.started ∷ l) none_runs) ready)

  pub stop_store_forward-WellFormed :
      (s : Service W) (w : W)
      → (section s).enabled ≡ false
      → Loops true s.cancel s.running
      → Ready s.sdk.runtime
      → Ensures (λ s' w'. WellFormed s') (stop_store_forward s w)
  stop_store_forward-WellFormed s w disabled loops ready =
      Ensures-map (λ s' w'. s' ≡ with_no_loop s w) (λ s' w'. WellFormed s') (stop_store_forward s w)
        (stop_store_forward-stops s w loops)
        λ s' w' same.
          subst WellFormed (sym same) (well_formed (with_no_loop s w) false disabled refl ready)

  restarted-WellFormed :
      (s : Service W) (w : W) (b : Bool)
      → (section s).enabled ≡ b
      → WellFormed s
      → Ensures (λ s' w'. WellFormed s') (restarted s b w)
  unfolding restarted
  restarted-WellFormed s w false h wf = wf
  restarted-WellFormed s w true h wf =
      Ensures-bind (λ s' w'. s' ≡ with_no_loop s w) (λ s' w'. WellFormed s') (stop_store_forward s)
        start_store_forward w (stop_store_forward-stops s w (Loops-at s true h wf))
        λ s' w' same.
          subst (λ t. Ensures (λ s'' w''. WellFormed s'') (start_store_forward t w')) (sym same)
            (start_store_forward-WellFormed (with_no_loop s w) w' h refl wf.ready)

  pub process_retry_interval-WellFormed :
      (s : Service W) (w : W)
      → WellFormed s
      → Ensures (λ s' w'. WellFormed s') (process_retry_interval s w)
  unfolding process_retry_interval
  process_retry_interval-WellFormed s w wf = restarted-WellFormed s w (section s).enabled refl wf
