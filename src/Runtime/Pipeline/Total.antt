-- ===== src/Runtime/Pipeline/Total.antt =====
-- internal/runtime/runtime.go: a retry of functions that do not panic returns.
use app_functions_sdk_go.Runtime.Pipeline.Passes.{no_retry_data}
use app_functions_sdk_go.Runtime.Pipeline.{
  params, MessageError, execute_pipeline, after_call, loop, stopped,
}
use app_functions_sdk_go.Runtime.Types.{GolangRuntime}
use app_functions_sdk_go.AppContext.{Reply, error, Value, Context, AppFunction}
use app_functions_sdk_go.Prelude.{
  Ensures-bind, inr, inl, ltb, Bool-cases, suc, Act, true, All, Option, ℕ, Ensures, List, Str, [],
  ◌∷◌, none, some,
}

abbrev pub Anything : {W A : Type 0} → A → W → Type 0
Anything _ _ = Unit

-- The function returns whatever it is called with.
abbrev pub NeverPanics : {W : Type 0} → AppFunction W → Type 0
NeverPanics {W} f =
    (context : Context W) (args : List Value) (w : W) → Ensures Anything (f.call context args w)

module _ {W : Type 0} (gr : GolangRuntime W) (target : Value) (content_type : Str) where
  stopped-returns :
      (context : Context W) (i : ℕ) (result : Option Value) (w : W)
      → Ensures Anything (stopped gr true context i result w)
  unfolding stopped
  stopped-returns context i none w = tt
  stopped-returns context i (some (error e)) w = tt
  stopped-returns context i (some _) w = tt

  after_call-returns :
      (i : ℕ) (go_on : Option Value → Context W → Act W (Context W × Option MessageError))
      → ((r : Option Value) (c : Context W) (w : W) → Ensures Anything (go_on r c w))
      → (reply : Reply W) (w : W) → Ensures Anything (after_call gr true i go_on reply w)
  unfolding after_call
  after_call-returns i go_on rest reply w = elim (Bool-cases reply.continue_pipeline) [
    | inl on ↦ rw on (rest reply.result reply.context w)
    | inr off ↦ rw off (stopped-returns reply.context i reply.result w)
  ]

  loop-returns :
      (start : ℕ) (fs : List (AppFunction W)) (i : ℕ) (result : Option Value) (context : Context W)
      (w : W)
      → All NeverPanics fs
      → Ensures Anything (loop gr target content_type true start fs i result context w)
  unfolding loop
  loop-returns start [] i result context w all = tt
  loop-returns start (f ∷ fs) i result context w all =
      let rest =
        λ (r : Option Value) (c : Context W) (v : W). loop-returns start fs (suc i) r c v all.1 in
      elim (Bool-cases (ltb i start)) [
        | inl earlier ↦ rw earlier (rest result context w)
        | inr now ↦ rw now (
            Ensures-bind Anything Anything
              (f.call (no_retry_data context) (params target content_type result)) _ w
              (all.0 (no_retry_data context) (params target content_type result) w)
              (λ reply v _. after_call-returns i _ rest reply v))
      ]

  -- A retry of functions none of which panics returns: it does not panic.
  pub execute_pipeline-returns :
      (context : Context W) (transforms : List (AppFunction W)) (start : ℕ) (w : W)
      → All NeverPanics transforms
      → Ensures Anything (execute_pipeline gr target content_type context transforms start true w)
  unfolding execute_pipeline
  execute_pipeline-returns context transforms start w all =
      loop-returns start transforms 0 none (record context { secret_provider = gr.secret_provider })
        w all
