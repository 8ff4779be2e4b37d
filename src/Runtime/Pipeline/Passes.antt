-- ===== src/Runtime/Pipeline/Passes.antt =====
-- internal/runtime/runtime.go: `ExecutePipeline` over functions that continue, and the function
-- that stops it.
use mathlib.Core.List.{append-nil}
use app_functions_sdk_go.Prelude.{
  Act, ◌>>=◌, ltb, ◌∙◌, ◌≤◌, ℕ, suc, ◌+◌, Str, ◌≡◌, Bool, true, false, Option, none, List, [], ◌∷◌,
  ◌++◌, arith, returns, length,
}
use app_functions_sdk_go.AppContext.{Value, Context, Reply, AppFunction}
use app_functions_sdk_go.Runtime.Types.{GolangRuntime}
use app_functions_sdk_go.Runtime.Pipeline.{MessageError, params, loop, execute_pipeline, after_call}

abbrev pub no_retry_data : {W : Type 0} → Context W → Context W
no_retry_data context = record context { retry_data = none }

module _ {W : Type 0} (target : Value) (content_type : Str) where
  -- `Passes fs r c w r' c' w'`: called one after the other, each with the result of the one
  -- before it, the functions `fs` all continue, and lead from `r`, `c`, `w` to `r'`, `c'`, `w'`.
  pub data Passes
      : List (AppFunction W)
        → Option Value
        → Context W
        → W
        → Option Value
        → Context W
        → W
        → Type 0 where
    done : {r : Option Value} {c : Context W} {w : W} → Passes [] r c w r c w
    next :
        {f : AppFunction W} {fs : List (AppFunction W)} {r r' : Option Value} {c c' : Context W}
        {w w1 w' : W} (reply : Reply W)
        → f.call (no_retry_data c) (params target content_type r) w ≡ returns (reply, w1)
        → reply.continue_pipeline ≡ true
        → Passes fs reply.result reply.context w1 r' c' w'
        → Passes (f ∷ fs) r c w r' c' w'

  module _ (gr : GolangRuntime W) (is_retry : Bool) where
    -- A function that is not skipped.
    pub loop_step :
        (f : AppFunction W) (r : Option Value) (c : Context W) (w : W) {w1 : W} (start : ℕ)
        (rest : List (AppFunction W)) (i : ℕ) (reply : Reply W)
        → start ≤ i
        → f.call (no_retry_data c) (params target content_type r) w ≡ returns (reply, w1)
        → loop gr target content_type is_retry start (f ∷ rest) i r c w
          ≡ after_call gr is_retry i
              (loop gr target content_type is_retry start rest (suc i))
              reply
              w1
    unfolding loop
    loop_step f r c w start rest i reply h called =
        let not_before : ltb i start ≡ false = ground arith in rw not_before (rw (called, ◌>>=◌))

    continues :
        (go_on : Option Value → Context W → Act W (Context W × Option MessageError))
        (reply : Reply W) (i : ℕ) {w : W}
        → reply.continue_pipeline ≡ true
        → after_call gr is_retry i go_on reply w ≡ go_on reply.result reply.context w
    unfolding after_call
    continues go_on reply i on = rw on

    pub loop-append :
        {fs : List (AppFunction W)} {r r' : Option Value} {c c' : Context W} {w w' : W}
        (rest : List (AppFunction W)) (i j : ℕ)
        → Passes fs r c w r' c' w'
        → j ≡ i + length fs
        → loop gr target content_type is_retry 0 (fs ++ rest) i r c w
          ≡ loop gr target content_type is_retry 0 rest j r' c' w'
    loop-append rest i j done e = let same : i ≡ j = omega arith in rw same
    loop-append rest i j (next {f = f} {fs = fs} {r = r} {c = c} {w = w} reply called on more) e =
        loop_step f r c w 0 (fs ++ rest) i reply (omega arith) called
        ∙ (continues (loop gr target content_type is_retry 0 (fs ++ rest) (suc i)) reply i on
            ∙ loop-append rest (suc i) j more (omega arith))

    -- The world and the context after functions that all continue are those of the last one.
    pub execute_pipeline-Passes :
        {fs : List (AppFunction W)} {r : Option Value} {c : Context W} {w' : W} (c0 : Context W)
        (w : W)
        → Passes fs none (record c0 { secret_provider = gr.secret_provider }) w r c w'
        → execute_pipeline gr target content_type c0 fs 0 is_retry w ≡ returns ((c, none), w')
    unfolding execute_pipeline
    execute_pipeline-Passes {fs} c0 w p =
        rw (append-nil fs) at (loop-append [] 0 (length fs) p (omega arith))
