-- ===== src/Runtime/Pipeline/Codes.antt =====
-- internal/runtime/runtime.go: the error code of `ExecutePipeline`.
use app_functions_sdk_go.AppContext.{AppFunction, error, Reply, Value, Context}
use app_functions_sdk_go.Runtime.Pipeline.{
  params, save_for_retry, status_unprocessable_entity, MessageError, GolangRuntime,
  execute_pipeline, after_call, stopped, loop,
}
use app_functions_sdk_go.Prelude.{
  inr, ltb, inl, Bool-cases, suc, Allows-bind, Act, List, Allows, ℕ, ◌≡◌, Str, Bool, Option, refl,
  [], ◌∷◌, none, some,
}

-- An error of the pipeline has code 422.
abbrev pub PipelineCode : {W : Type 0} → Context W × Option MessageError → W → Type 0
PipelineCode (_, none) w = Unit
PipelineCode (_, some e) w = e.error_code ≡ status_unprocessable_entity

module _ {W : Type 0} where
  stopped-PipelineCode :
      (gr : GolangRuntime W) (is_retry : Bool) (context : Context W) (i : ℕ) (result : Option Value)
      (w : W)
      → Allows PipelineCode (stopped gr is_retry context i result w)
  unfolding stopped
  stopped-PipelineCode gr is_retry context i none w = tt
  stopped-PipelineCode gr is_retry context i (some (error e)) w =
      Allows-bind PipelineCode (save_for_retry gr is_retry context i context.retry_data) _ w
        (λ _ v. refl)
  stopped-PipelineCode gr is_retry context i (some _) w = tt

  after_call-PipelineCode :
      (gr : GolangRuntime W) (is_retry : Bool) (i : ℕ)
      (go_on : Option Value → Context W → Act W (Context W × Option MessageError))
      → ((r : Option Value) (c : Context W) (w : W) → Allows PipelineCode (go_on r c w))
      → (reply : Reply W) (w : W) → Allows PipelineCode (after_call gr is_retry i go_on reply w)
  unfolding after_call
  after_call-PipelineCode gr is_retry i go_on rest reply w =
      elim (Bool-cases reply.continue_pipeline) [
        | inl on ↦ rw on (rest reply.result reply.context w)
        | inr off ↦ rw off (stopped-PipelineCode gr is_retry reply.context i reply.result w)
      ]

  loop-PipelineCode :
      (gr : GolangRuntime W) (target : Value) (content_type : Str) (is_retry : Bool) (start : ℕ)
      (fs : List (AppFunction W)) (i : ℕ) (result : Option Value) (context : Context W) (w : W)
      → Allows PipelineCode (loop gr target content_type is_retry start fs i result context w)
  unfolding loop
  loop-PipelineCode gr target content_type is_retry start [] i result context w = tt
  loop-PipelineCode gr target content_type is_retry start (f ∷ fs) i result context w =
      let rest = loop-PipelineCode gr target content_type is_retry start fs (suc i) in
      elim (Bool-cases (ltb i start)) [
        | inl earlier ↦ rw earlier (rest result context w)
        | inr now ↦ rw now (
            Allows-bind PipelineCode
              (f.call (record context { retry_data = none }) (params target content_type result)) _
              w (λ reply v. after_call-PipelineCode gr is_retry i _ rest reply v))
      ]

  -- An error that `ExecutePipeline` returns has code 422.
  pub execute_pipeline-PipelineCode :
      (gr : GolangRuntime W) (target : Value) (content_type : Str) (context : Context W)
      (transforms : List (AppFunction W)) (start : ℕ) (is_retry : Bool) (w : W)
      → Allows PipelineCode
          (execute_pipeline gr target content_type context transforms start is_retry w)
  unfolding execute_pipeline
  execute_pipeline-PipelineCode gr target content_type context transforms start is_retry w =
      loop-PipelineCode gr target content_type is_retry start transforms 0 none
        (record context { secret_provider = gr.secret_provider }) w
