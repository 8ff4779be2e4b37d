-- ===== src/Runtime/Pipeline/Resume.antt =====
-- internal/runtime/runtime.go: `ExecutePipeline` from a later position, as a retry calls it.
use app_functions_sdk_go.Runtime.Pipeline.Passes.{no_retry_data}
use app_functions_sdk_go.Runtime.Types.{StoreForwardInfo}
use app_functions_sdk_go.Runtime.Pipeline.{
  MessageError, after_call, params, GolangRuntime, loop, stopped, execute_pipeline,
}
use app_functions_sdk_go.AppContext.{Reply, error, AppFunction, Context, Value}
use app_functions_sdk_go.Prelude.{
  ap, inr, Act, inl, Bool-cases, bind_cong, refl, [], ◌∷◌, suc, false, ltb, ◌∙◌, arith, none, ◌+◌,
  length, some, ◌++◌, ◌≡◌, ◌≤◌, true, Option, List, Str, ℕ,
}

module _ {W : Type 0} (target : Value) (content_type : Str) where
  -- A retry stores nothing: neither the runtime's store nor the position of a function matters.
  stopped_on_retry :
      (gr gr' : GolangRuntime W) (context : Context W) (i i' : ℕ) (result : Option Value)
      → stopped gr true context i result ≡ stopped gr' true context i' result
  unfolding stopped
  stopped_on_retry gr gr' context i i' none = refl
  stopped_on_retry gr gr' context i i' (some (error e)) = refl
  stopped_on_retry gr gr' context i i' (some _) = refl

  after_on_retry :
      (gr gr' : GolangRuntime W) (i i' : ℕ)
      {go_on go_on' : Option Value → Context W → Act W (Context W × Option MessageError)}
      → ((r : Option Value) (c : Context W) (w : W) → go_on r c w ≡ go_on' r c w)
      → (reply : Reply W) (w : W)
      → after_call gr true i go_on reply w ≡ after_call gr' true i' go_on' reply w
  unfolding after_call
  after_on_retry gr gr' i i' same reply w = elim (Bool-cases reply.continue_pipeline) [
    | inl on ↦ rw on (same reply.result reply.context w)
    | inr off ↦ rw off (ap (λ m. m w) (stopped_on_retry gr gr' reply.context i i' reply.result))
  ]

  -- The loop, over two runtimes.
  loop_store_free :
      (gr gr' : GolangRuntime W) (start i : ℕ) (fs : List (AppFunction W)) (result : Option Value)
      (context : Context W) (w : W)
      → loop gr target content_type true start fs i result context w
        ≡ loop gr' target content_type true start fs i result context w
  unfolding loop
  loop_store_free gr gr' start i [] result context w = refl
  loop_store_free gr gr' start i (f ∷ fs) result context w =
      let rest = loop_store_free gr gr' start (suc i) fs in
      elim (Bool-cases (ltb i start)) [
        | inl earlier ↦ rw earlier (rest result context w)
        | inr now ↦ rw now (
            bind_cong (f.call (no_retry_data context) (params target content_type result))
              (after_on_retry gr gr' i i rest) w)
      ]

  -- The loop, from two positions that skip nothing.
  loop_shift :
      (gr : GolangRuntime W) (start start' i i' : ℕ) (fs : List (AppFunction W))
      (result : Option Value) (context : Context W) (w : W)
      → start ≤ i
      → start' ≤ i'
      → loop gr target content_type true start fs i result context w
        ≡ loop gr target content_type true start' fs i' result context w
  unfolding loop
  loop_shift gr start start' i i' [] result context w h h' = refl
  loop_shift gr start start' i i' (f ∷ fs) result context w h h' =
      let now : ltb i start ≡ false = ground arith in
      let now' : ltb i' start' ≡ false = ground arith in
      let rest = λ (r : Option Value) (c : Context W) (v : W).
        loop_shift gr start start' (suc i) (suc i') fs r c v (omega arith) (omega arith) in
      rw (now, now')
        (bind_cong (f.call (no_retry_data context) (params target content_type result))
          (after_on_retry gr gr i i' rest) w)

  loop_skips :
      (gr : GolangRuntime W) (before after : List (AppFunction W)) (i j : ℕ) (result : Option Value)
      (context : Context W) (w : W)
      → j ≡ i + length before
      → loop gr target content_type true j (before ++ after) i result context w
        ≡ loop gr target content_type true j after j result context w
  unfolding loop
  loop_skips gr [] after i j result context w e = let same : j ≡ i = omega arith in rw same
  loop_skips gr (f ∷ before) after i j result context w e =
      let earlier : ltb i j ≡ true = ground arith in
      rw earlier (loop_skips gr before after (suc i) j result context w (omega arith))

  -- A retry that starts at a position skips the functions before it and nothing else: it has the
  -- outcome and the effects of the rest of the pipeline by itself.
  pub resume_at_position :
      (gr : GolangRuntime W) (context : Context W) (before after : List (AppFunction W)) (w : W)
      → execute_pipeline gr target content_type context (before ++ after) (length before) true w
        ≡ execute_pipeline gr target content_type context after 0 true w
  unfolding execute_pipeline
  resume_at_position gr context before after w =
      let c = record context { secret_provider = gr.secret_provider } in
      loop_skips gr before after 0 (length before) none c w (omega arith)
      ∙ loop_shift gr (length before) 0 (length before) 0 after none c w (omega arith) (omega arith)

  -- A retry never stores: whatever store, state and pipeline hash the runtime has for Store and
  -- Forward, the pass has the same outcome and the same effects.
  pub retry_never_stores :
      (gr : GolangRuntime W) (other_store : StoreForwardInfo W) (context : Context W)
      (transforms : List (AppFunction W)) (start : ℕ) (w : W)
      → execute_pipeline gr target content_type context transforms start true w
        ≡ execute_pipeline
            (record gr { store_forward = other_store })
            target
            content_type
            context
            transforms
            start
            true
            w
  unfolding execute_pipeline
  retry_never_stores gr other_store context transforms start w =
      loop_store_free gr (record gr { store_forward = other_store }) start 0 transforms none
        (record context { secret_provider = gr.secret_provider }) w
