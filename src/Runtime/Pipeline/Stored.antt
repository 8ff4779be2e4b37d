-- ===== src/Runtime/Pipeline/Stored.antt =====
-- internal/runtime/runtime.go: what `ExecutePipeline` does at the function that stops it.
use app_functions_sdk_go.Runtime.Pipeline.Passes.{loop_step, loop-append, no_retry_data, Passes}
use app_functions_sdk_go.Runtime.Pipeline.{
  item_for_retry, status_unprocessable_entity, StoreClient, MessageError, after_call, params,
  stopped, execute_pipeline,
}
use app_functions_sdk_go.Runtime.Types.{GolangRuntime}
use app_functions_sdk_go.AppContext.{error, GoError, Reply, Context, AppFunction, Value}
use app_functions_sdk_go.Prelude.{
  pure, refl, ◌>>◌, ◌⊎◌, true, Bytes, arith, ◌∙◌, false, length, returns, ◌≡◌, none, ◌∷◌, some, ◌≢◌,
  ◌++◌, Option, List, Str, ℕ, Bool,
}

abbrev pub unprocessable : GoError → MessageError
unprocessable e = record { error = e; error_code = status_unprocessable_entity }

module _ {W : Type 0} (gr : GolangRuntime W) where
  stopped_quietly :
      (is_retry : Bool) (context : Context W) (i : ℕ) (r : Option Value) (w : W)
      → ((e : GoError) → r ≢ some (error e))
      → stopped gr is_retry context i r w ≡ returns ((context, none), w)
  unfolding stopped
  stopped_quietly is_retry context i none w h = refl
  stopped_quietly is_retry context i (some (error e)) w h = absurd (h e refl)
  stopped_quietly is_retry context i (some _) w h = refl

  module _ (context : Context W) (i : ℕ) (e : GoError) (w : W) where
    stored_with :
        (data_bytes : Bytes) (client : StoreClient W)
        → context.retry_data ≡ some data_bytes
        → context.configuration.writable.store_and_forward.enabled ≡ true
        → gr.store_forward.runtime_set ≡ true
        → gr.store_forward.store_client ≡ some client
        → stopped gr false context i (some (error e)) w
          ≡ (do
            client.store (item_for_retry gr data_bytes context i)
            pure (context, some (unprocessable e)))
              w
    unfolding stopped
    stored_with data_bytes client retry_data enabled set has_client =
        rw (retry_data, set, enabled, has_client) (ground arith)

module _ {W : Type 0} (gr : GolangRuntime W) where
  not_stored :
      (is_retry : Bool) (context : Context W) (i : ℕ) (e : GoError) (w : W)
      → gr.store_forward.runtime_set ≡ true
      → (is_retry ≡ true)
        ⊎ (context.retry_data ≡ none)
        ⊎ (context.configuration.writable.store_and_forward.enabled ≡ false)
      → stopped gr is_retry context i (some (error e)) w
        ≡ returns ((context, some (unprocessable e)), w)
  unfolding stopped
  not_stored is_retry context i e w set because = ground arith

module _ {W : Type 0} (target : Value) (content_type : Str) (gr : GolangRuntime W) where
  -- A pass whose functions `before` all continue, and whose next function replies and stops it.
  pub record StopsAt (is_retry : Bool) (before : List (AppFunction W)) (f : AppFunction W)
      (c0 : Context W) (w0 : W) (reply : Reply W) (w1 : W) : Type 0 where
    pub result : Option Value
    pub context : Context W
    pub world : W
    pub passed :
        Passes target content_type before none
          (record c0 { secret_provider = gr.secret_provider })
          w0
          result
          context
          world
    pub called :
        f.call (no_retry_data context) (params target content_type result) world
        ≡ returns (reply, w1)
    pub stops : reply.continue_pipeline ≡ false

  module _ {is_retry : Bool} {before : List (AppFunction W)} {f : AppFunction W} {c0 : Context W}
      {w0 : W} {reply : Reply W} {w1 : W} (after : List (AppFunction W))
      (at_f : StopsAt is_retry before f c0 w0 reply w1) where
    execute_pipeline-stopped :
        execute_pipeline gr target content_type c0 (before ++ f ∷ after) 0 is_retry w0
        ≡ stopped gr is_retry reply.context (length before) reply.result w1
    unfolding execute_pipeline
    execute_pipeline-stopped =
        loop-append target content_type gr is_retry (f ∷ after) 0 (length before) at_f.passed
          (omega arith)
        ∙ (loop_step target content_type gr is_retry f at_f.result at_f.context at_f.world 0 after
              (length before) reply (omega arith) at_f.called
            ∙ unfold after_call in rw at_f.stops)

    -- A function that stops the pipeline with anything but an error, as a filter does, ends the
    -- pass with no error: no later function runs, and nothing is stored.
    pub filter_ends_pass :
        ((e : GoError) → reply.result ≢ some (error e))
        → execute_pipeline gr target content_type c0 (before ++ f ∷ after) 0 is_retry w0
          ≡ returns ((reply.context, none), w1)
    filter_ends_pass no_error =
        execute_pipeline-stopped
        ∙ stopped_quietly gr is_retry reply.context (length before) reply.result w1 no_error

    module _ (e : GoError) (fails : reply.result ≡ some (error e)) where
      -- When a function fails with an error in a pass that is no retry, with retry data set and
      -- Store and Forward enabled, no later function runs; the store is handed one object, with
      -- the retry data, the position of that function, the pipeline hash and the ids of the
      -- context; and whatever the store answers, the pass ends with that error and code 422.
      pub failure_is_stored :
          (data_bytes : Bytes) (client : StoreClient W)
          → is_retry ≡ false
          → reply.context.retry_data ≡ some data_bytes
          → reply.context.configuration.writable.store_and_forward.enabled ≡ true
          → gr.store_forward.runtime_set ≡ true
          → gr.store_forward.store_client ≡ some client
          → execute_pipeline gr target content_type c0 (before ++ f ∷ after) 0 is_retry w0
            ≡ (do
              client.store (item_for_retry gr data_bytes reply.context (length before))
              pure (reply.context, some (unprocessable e)))
                w1
      failure_is_stored data_bytes client first retry_data enabled set has_client =
          execute_pipeline-stopped
          ∙ rw (fails, first)
              (stored_with gr reply.context (length before) e w1 data_bytes client retry_data
                enabled set has_client)

      -- When a function fails with an error in a retry, or with no retry data set, or with Store
      -- and Forward disabled, no later function runs, nothing is stored, and the pass ends with
      -- that error and code 422.
      pub failure_is_not_stored :
          gr.store_forward.runtime_set ≡ true
          → (is_retry ≡ true)
            ⊎ (reply.context.retry_data ≡ none)
            ⊎ (reply.context.configuration.writable.store_and_forward.enabled ≡ false)
          → execute_pipeline gr target content_type c0 (before ++ f ∷ after) 0 is_retry w0
            ≡ returns ((reply.context, some (unprocessable e)), w1)
      failure_is_not_stored set because =
          execute_pipeline-stopped
          ∙ rw fails (not_stored gr is_retry reply.context (length before) e w1 set because)
