-- ===== src/Runtime/Pipeline.antt =====
-- internal/runtime/runtime.go: `ExecutePipeline`, `Initialize`, `SetTransforms`; and
-- `storeForLaterRetry` and `calculatePipelineHash` of storeforward.go, which they call. The mutex
-- `isBusyCopying` makes the copy of the transforms and their update atomic; each is one step here.
pub mod Passes
pub mod Stored
pub mod Resume
pub mod Codes
pub mod Total
use app_functions_sdk_go.Prelude.{
  ℕ, suc, Str, Bytes, Bool, true, false, Option, none, some, List, [], ◌∷◌, ◌++◌, Act, pure, panic,
  ◌>>=◌, ◌>>◌, ltb, str, if◌then◌else◌,
}
use app_functions_sdk_go.AppContext.{Value, string, error, Context, Reply, AppFunction, Ref}
use app_functions_sdk_go.Store.{StoredObject, StoreClient, new_stored_object}
use app_functions_sdk_go.Runtime.Types.{GolangRuntime, MessageError}

abbrev pub status_unprocessable_entity : ℕ
status_unprocessable_entity = 422

-- The arguments of the next function.
abbrev pub params : Value → Str → Option Value → List Value
params target content_type none = target ∷ string content_type ∷ []
params target content_type (some result) = result ∷ []

module _ {W : Type 0} where
  -- The loop of `calculatePipelineHash`.
  pub hash_from : Str → List (AppFunction W) → Str
  hash_from hash [] = hash
  hash_from hash (item ∷ items) = hash_from ((hash ++ str " ") ++ item.name) items

  unfoldable pub calculate_pipeline_hash : List (AppFunction W) → Str
  unfolding hash_from
  calculate_pipeline_hash transforms = hash_from (str "Pipeline-functions: ") transforms

  -- The object that `storeForLaterRetry` builds.
  abbrev pub item_for_retry : GolangRuntime W → Bytes → Context W → ℕ → StoredObject
  item_for_retry gr payload context position =
      record (new_stored_object gr.service_key payload position gr.store_forward.pipeline_hash) {
        correlation_id = context.correlation_id;
        event_id = context.event_id;
        event_checksum = context.event_checksum;
      }

  -- A failure of the store is logged, and has no other effect. A nil client panics.
  pub store_item : Option (StoreClient W) → StoredObject → Act W (Unit {0})
  store_item none item = panic
  store_item (some client) item = do client.store item; pure tt

  unfoldable pub store_for_later_retry : GolangRuntime W → Bytes → Context W → ℕ → Act W (Unit {0})
  unfolding store_item
  store_for_later_retry gr payload context position =
      if gr.store_forward.runtime_set
      then (if context.configuration.writable.store_and_forward.enabled
          then store_item gr.store_forward.store_client (item_for_retry gr payload context position)
          else pure tt)
      else panic

  -- `if edgexcontext.RetryData != nil && !isRetry`
  pub save_for_retry : GolangRuntime W → Bool → Context W → ℕ → Option Bytes → Act W (Unit {0})
  unfolding store_for_later_retry
  save_for_retry gr true context position payload = pure tt
  save_for_retry gr false context position none = pure tt
  save_for_retry gr false context position (some payload) =
      store_for_later_retry gr payload context position

  -- What follows a function that stops the pipeline: only an error is reported.
  pub stopped :
      GolangRuntime W
      → Bool
      → Context W
      → ℕ
      → Option Value
      → Act W (Context W × Option MessageError)
  unfolding save_for_retry
  stopped gr is_retry context position (some (error e)) = do
    save_for_retry gr is_retry context position context.retry_data
    pure (context, some (record { error = e; error_code = status_unprocessable_entity }))
  stopped gr is_retry context position result = pure (context, none)

  -- The rest of one round: `go_on` is the round of the next function.
  pub after_call :
      GolangRuntime W
      → Bool
      → ℕ
      → (Option Value → Context W → Act W (Context W × Option MessageError))
      → Reply W
      → Act W (Context W × Option MessageError)
  unfolding stopped
  after_call gr is_retry index go_on r =
      if r.continue_pipeline
      then go_on r.result r.context
      else stopped gr is_retry r.context index r.result

  module _ (gr : GolangRuntime W) (target : Value) (content_type : Str) (is_retry : Bool) where
    -- The loop, from the function at `index` on.
    pub loop :
        ℕ
        → List (AppFunction W)
        → ℕ
        → Option Value
        → Context W
        → Act W (Context W × Option MessageError)
    unfolding after_call
    loop start [] index result context = pure (context, none)
    loop start (trx_func ∷ rest) index result context =
        let go_on = loop start rest (suc index) in
        if ltb index start then go_on result context else do
          r ←
              trx_func.call (record context { retry_data = none })
                (params target content_type result)
          after_call gr is_retry index go_on r

  unfoldable pub execute_pipeline :
      GolangRuntime W
      → Value
      → Str
      → Context W
      → List (AppFunction W)
      → ℕ
      → Bool
      → Act W (Context W × Option MessageError)
  unfolding loop
  execute_pipeline gr target content_type context transforms start_position is_retry =
      loop gr target content_type is_retry start_position transforms 0 none
        (record context { secret_provider = gr.secret_provider })

  unfoldable pub initialize :
      GolangRuntime W → Option (StoreClient W) → Option Ref → GolangRuntime W
  initialize gr store_client secret_provider = record gr {
    store_forward = record gr.store_forward { store_client = store_client; runtime_set = true };
    secret_provider = secret_provider;
  }

  -- A runtime that was not initialized panics, having taken the transforms over.
  unfoldable pub set_transforms : GolangRuntime W → List (AppFunction W) → Act W (GolangRuntime W)
  unfolding calculate_pipeline_hash
  set_transforms gr transforms =
      if gr.store_forward.runtime_set
      then pure (record gr {
        transforms = transforms;
        store_forward = record gr.store_forward {
          pipeline_hash = calculate_pipeline_hash transforms;
        };
      })
      else panic
