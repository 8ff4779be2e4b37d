-- ===== src/Runtime/Retry/RoundTrip.antt =====
-- internal/runtime: an export that fails and is stored is tried again from the function that
-- failed.
use app_functions_sdk_go.Runtime.Pipeline.Resume.{resume_at_position}
use app_functions_sdk_go.Runtime.Retry.{
  Lists, succeeded, retry_context, sort_item, retry_export_function, StoredObject,
  process_retry_items,
}
use app_functions_sdk_go.Runtime.Pipeline.{
  execute_pipeline, item_for_retry, calculate_pipeline_hash, set_transforms,
}
use app_functions_sdk_go.AppContext.{bytes, Context, AppFunction, EventClient}
use app_functions_sdk_go.Common.{ConfigurationStruct}
use app_functions_sdk_go.Runtime.Types.{GolangRuntime}
use app_functions_sdk_go.Prelude.{
  ◌∙◌, ap, Bool, ===_refl, arith, Act, length, pure, returns, ◌++◌, ◌≡◌, Bytes, ◌===◌, List, Option,
  refl, [], ◌∷◌, ◌>>=◌, true,
}

sent_of :
    {W A : Type 0} (m m' : Act W A) (succeeds : A → Bool) (g : Bool → Lists) (w : W)
    → m w ≡ m' w
    → (do sent ← (do outcome ← m; pure (succeeds outcome)); pure (g sent)) w
      ≡ (do outcome ← m'; pure (g (succeeds outcome))) w
sent_of m m' succeeds g w same = ground arith

installed_pipeline :
    {W : Type 0} (gr0 gr : GolangRuntime W) (transforms : List (AppFunction W)) (w0 w0' : W)
    → set_transforms gr0 transforms w0 ≡ returns (gr, w0')
    → (gr.transforms ≡ transforms)
      × (gr.store_forward.pipeline_hash ≡ calculate_pipeline_hash transforms)
unfolding set_transforms
installed_pipeline gr0 gr transforms w0 w0' e = ground arith

module _ {W : Type 0} (gr : GolangRuntime W) (config : ConfigurationStruct)
    (event_client : Option (EventClient W)) where
  retry_item_of_current :
      (item : StoredObject) (w : W)
      → (item.version === calculate_pipeline_hash gr.transforms) ≡ true
      → process_retry_items gr config event_client (item ∷ []) w
        ≡ (do
          sent ← retry_export_function gr config event_client item
          pure (sort_item config item sent ([], [])))
            w
  unfolding process_retry_items
  retry_item_of_current item w now = rw now

  -- After `SetTransforms` installed a pipeline, take the item that is stored when its function
  -- `f` fails with retry data in some context: the next round of the retry loop runs the
  -- pipeline from `f` on, with the retry data as its input, in a context with the ids of the
  -- failed pass, and sorts the item by whether that succeeds.
  pub stored_item_is_resumed :
      (gr0 : GolangRuntime W) (before after : List (AppFunction W)) (f : AppFunction W) (w0 w0' : W)
      (payload : Bytes) (context : Context W) (w : W)
      → set_transforms gr0 (before ++ f ∷ after) w0 ≡ returns (gr, w0')
      → let item = item_for_retry gr payload context (length before) in
        let restored = retry_context item config event_client in
        (process_retry_items gr config event_client (item ∷ []) w
          ≡ (do
            outcome ← execute_pipeline gr (bytes payload) [] restored (f ∷ after) 0 true
            pure (sort_item config item (succeeded outcome) ([], [])))
              w)
        × (restored.correlation_id ≡ context.correlation_id)
        × (restored.event_id ≡ context.event_id)
        × (restored.event_checksum ≡ context.event_checksum)
  unfolding retry_export_function
  stored_item_is_resumed gr0 before after f w0 w0' payload context w installed =
      let item = item_for_retry gr payload context (length before) in
      let restored = retry_context item config event_client in
      let (transforms, hash) = installed_pipeline gr0 gr (before ++ f ∷ after) w0 w0' installed in
      let version : (item.version === calculate_pipeline_hash gr.transforms) ≡ true =
        rw (hash, transforms) (===_refl _) in
      let resumed : execute_pipeline gr (bytes payload) [] restored gr.transforms (length before)
            true w
          ≡ execute_pipeline gr (bytes payload) [] restored (f ∷ after) 0 true w =
        ap (λ fs. execute_pipeline gr (bytes payload) [] restored fs (length before) true w)
          transforms
        ∙ resume_at_position (bytes payload) [] gr restored before (f ∷ after) w in
      (
        retry_item_of_current item w version
            ∙ sent_of
                (execute_pipeline gr (bytes payload) [] restored gr.transforms (length before) true)
                (execute_pipeline gr (bytes payload) [] restored (f ∷ after) 0 true) succeeded
                (λ sent. sort_item config item sent ([], [])) w resumed,
        refl,
        refl,
        refl,
      )
