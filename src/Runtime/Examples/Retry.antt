-- ===== src/Runtime/Examples/Retry.antt =====
-- Rounds of the retry loop, and messages.
use app_functions_sdk_go.Common.{StoreAndForwardInfo}
use app_functions_sdk_go.Runtime.Retry.Settings.{loop_settings_bounds}
use app_functions_sdk_go.Runtime.Retry.Rounds.{rounds-left_with, rounds}
use app_functions_sdk_go.Runtime.Pipeline.Passes.{done}
use app_functions_sdk_go.Runtime.Pipeline.Stored.{failure_is_not_stored, StopsAt}
use app_functions_sdk_go.Prelude.{
  Option, Str, ℤ, inl, ◌∙◌, ap, arith, bind-returns, pos, ℕ, ===_refl, returns, lt_int, Ensures,
  pure, refl, [], ◌∷◌, none, some, true, false, ◌≡◌, ◌>>=◌,
}
use app_functions_sdk_go.AppContext.{err, bytes, error, Context}
use app_functions_sdk_go.Runtime.{
  content_type_json, Decoder, MessageEnvelope, default_min_retry_interval, loop_settings,
  set_transforms, retry_export_function, succeeded, retry_context, GolangRuntime, execute_pipeline,
  item_for_retry, calculate_pipeline_hash, process_retry_items, sort_item,
}
use app_functions_sdk_go.Runtime.Retry.RoundTrip.{stored_item_is_resumed}
use app_functions_sdk_go.Runtime.Retry.Sorted.{process_retry_items-IsSortedOut, IsSortedOut}
use app_functions_sdk_go.Runtime.Examples.{
  StoredObject, Objects, runtime, context, config, transform, export, store_forward,
}

-- The runtime after `SetTransforms`.
abbrev installed : GolangRuntime Objects
installed = record (runtime (transform ∷ export ∷ [])) {
  store_forward = record store_forward {
    pipeline_hash = calculate_pipeline_hash (transform ∷ export ∷ []);
  };
}

abbrev item : StoredObject
item = item_for_retry installed (9 ∷ []) context 1

stored_item_is_resumed_example :
    (process_retry_items installed config none (item ∷ []) []
      ≡ (execute_pipeline installed
              (bytes (9 ∷ []))
              []
              (retry_context item config none)
              (export ∷ [])
              0
              true
            >>= λ outcome. pure (sort_item config item (succeeded outcome) ([], [])))
          [])
    × (context.correlation_id ≡ context.correlation_id)
    × (context.event_id ≡ context.event_id)
    × (context.event_checksum ≡ context.event_checksum)
unfolding set_transforms
stored_item_is_resumed_example =
    stored_item_is_resumed installed config none (runtime []) (transform ∷ []) [] export [] []
      (9 ∷ []) context [] refl

process_retry_items-IsSortedOut_example :
    Ensures
      (λ lists _.
        IsSortedOut (calculate_pipeline_hash (transform ∷ export ∷ [])) config (item ∷ []) lists)
      (process_retry_items installed config none (item ∷ []) [])
process_retry_items-IsSortedOut_example =
    process_retry_items-IsSortedOut installed config none (λ c args w. tt, (λ c args w. tt, tt))
      (item ∷ []) []

-- A pipeline of the failing function alone, and an item of it.
abbrev alone : GolangRuntime Objects
alone = runtime (export ∷ [])

abbrev stuck : StoredObject
stuck = record item { pipeline_position = 0; version = calculate_pipeline_hash (export ∷ []) }

abbrev exported : StoredObject → Context Objects
exported i = record (retry_context i config none) { retry_data = some (9 ∷ []) }

abbrev at_first :
    (i : StoredObject) (w : Objects)
    → StopsAt
        (bytes i.payload)
        []
        alone
        true
        []
        export
        (retry_context i config none)
        w
        (record { context = exported i; continue_pipeline = false; result = some (error (4 ∷ [])) })
        w
at_first i w = record {
  result = none;
  context = record (retry_context i config none) { secret_provider = none };
  world = w;
  passed = done;
  called = refl;
  stops = refl;
}

export_fails :
    (i : StoredObject) (w : Objects)
    → i.pipeline_position ≡ 0
    → retry_export_function alone config none i w ≡ returns (false, w)
unfolding retry_export_function
export_fails i w there =
    let run = λ (p : ℕ).
      execute_pipeline alone (bytes i.payload) [] (retry_context i config none) (export ∷ []) p
        true in
    bind-returns (run i.pipeline_position) (λ outcome. pure (succeeded outcome))
      (ap (λ p. run p w) there
        ∙ failure_is_not_stored (bytes i.payload) [] alone [] (at_first i w) (4 ∷ []) refl refl
            (inl refl))

-- Three rounds: the third one removes the item.
rounds-left_with_example : Ensures (λ left _. left ≡ none) (rounds alone config none 3 stuck [])
rounds-left_with_example =
    rounds-left_with alone config none 3 refl 0 (λ i w there. rw (export_fails i w there) refl) 2 0
      stuck [] (===_refl stuck.version) refl refl (ground arith)

abbrev half_second : Str → Option ℤ
half_second s = some (pos 500000000)

abbrev section : StoreAndForwardInfo
section = config.writable.store_and_forward

loop_settings_bounds_example :
    (lt_int (loop_settings half_second section).0 default_min_retry_interval ≡ false)
    × (lt_int (loop_settings half_second section).1.max_retry_count (pos 0) ≡ false)
    × ((interval : ℤ)
        → half_second section.retry_interval ≡ some interval
        → lt_int interval default_min_retry_interval ≡ false
        → (loop_settings half_second section).0 ≡ interval)
    × (lt_int section.max_retry_count (pos 0) ≡ false
        → (loop_settings half_second section).1 ≡ section)
    × ((loop_settings half_second section).1.enabled ≡ section.enabled)
    × ((loop_settings half_second section).1.retry_interval ≡ section.retry_interval)
loop_settings_bounds_example = loop_settings_bounds half_second section

abbrev refusing : Decoder
refusing = record { decode_event = λ b. err (6 ∷ []); decode_other = λ t b. err (6 ∷ []) }

abbrev envelope : MessageEnvelope
envelope = record {
  correlation_id = 2 ∷ [];
  payload = 7 ∷ [];
  content_type = content_type_json;
  checksum = [];
}
