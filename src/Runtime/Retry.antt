-- ===== src/Runtime/Retry.antt =====
-- internal/runtime/storeforward.go: the settings of the retry loop and one round of it.
pub mod Settings
pub mod Loop
pub mod Rounds
pub mod Sorted
pub mod RoundTrip
use app_functions_sdk_go.Prelude.{
  panic, Str, ℤ, pos, inc, lt_int, is_zero, Bool, true, false, ◌||◌, Option, none, some, List, [],
  ◌∷◌, Act, pure, ◌>>=◌, ◌>>◌, is_empty, ◌===◌, if◌then◌else◌,
}
use app_functions_sdk_go.Common.{ConfigurationStruct, StoreAndForwardInfo}
use app_functions_sdk_go.AppContext.{bytes, Context, EventClient, Result, ok, err}
use app_functions_sdk_go.Store.{StoredObject, StoreClient}
use app_functions_sdk_go.Runtime.Types.{GolangRuntime, MessageError}
use app_functions_sdk_go.Runtime.Pipeline.{execute_pipeline, calculate_pipeline_hash}

-- One second, in the nanoseconds of `time.Duration`.
abbrev pub default_min_retry_interval : ℤ
default_min_retry_interval = pos 1000000000

pub at_least_minimum : Option ℤ → ℤ
at_least_minimum none = default_min_retry_interval
at_least_minimum (some interval) =
    if lt_int interval default_min_retry_interval then default_min_retry_interval else interval

pub at_least_zero : StoreAndForwardInfo → StoreAndForwardInfo
at_least_zero info =
    if lt_int info.max_retry_count (pos 0) then record info { max_retry_count = pos 1 } else info

-- What `startStoreAndForwardRetryLoop` does before its loop: the interval, and the section of the
-- configuration with the count that it writes back. `time.ParseDuration` is a parameter.
unfoldable pub loop_settings : (Str → Option ℤ) → StoreAndForwardInfo → ℤ × StoreAndForwardInfo
unfolding at_least_minimum at_least_zero
loop_settings parse_duration info =
    (at_least_minimum (parse_duration info.retry_interval), at_least_zero info)

-- The two lists of `processRetryItems`, and with one more item in front of one of them.
abbrev pub Lists : Type 0
Lists = List StoredObject × List StoredObject

abbrev pub to_remove : StoredObject → Lists → Lists
to_remove item lists = (item ∷ lists.0, lists.1)

abbrev pub to_update : StoredObject → Lists → Lists
to_update item lists = (lists.0, item ∷ lists.1)

module _ (config : ConfigurationStruct) where
  -- Whether an item that failed once more is tried again.
  abbrev pub retries_left : StoredObject → Bool
  retries_left item =
      let max = config.writable.store_and_forward.max_retry_count in
      is_zero max || lt_int item.retry_count max

  pub sort_item : StoredObject → Bool → Lists → Lists
  sort_item item true lists = to_remove item lists
  sort_item item false lists =
      let item' = record item { retry_count = inc item.retry_count } in
      if retries_left item' then to_update item' lists else to_remove item' lists

module _ {W : Type 0} where
  -- The context that the item was stored with.
  abbrev pub retry_context : StoredObject → ConfigurationStruct → Option (EventClient W) → Context W
  retry_context item config event_client = record {
    event_id = item.event_id;
    event_checksum = item.event_checksum;
    correlation_id = item.correlation_id;
    output_data = none;
    configuration = config;
    event_client = event_client;
    retry_data = none;
    secret_provider = none;
  }

  abbrev pub succeeded : Context W × Option MessageError → Bool
  succeeded (_, none) = true
  succeeded (_, some _) = false

  -- Errors of the store are logged, and the loops go on.
  pub remove_all : StoreClient W → List StoredObject → Act W (Unit {0})
  remove_all client [] = pure tt
  remove_all client (item ∷ items) = do client.remove_from_store item; remove_all client items

  pub update_all : StoreClient W → List StoredObject → Act W (Unit {0})
  update_all client [] = pure tt
  update_all client (item ∷ items) = do client.update item; update_all client items

  module _ (gr : GolangRuntime W) (config : ConfigurationStruct)
      (event_client : Option (EventClient W)) where
    unfoldable pub retry_export_function : StoredObject → Act W Bool
    retry_export_function item = do
      outcome ←
          execute_pipeline gr (bytes item.payload) [] (retry_context item config event_client)
            gr.transforms item.pipeline_position true
      pure (succeeded outcome)

    unfoldable pub process_retry_items : List StoredObject → Act W Lists
    unfolding sort_item
    process_retry_items [] = pure ([], [])
    process_retry_items (item ∷ items) =
        let rest = process_retry_items items in
        if item.version === calculate_pipeline_hash gr.transforms
        then (do
          sent ← retry_export_function item
          lists ← rest
          pure (sort_item config item sent lists))
        else do lists ← rest; pure (to_remove item lists)

    pub retry_items : StoreClient W → Result (List StoredObject) → Act W (Unit {0})
    unfolding process_retry_items remove_all update_all
    retry_items client (err e) = pure tt
    retry_items client (ok items) = if is_empty items then pure tt else do
      lists ← process_retry_items items
      remove_all client lists.0
      update_all client lists.1

    pub retry_from : Option (StoreClient W) → Str → Act W (Unit {0})
    unfolding retry_items
    retry_from none service_key = panic
    retry_from (some client) service_key = do
      items ← client.retrieve_from_store service_key
      retry_items client items

    unfoldable pub retry_stored_data : Str → Act W (Unit {0})
    unfolding retry_from
    retry_stored_data service_key = retry_from gr.store_forward.store_client service_key
