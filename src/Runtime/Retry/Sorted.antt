-- ===== src/Runtime/Retry/Sorted.antt =====
-- internal/runtime/storeforward.go: what `processRetryItems` does with each item.
use app_functions_sdk_go.Runtime.Pipeline.Total.{execute_pipeline-returns, Anything, NeverPanics}
use app_functions_sdk_go.Runtime.Retry.{
  succeeded, bytes, execute_pipeline, retry_context, calculate_pipeline_hash, retry_export_function,
  process_retry_items, to_update, retries_left, to_remove, EventClient, Lists, sort_item,
}
use app_functions_sdk_go.Common.{ConfigurationStruct}
use app_functions_sdk_go.Runtime.Types.{GolangRuntime}
use app_functions_sdk_go.Store.{StoredObject}
use mathlib.Core.List.{Perm, perm_middle}
use mathlib.Core.List.Perm
use app_functions_sdk_go.Prelude.{
  pure, Ensures-bind, Ensures, inr, inl, Bool-cases, All, ◌++◌, ◌===◌, Bool, ◌≡◌, Option, inc, map,
  List, Str, refl, [], ◌∷◌, ◌>>=◌, true, false,
}

abbrev pub ids : List StoredObject → List Str
ids = map (λ (item : StoredObject). item.id)

-- The item with one more retry counted.
abbrev pub tried : StoredObject → StoredObject
tried item = record item { retry_count = inc item.retry_count }

-- `IsPart us items`: `us` are some of the items, in their order.
pub data IsPart : List StoredObject → List StoredObject → Type 0 where
  nothing : IsPart [] []
  taken :
      {us items : List StoredObject} (item : StoredObject)
      → IsPart us items
      → IsPart (item ∷ us) (item ∷ items)
  left_out :
      {us items : List StoredObject} (item : StoredObject)
      → IsPart us items
      → IsPart us (item ∷ items)

module _ (hash : Str) (config : ConfigurationStruct) where
  -- What the two lists hold.
  pub record IsSortedOut (items : List StoredObject) (lists : Lists) : Type 0 where
    pub each_once : Perm (ids lists.0 ++ ids lists.1) (ids items)
    pub updated : IsPart lists.1 (map tried items)
    pub current : All (λ item. (item.version === hash) ≡ true) lists.1
    pub left : All (λ item. retries_left config item ≡ true) lists.1

  IsSortedOut-to_remove :
      (item item' : StoredObject) (items : List StoredObject) (lists : Lists)
      → item'.id ≡ item.id
      → IsSortedOut items lists
      → IsSortedOut (item ∷ items) (to_remove item' lists)
  IsSortedOut-to_remove item item' items lists same h = record {
    each_once = rw same (Perm.cons item.id h.each_once);
    updated = left_out (tried item) h.updated;
    current = h.current;
    left = h.left;
  }

  IsSortedOut-to_update :
      (item : StoredObject) (items : List StoredObject) (lists : Lists)
      → (item.version === hash) ≡ true
      → retries_left config (tried item) ≡ true
      → IsSortedOut items lists
      → IsSortedOut (item ∷ items) (to_update (tried item) lists)
  IsSortedOut-to_update item items lists now more h = record {
    each_once =
        Perm.trans (perm_middle (ids lists.0) (ids lists.1)) (Perm.cons item.id h.each_once);
    updated = taken (tried item) h.updated;
    current = (now, h.current);
    left = (more, h.left);
  }

  IsSortedOut-sort_item :
      (item : StoredObject) (sent : Bool) (items : List StoredObject) (lists : Lists)
      → (item.version === hash) ≡ true
      → IsSortedOut items lists
      → IsSortedOut (item ∷ items) (sort_item config item sent lists)
  unfolding sort_item
  IsSortedOut-sort_item item true items lists now h =
      IsSortedOut-to_remove item item items lists refl h
  IsSortedOut-sort_item item false items lists now h =
      elim (Bool-cases (retries_left config (tried item))) [
        | inl more ↦ rw more (IsSortedOut-to_update item items lists now more h)
        | inr last ↦ rw last (IsSortedOut-to_remove item (tried item) items lists refl h)
      ]

module _ {W : Type 0} (gr : GolangRuntime W) (config : ConfigurationStruct)
    (event_client : Option (EventClient W)) (no_panic : All NeverPanics gr.transforms) where
  retry_returns :
      (item : StoredObject) (w : W)
      → Ensures Anything (retry_export_function gr config event_client item w)
  unfolding retry_export_function
  retry_returns item w =
      let context = retry_context item config event_client in
      Ensures-bind Anything Anything
        (execute_pipeline gr (bytes item.payload) [] context gr.transforms item.pipeline_position
          true)
        (λ outcome. pure (succeeded outcome)) w
        (execute_pipeline-returns gr (bytes item.payload) [] context gr.transforms
          item.pipeline_position w no_panic)
        (λ outcome v _. tt)

  -- If no function of the pipeline panics, a round over stored items returns, and every item is
  -- in exactly one of its lists: those to update are some of the items, in order, each changed
  -- only in that one more retry is counted, each of the current pipeline version and with
  -- retries left; all others are to be removed.
  pub process_retry_items-IsSortedOut :
      (items : List StoredObject) (w : W)
      → Ensures
          (λ lists _. IsSortedOut (calculate_pipeline_hash gr.transforms) config items lists)
          (process_retry_items gr config event_client items w)
  unfolding process_retry_items
  process_retry_items-IsSortedOut [] w = record {
    each_once = Perm.refl [];
    updated = nothing;
    current = tt;
    left = tt;
  }
  process_retry_items-IsSortedOut (item ∷ items) w =
      let hash = calculate_pipeline_hash gr.transforms in
      let P = IsSortedOut hash config in
      let rest = process_retry_items gr config event_client items in
      let ih = process_retry_items-IsSortedOut items in
      elim (Bool-cases (item.version === hash)) [
        | inl now ↦ rw now (
            Ensures-bind Anything (λ lists _. P (item ∷ items) lists)
              (retry_export_function gr config event_client item)
              (λ sent. do lists ← rest; pure (sort_item config item sent lists)) w
              (retry_returns item w)
              (λ sent v _.
                Ensures-bind (λ lists _. P items lists) (λ lists _. P (item ∷ items) lists) rest
                  (λ lists. pure (sort_item config item sent lists)) v (ih v)
                  (λ lists _ h. IsSortedOut-sort_item hash config item sent items lists now h)))
        | inr stale ↦ rw stale (
            Ensures-bind (λ lists _. P items lists) (λ lists _. P (item ∷ items) lists) rest
              (λ lists. pure (to_remove item lists)) w (ih w)
              (λ lists _ h. IsSortedOut-to_remove hash config item item items lists refl h))
      ]
