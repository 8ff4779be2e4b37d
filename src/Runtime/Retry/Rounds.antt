-- ===== src/Runtime/Retry/Rounds.antt =====
-- internal/runtime/storeforward.go: how often an item whose export always fails is tried.
use app_functions_sdk_go.Runtime.Retry.{
  Lists, retry_export_function, calculate_pipeline_hash, sort_item, process_retry_items,
}
use app_functions_sdk_go.Store.{StoredObject}
use app_functions_sdk_go.AppContext.{EventClient}
use app_functions_sdk_go.Common.{ConfigurationStruct}
use app_functions_sdk_go.Runtime.Types.{GolangRuntime}
use app_functions_sdk_go.Prelude.{
  ◌∙◌, ap, arith, Ensures-bind, ◌+◌, max_int, ◌<◌, ltb, ◌||◌, lt_int, false, ◌==◌, get_elem?, ◌===◌,
  inc, Ensures, if◌then◌else◌, pure, Act, ◌≡◌, ℕ, Option, refl, some, none, [], ◌∷◌, zero, suc, pos,
  ◌>>=◌, true,
}

module _ {W : Type 0} (gr : GolangRuntime W) (config : ConfigurationStruct)
    (event_client : Option (EventClient W)) where
  -- One round of the retry loop over a database that holds this item alone: what is left there.
  pub round : StoredObject → Act W (Option StoredObject)
  round item = do
    lists ← process_retry_items gr config event_client (item ∷ [])
    pure (get_elem? lists.1 0)

  abbrev pub if_left :
      (StoredObject → Act W (Option StoredObject))
      → Option StoredObject
      → Act W (Option StoredObject)
  if_left m none = pure none
  if_left m (some item) = m item

  pub rounds : ℕ → StoredObject → Act W (Option StoredObject)
  rounds zero item = pure (some item)
  rounds (suc k) item = round item >>= if_left (rounds k)

  abbrev pub counted : StoredObject → ℕ → StoredObject
  counted item n = record item { retry_count = pos n }

  module _ (max : ℕ) (limit : config.writable.store_and_forward.max_retry_count ≡ pos max) where
    -- The item after a failed retry that raises its count to `n`.
    abbrev pub left_with : StoredObject → ℕ → Option StoredObject
    left_with item n = if max == 0 || ltb n max then some (counted item n) else none

    sorted_failure :
        (item : StoredObject) (n : ℕ)
        → item.retry_count ≡ pos n
        → n < max_int
        → get_elem? (sort_item config item false ([], [])).1 0 ≡ left_with item (n + 1)
    unfolding sort_item inc lt_int
    sorted_failure item n count small = ground arith

    last :
        (item : StoredObject) (n : ℕ) (left : Option StoredObject) (v : W)
        → left ≡ left_with item (n + 1)
        → Ensures (λ left _. left ≡ left_with item (n + 0 + 1)) (if_left (rounds 0) left v)
    unfolding rounds
    last item n none v e = ground arith
    last item n (some item') v e = ground arith

    later :
        (item : StoredObject) (k n : ℕ) (left : Option StoredObject) (v : W)
        → left ≡ left_with item (n + 1)
        → Ensures
            (λ left _. left ≡ left_with item (n + 1 + k + 1))
            (rounds (suc k) (counted item (n + 1)) v)
        → Ensures
            (λ left _. left ≡ left_with item (n + suc k + 1))
            (if_left (rounds (suc k)) left v)
    later item k n none v e rest = ground arith
    later item k n (some item') v e rest =
        let same : item' ≡ counted item (n + 1) = ground arith in
        let total : n + 1 + k + 1 ≡ n + suc k + 1 = omega arith in rw same (rw total at rest)

    -- Every retry from the position fails.
    abbrev pub AlwaysFails : ℕ → Type 0
    AlwaysFails position =
        (item : StoredObject) (w : W)
        → item.pipeline_position ≡ position
        → Ensures (λ sent _. sent ≡ false) (retry_export_function gr config event_client item w)

    module _ (position : ℕ) (fails : AlwaysFails position) where
      sorted_alone :
          (item : StoredObject) (w : W)
          → (item.version === calculate_pipeline_hash gr.transforms) ≡ true
          → item.pipeline_position ≡ position
          → Ensures
              (λ lists _. lists ≡ sort_item config item false ([], []))
              (process_retry_items gr config event_client (item ∷ []) w)
      unfolding process_retry_items
      sorted_alone item w current there = rw current (
          Ensures-bind (λ sent _. sent ≡ false)
            (λ lists _. lists ≡ sort_item config item false ([], []))
            (retry_export_function gr config event_client item)
            (λ sent. pure (sort_item config item sent ([], []))) w (fails item w there)
            (λ sent v failed. ap (λ b. sort_item config item b ([], [])) failed))

      round-left_with :
          (item : StoredObject) (n : ℕ) (w : W)
          → (item.version === calculate_pipeline_hash gr.transforms) ≡ true
          → item.pipeline_position ≡ position
          → item.retry_count ≡ pos n
          → n < max_int
          → Ensures (λ left _. left ≡ left_with item (n + 1)) (round item w)
      unfolding round
      round-left_with item n w current there count small =
          Ensures-bind (λ lists _. lists ≡ sort_item config item false ([], []))
            (λ left _. left ≡ left_with item (n + 1))
            (process_retry_items gr config event_client (item ∷ []))
            (λ lists. pure (get_elem? lists.1 0)) w (sorted_alone item w current there)
            (λ lists v e. ap (λ (l : Lists). get_elem? l.1 0) e ∙ sorted_failure item n count small)

      -- An item of the current pipeline, at a position from which every retry fails, is kept
      -- in each round with its count raised by one, until the count reaches the configured
      -- maximum, and is then removed; with a maximum of 0 it is kept for ever. The count stays
      -- below the largest `int`.
      pub rounds-left_with :
          (k n : ℕ) (item : StoredObject) (w : W)
          → (item.version === calculate_pipeline_hash gr.transforms) ≡ true
          → item.pipeline_position ≡ position
          → item.retry_count ≡ pos n
          → n + k < max_int
          → Ensures (λ left _. left ≡ left_with item (n + k + 1)) (rounds (suc k) item w)
      unfolding rounds
      rounds-left_with zero n item w current there count small =
          Ensures-bind (λ left _. left ≡ left_with item (n + 1))
            (λ left _. left ≡ left_with item (n + 0 + 1)) (round item) (if_left (rounds 0)) w
            (round-left_with item n w current there count (omega arith)) (last item n)
      rounds-left_with (suc k) n item w current there count small =
          Ensures-bind (λ left _. left ≡ left_with item (n + 1))
            (λ left _. left ≡ left_with item (n + suc k + 1)) (round item)
            (if_left (rounds (suc k))) w
            (round-left_with item n w current there count (omega arith))
            (λ left v e. later item k n left v e (
              rounds-left_with k (n + 1) (counted item (n + 1)) v current there refl (omega arith)))
