-- ===== src/Transforms/Batch/Counted.antt =====
-- pkg/transforms/batch.go: batches by count alone.
use app_functions_sdk_go.Transforms.Batch.{batch_by_count_only}
use app_functions_sdk_go.Transforms.Batch.Machine.{Machine}
use app_functions_sdk_go.Prelude.{All, ◌<◌, length, ◌≡◌, ℕ, false, pos}

module _ (threshold : ℕ) where
  -- A configuration that `NewBatchByCount` made, at some point of its life.
  pub record IsCounted (m : Machine) : Type 0 where
    pub mode : m.config.batch_mode ≡ batch_by_count_only
    pub limit : m.config.batch_threshold ≡ pos threshold
    pub no_channel : m.config.done ≡ false
    pub no_waiting : m.waiting ≡ false
    pub no_woken : m.woken ≡ 0
    pub no_sent : m.sent ≡ 0
    pub not_full : length m.config.batch_data < threshold
    pub exact : All (λ batch. length batch ≡ threshold) m.forwarded
