-- ===== src/Transforms/Batch/Laws.antt =====
-- pkg/transforms/batch.go: what holds however the calls of `Batch` interleave.
use app_functions_sdk_go.Transforms.Batch.Machine.{after, Machine}
use app_functions_sdk_go.Transforms.Batch.{Ending, BatchConfig}
use app_functions_sdk_go.Prelude.{All, ◌≡◌, is_empty, ◌++◌, concat, false}

-- The data that came in is what was forwarded and what is still held, in order; and no empty
-- batch was forwarded.
pub record IsConsistent (m : Machine) : Type 0 where
  pub conserved : concat m.forwarded ++ m.config.batch_data ≡ m.received
  pub no_empty : All (λ batch. is_empty batch ≡ false) m.forwarded

-- A segment that starts with the data of `batch` to account for.
record Keeps (batch : BatchConfig) (outcome : BatchConfig × Ending) : Type 0 where
  kept :
      (m : Machine)
      → concat m.forwarded ++ batch.batch_data ≡ m.received
      → All (λ b. is_empty b ≡ false) m.forwarded
      → IsConsistent (after m outcome)
