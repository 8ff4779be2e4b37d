-- ===== src/Transforms/Batch/Machine.antt =====
-- pkg/transforms/batch.go: calls of `Batch` by any number of goroutines, interleaved at the points
-- where they block.
use app_functions_sdk_go.Transforms.Batch.{
  sends, forward_data, waits, wake, stops, enter, forwards, fails, Ending, BatchConfig,
}
use app_functions_sdk_go.Prelude.{List, ◌++◌, ℕ, Bool, ◌≡◌, Bytes, [], ◌∷◌, true, false, suc}

-- `waiting`: a call is blocked in its `select`. `woken`: calls that left it and have not gone on.
-- `sending`: calls blocked on `done`. `sent`: calls whose send was received and that have not gone
-- on. `received` and `forwarded` are the history of the data.
pub record Machine : Type 0 where
  pub config : BatchConfig
  pub waiting : Bool
  pub woken : ℕ
  pub sending : ℕ
  pub sent : ℕ
  pub received : List Bytes
  pub forwarded : List (List Bytes)

abbrev pub start : BatchConfig → Machine
start config = record {
  config = config;
  waiting = false;
  woken = 0;
  sending = 0;
  sent = 0;
  received = [];
  forwarded = [];
}

-- The machine after a segment.
abbrev pub settle : Machine → BatchConfig → Ending → Machine
settle m config stops = record m { config = config }
settle m config (fails e) = record m { config = config }
settle m config waits = record m { config = config; waiting = true }
settle m config sends = record m { config = config; sending = suc m.sending }
settle m config (forwards batch) = record m {
  config = config;
  forwarded = m.forwarded ++ batch ∷ [];
}

abbrev pub after : Machine → BatchConfig × Ending → Machine
after m outcome = settle m outcome.0 outcome.1

pub data Step (m m' : Machine) : Type 0 where
  -- A new call.
  calls :
      (d : Bytes)
      → m' ≡ after (record m { received = m.received ++ d ∷ [] }) (enter m.config d)
      → Step m m'
  -- The timer of the blocked call fires.
  elapses : m.waiting ≡ true → m' ≡ record m { waiting = false; woken = suc m.woken } → Step m m'
  -- A send meets the blocked call.
  hands_over :
      (n : ℕ)
      → m.waiting ≡ true
      → m.sending ≡ suc n
      → m' ≡ record m { waiting = false; woken = suc m.woken; sending = n; sent = suc m.sent }
      → Step m m'
  wakes_up :
      (n : ℕ) → m.woken ≡ suc n → m' ≡ after (record m { woken = n }) (wake m.config) → Step m m'
  goes_on :
      (n : ℕ)
      → m.sent ≡ suc n
      → m' ≡ after (record m { sent = n }) (forward_data m.config)
      → Step m m'

pub data Reach (m : Machine) : Machine → Type 0 where
  here : Reach m m
  next : {n n' : Machine} → Reach m n → Step n n' → Reach m n'
