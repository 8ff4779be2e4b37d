-- ===== src/Transforms/Batch.antt =====
-- pkg/transforms/batch.go. A call of `Batch` runs in segments: it may block in its `select`, until
-- a signal or the timer wakes it, and on its send to the channel `done`. Each segment is one
-- function here, which says how it ends.
use app_functions_sdk_go.AppContext.{coerce_type, ok, err, GoError, Value, Result}
pub mod Machine
pub mod Laws
pub mod Counted
use app_functions_sdk_go.Prelude.{
  length, Bool, str, is_empty, pos, ◌++◌, Option, List, lt_int, Bytes, if◌then◌else◌, Str, ℤ, [],
  ◌∷◌, none, some, true, false,
}

pub data BatchMode : Type 0 where
  batch_by_count_only batch_by_time_only batch_by_time_and_count : BatchMode

-- `BatchConfig`; `done` says whether the channel was made.
pub record BatchConfig : Type 0 where
  pub time_interval : Str
  pub parsed_duration : ℤ
  pub batch_threshold : ℤ
  pub batch_mode : BatchMode
  pub batch_data : List Bytes
  pub timer_active : Bool
  pub done : Bool

timed : Str → ℤ → BatchMode → Result ℤ → Result BatchConfig
timed time_interval threshold mode (err e) = err e
timed time_interval threshold mode (ok duration) = ok (record {
  time_interval = time_interval;
  parsed_duration = duration;
  batch_threshold = threshold;
  batch_mode = mode;
  batch_data = [];
  timer_active = false;
  done = true;
})

-- `time.ParseDuration` is a parameter.
unfoldable pub new_batch_by_time : (Str → Result ℤ) → Str → Result BatchConfig
unfolding timed
new_batch_by_time parse_duration time_interval =
    timed time_interval (pos 0) batch_by_time_only (parse_duration time_interval)

unfoldable pub new_batch_by_count : ℤ → BatchConfig
new_batch_by_count batch_threshold = record {
  time_interval = [];
  parsed_duration = pos 0;
  batch_threshold = batch_threshold;
  batch_mode = batch_by_count_only;
  batch_data = [];
  timer_active = false;
  done = false;
}

unfoldable pub new_batch_by_time_and_count : (Str → Result ℤ) → Str → ℤ → Result BatchConfig
unfolding timed
new_batch_by_time_and_count parse_duration time_interval batch_threshold =
    timed time_interval batch_threshold batch_by_time_and_count (parse_duration time_interval)

-- How a segment ends: `return false, nil`; an error; blocked in the `select`; blocked on the send
-- to `done`; or `return true, copy`.
pub data Ending : Type 0 where
  stops : Ending
  fails : GoError → Ending
  waits : Ending
  sends : Ending
  forwards : List Bytes → Ending

-- From the comment "Forwarding Batched Data" on.
unfoldable pub forward_data : BatchConfig → BatchConfig × Ending
forward_data batch =
    if is_empty batch.batch_data
    then (batch, stops)
    else (record batch { batch_data = [] }, forwards batch.batch_data)

-- The test of the threshold, where it is made.
below_threshold : BatchConfig → BatchConfig × Ending
unfolding forward_data
below_threshold batch =
    if lt_int (pos (length batch.batch_data)) batch.batch_threshold
    then (batch, stops)
    else if batch.done
    then (batch, sends)
    else forward_data batch

check_threshold : BatchMode → BatchConfig → BatchConfig × Ending
unfolding below_threshold
check_threshold batch_by_time_only batch = forward_data batch
check_threshold batch_by_count_only batch = below_threshold batch
check_threshold batch_by_time_and_count batch =
    if batch.timer_active then below_threshold batch else forward_data batch

start_timer : BatchConfig → BatchConfig × Ending
start_timer batch = (record batch { timer_active = true }, waits)

-- The test of the mode and of the timer.
check_timer : BatchMode → BatchConfig → BatchConfig × Ending
unfolding check_threshold start_timer
check_timer batch_by_count_only batch = check_threshold batch_by_count_only batch
check_timer batch_by_time_only batch =
    if batch.timer_active then (batch, stops) else start_timer batch
check_timer batch_by_time_and_count batch =
    if batch.timer_active then check_threshold batch_by_time_and_count batch else start_timer batch

-- A call with data, up to where it returns or blocks.
unfoldable pub enter : BatchConfig → Bytes → BatchConfig × Ending
unfolding check_timer
enter batch d =
    check_timer batch.batch_mode (record batch { batch_data = batch.batch_data ++ d ∷ [] })

-- A call that was blocked in its `select`, from there on.
unfoldable pub wake : BatchConfig → BatchConfig × Ending
unfolding check_threshold
wake batch = check_threshold batch.batch_mode (record batch { timer_active = false })

enter_coerced : BatchConfig → Result Bytes → BatchConfig × Ending
unfolding enter
enter_coerced batch (err e) = (batch, fails e)
enter_coerced batch (ok d) = enter batch d

-- A call of `Batch`, up to where it returns or blocks.
unfoldable pub batch_call : (Value → Option Bytes) → BatchConfig → List Value → BatchConfig × Ending
unfolding enter_coerced
batch_call json_marshal batch [] = (batch, fails (str "No Data Received"))
batch_call json_marshal batch (param ∷ _) = enter_coerced batch (coerce_type json_marshal param)
