-- ===== src/Runtime/Retry/Settings.antt =====
-- internal/runtime/storeforward.go: the settings that the retry loop starts with.
use app_functions_sdk_go.Runtime.Retry.{
  at_least_zero, at_least_minimum, default_min_retry_interval, loop_settings,
}
use app_functions_sdk_go.Common.{StoreAndForwardInfo}
use app_functions_sdk_go.Prelude.{
  arith, inr, inl, Bool-cases, pos, false, ◌≡◌, lt_int, ℤ, Option, Str, refl, some, none,
}

minimum : (o : Option ℤ) → lt_int (at_least_minimum o) default_min_retry_interval ≡ false
unfolding at_least_minimum lt_int
minimum none = refl
minimum (some interval) = elim (Bool-cases (lt_int interval default_min_retry_interval)) [
  | inl short ↦ rw short
  | inr long ↦ rw long long
]

count_kept :
    (info : StoreAndForwardInfo) → lt_int (at_least_zero info).max_retry_count (pos 0) ≡ false
unfolding lt_int at_least_zero
count_kept info = ground arith

module _ (parse_duration : Str → Option ℤ) (info : StoreAndForwardInfo) where
  -- The retry loop never waits less than one second, and the retry count that it works with is
  -- not negative; an interval of at least one second and a count of at least 0 are kept as they
  -- are configured, and nothing else of the section changes.
  pub loop_settings_bounds :
      (lt_int (loop_settings parse_duration info).0 default_min_retry_interval ≡ false)
      × (lt_int (loop_settings parse_duration info).1.max_retry_count (pos 0) ≡ false)
      × ((interval : ℤ)
          → parse_duration info.retry_interval ≡ some interval
          → lt_int interval default_min_retry_interval ≡ false
          → (loop_settings parse_duration info).0 ≡ interval)
      × (lt_int info.max_retry_count (pos 0) ≡ false → (loop_settings parse_duration info).1 ≡ info)
      × ((loop_settings parse_duration info).1.enabled ≡ info.enabled)
      × ((loop_settings parse_duration info).1.retry_interval ≡ info.retry_interval)
  unfolding loop_settings
  loop_settings_bounds = (
    minimum (parse_duration info.retry_interval),
    count_kept info,
    λ interval parsed long. rw (parsed, at_least_minimum) (rw long),
    λ kept. unfold at_least_zero in rw kept,
    ground arith,
    ground arith,
  )
