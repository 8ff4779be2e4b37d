-- ===== src/Telemetry.antt =====
-- internal/telemetry: `NewSystemUsage` and `StartCpuUsageAverage` of telemetry.go, `PollCpu` and
-- `AvgCpuUsage` of linux_cpu.go. Numbers of type `float64` are a parameter, and so are the
-- runtime's memory statistics and systemstat. What the select of the loop receives, one after the
-- other, is a list of events.
pub mod Windows
use app_functions_sdk_go.Prelude.{
  [], ◌∷◌, arith, ltb, true, ◌-◌, ◌%◌, [], ◌≡◌, ◌||◌, ◌^◌, ◌>>=◌, if◌then◌else◌, leb, ◌+◌, Bool, ℕ,
  List, Act, pure,
}

pub record MemoryUsage : Type 0 where
  pub alloc : ℕ
  pub total_alloc : ℕ
  pub sys : ℕ
  pub mallocs : ℕ
  pub frees : ℕ
  pub live_objects : ℕ

pub record SystemUsage (F : Type 0) : Type 0 where
  pub memory : MemoryUsage
  pub cpu_busy_avg : F

pub record CpuUsage : Type 0 where
  pub busy : ℕ
  pub idle : ℕ
  pub total : ℕ

-- `runtime.MemStats`, with the fields that are read.
pub record MemStats : Type 0 where
  pub alloc : ℕ
  pub total_alloc : ℕ
  pub sys : ℕ
  pub mallocs : ℕ
  pub frees : ℕ

-- `systemstat.CPUSample`, with the fields that are read or set; the others are 0.
pub record CpuSample : Type 0 where
  pub user : ℕ
  pub nice : ℕ
  pub idle : ℕ
  pub total : ℕ

-- The variables of the package.
pub record Telemetry (F : Type 0) : Type 0 where
  pub last_sample : CpuUsage
  pub usage_avg : F

pub data CpuEvent : Type 0 where
  app_done : CpuEvent
  elapsed : CpuEvent

abbrev word : ℕ
word = 2 ^ 64

-- `Mallocs - Frees`, of type `uint64`.
unfoldable pub live : ℕ → ℕ → ℕ
live mallocs frees = (mallocs + (word - frees)) % word

unfoldable pub new_system_usage : {F : Type 0} → Telemetry F → MemStats → SystemUsage F
unfolding live
new_system_usage telemetry rtm = record {
  memory = record {
    alloc = rtm.alloc;
    total_alloc = rtm.total_alloc;
    sys = rtm.sys;
    mallocs = rtm.mallocs;
    frees = rtm.frees;
    live_objects = live rtm.mallocs rtm.frees;
  };
  cpu_busy_avg = telemetry.usage_avg;
}

usage_of : CpuSample → CpuUsage
usage_of linux_sample = record {
  busy = (linux_sample.nice + linux_sample.user) % word;
  idle = linux_sample.idle;
  total = linux_sample.total;
}

-- The sample that is compared, with the idle and the total time only.
simple : CpuUsage → CpuSample
simple usage = record { user = 0; nice = 0; idle = usage.idle; total = usage.total }

module _ {W F : Type 0} (get_cpu_sample : Act W CpuSample)
    (get_simple_cpu_average : CpuSample → CpuSample → F) (is_tiny is_nan : F → Bool)
    (zero_float : F) where
  unfoldable pub poll_cpu : Act W CpuUsage
  unfolding usage_of
  poll_cpu = do linux_sample ← get_cpu_sample; pure (usage_of linux_sample)

  -- `is_tiny`: less than 0.000001.
  unfoldable pub avg_cpu_usage : CpuUsage → CpuUsage → F
  unfolding simple
  avg_cpu_usage init final =
      let avg = get_simple_cpu_average (simple init) (simple final) in
      if is_tiny avg || is_nan avg then zero_float else avg

  -- What the loop leaves in the variables.
  unfoldable pub start_cpu_usage_average : Telemetry F → List CpuEvent → Act W (Telemetry F)
  unfolding poll_cpu avg_cpu_usage
  start_cpu_usage_average telemetry [] = pure telemetry
  start_cpu_usage_average telemetry (app_done ∷ events) = pure telemetry
  start_cpu_usage_average telemetry (elapsed ∷ events) = do
    next_usage ← poll_cpu
    start_cpu_usage_average
        (record {
          last_sample = next_usage;
          usage_avg = avg_cpu_usage telemetry.last_sample next_usage;
        })
        events

-- With no more objects freed than allocated, their difference is exact.
pub live-exact :
    (mallocs frees : ℕ)
    → leb frees mallocs ≡ true
    → ltb mallocs word ≡ true
    → live mallocs frees + frees ≡ mallocs
unfolding live
live-exact mallocs frees h k = ground arith
