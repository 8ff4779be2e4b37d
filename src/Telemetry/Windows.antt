-- ===== src/Telemetry/Windows.antt =====
-- internal/telemetry/windows_cpu.go: `PollCpu` and `AvgCpuUsage`. The system call and the arithmetic
-- of `float64` are parameters.
use Prim.Native.Nat.{bit_or, bit_or-bitwise, digits, max, ◌≤◌, zero, suc}
use app_functions_sdk_go.Prelude.{
  ◌∙◌, ◌/◌, ◌||◌, pure, ◌*◌, ◌-◌, if◌then◌else◌, ◌>>=◌, ◌%◌, ◌^◌, Bool, ◌+◌, ◌≡◌, Act, ℕ, arith,
  refl,
}
use app_functions_sdk_go.Telemetry.{CpuUsage}

-- `FileTime`: two numbers of type `uint32`.
pub record FileTime : Type 0 where
  pub low_date_time : ℕ
  pub high_date_time : ℕ

abbrev half : ℕ
half = 2 ^ 32

-- `t.LowDateTime | (t.HighDateTime << 32)`, of type `uint32`.
unfoldable pub first : FileTime → ℕ
first t = bit_or t.low_date_time ((t.high_date_time * half) % half)

usage_of : FileTime × FileTime × FileTime → CpuUsage
unfolding first
usage_of (idle, kernel, user) = record {
  busy = first user;
  idle = first idle;
  total = (first kernel + first user) % half;
}

-- The difference of two numbers of type `uint64`.
difference : ℕ → ℕ → ℕ
difference final init = (final + ((2 ^ 64) - init)) % (2 ^ 64)

-- `get_system_times` gives the idle, the kernel and the user time.
unfoldable pub poll_cpu : {W : Type 0} → Act W (FileTime × FileTime × FileTime) → Act W CpuUsage
unfolding usage_of
poll_cpu get_system_times = do times ← get_system_times; pure (usage_of times)

-- `busy_percent`: `(total - idle) * 100 / total` of the two numbers as floats.
unfoldable pub avg_cpu_usage :
    {F : Type 0} → (ℕ → ℕ → F) → (F → Bool) → (F → Bool) → F → CpuUsage → CpuUsage → F
unfolding difference
avg_cpu_usage busy_percent is_tiny is_nan zero_float init final =
    let avg = busy_percent (difference final.total init.total) (difference final.idle init.idle) in
    if is_tiny avg || is_nan avg then zero_float else avg

none_high : (n : ℕ) → (n * half) % half ≡ 0
none_high n = omega arith

max_zero : (n : ℕ) → max n 0 ≡ n
max_zero n = omega arith

digits_zero : (n a : ℕ) → a ≤ n → digits (λ b. b) max n a 0 ≡ a
digits_zero zero a h = omega arith
digits_zero (suc n) zero h = refl
digits_zero (suc n) (suc a) h =
    rw (max_zero (suc a % 2)) (rw (digits_zero n (suc a / 2) (omega arith)) (omega arith))

bit_or_zero : (n : ℕ) → bit_or n 0 ≡ n
bit_or_zero n = (λ i. bit_or-bitwise n 0 i) ∙ digits_zero n n (omega arith)

-- The high half of a time does not count.
pub first-low : (t : FileTime) → first t ≡ t.low_date_time
unfolding first
first-low t = rw (none_high t.high_date_time) (bit_or_zero t.low_date_time)
