-- ===== src/Continuous/Interval.antt =====
-- The waits of internal/application/service/continuous_execution_service.go (ParseInterval,
-- CalculateNextInterval) and of internal/application/workflow/manager.go (calculateNextInterval), in
-- nanoseconds. A time.Duration is an int64: its 64 bits are a number below 2^64, negative from 2^63 on.
use deespec.Base.{
  ℕ, zero, suc, String, Bool, ◌&&◌, Result, ok, err, ◌*◌, ◌%◌, ◌^◌, ltb, ◌==◌, str_eq,
  if◌then◌else◌,
}
use deespec.Base.Int.{ℤ, pos, ltb_ℤ}

abbrev pub default_run_interval : ℤ
default_run_interval = pos 5000000000

abbrev pub min_interval : ℤ
min_interval = pos 1000000000

abbrev pub max_interval : ℤ
max_interval = pos 600000000000

abbrev pub max_backoff : ℕ
max_backoff = 10000000000

-- `parsed` is what time.ParseDuration returns for the text.
unfoldable pub parse_interval : String → Result String ℤ → Result String ℤ
parse_interval text parsed = if str_eq text "" then ok default_run_interval else elim parsed [
  | err e ↦ err e
  | ok duration ↦
      if ltb_ℤ duration min_interval
      then ok min_interval
      else if ltb_ℤ max_interval duration
      then ok max_interval
      else ok duration
]

-- 2^64
abbrev pub word : ℕ
word = 18446744073709551616

-- `a > b` for an int64 `a` and a positive `b`.
abbrev pub exceeds : ℕ → ℕ → Bool
exceeds a b = ltb a 9223372036854775808 && ltb b a

-- time.Duration(math.Pow(2, n)): what a float of 2^63 or more becomes depends on the machine.
unfoldable pub duration_of_power : (ℕ → ℕ) → ℕ → ℕ
duration_of_power large n = if ltb n 63 then 2 ^ n else large n

unfoldable pub capped : ℕ → ℕ
capped backoff = if exceeds backoff max_backoff then max_backoff else backoff

unfoldable pub calculate_next_interval : (ℕ → ℕ) → ℕ → ℕ → ℕ
unfolding capped duration_of_power
calculate_next_interval large base_interval consecutive_errors =
    if consecutive_errors == 0
    then base_interval
    else capped ((duration_of_power large consecutive_errors * base_interval) % word)

-- `for i := 0; i < n; i++ { backoff *= 2 }`
unfoldable pub doubled : ℕ → ℕ → ℕ
doubled zero backoff = backoff
doubled (suc n) backoff = doubled n ((backoff * 2) % word)

-- The function of the workflow manager.
unfoldable pub manager_next_interval : ℕ → ℕ → ℕ
unfolding capped doubled
manager_next_interval base_interval consecutive_errors =
    if consecutive_errors == 0
    then base_interval
    else capped (doubled consecutive_errors base_interval)
