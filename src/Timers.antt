-- ===== src/Timers.antt =====
-- rust/crates/zk-core-rs/src: the timers of the simulated clock (types.rs, scheduler.rs,
-- sim_clock.rs, test_clock.rs). The sums, differences and products of i64 wrap at 64 bits, as they
-- do in a release build; a u64 generation is a number without bounds. Here are the records and the
-- arithmetic of interval timers.
pub mod Policies
pub mod Scheduler
pub mod Clock
pub mod Intervals
pub mod Heap
pub mod Next
pub mod Drain
pub mod Fires
pub mod Entries
pub mod Valid
pub mod Due
pub mod Reachable
pub mod Points
mod Examples
use zkbot.Prelude.{ℕ, suc, ◌/◌, ◌%◌, ◌-◌, ◌^◌, ltb, Option, String, if◌then◌else◌}
use zkbot.Prelude.Int.{ℤ, pos, negsuc, ◌+ℤ◌, ◌-ℤ◌, ◌*ℤ◌, neg_ℤ, leb_ℤ, ltb_ℤ}

pub data TimerSchedule : Type 0 where
  -- fire_at_ms
  once_at : ℤ → TimerSchedule
  -- every_ms, start_ms, end_ms
  interval : ℤ → Option ℤ → Option ℤ → TimerSchedule
  -- expr, start_ms, end_ms
  cron : String → Option ℤ → Option ℤ → TimerSchedule

pub data TimerCoalescePolicy : Type 0 where
  fire_all fire_once skip_missed : TimerCoalescePolicy

pub record TimerRequest : Type 0 where
  pub timer_key : String
  pub schedule : TimerSchedule
  pub coalesce : TimerCoalescePolicy

pub record TimerFire : Type 0 where
  pub timer_key : String
  pub scheduled_ts_ms : ℤ
  pub dispatch_ts_ms : ℤ
  pub lag_ms : ℤ

-- The values that the messages of the source print.
pub data ClockError : Type 0 where
  invalid_cron_expression : String → ClockError
  invalid_interval : ℤ → ClockError
  time_moved_backward : ℤ → ℤ → ClockError

-- `/` on i64 goes towards zero. A division by 0, which panics in the source, gives 0.
abbrev pub div_i64 : ℤ → ℤ → ℤ
div_i64 (pos a) (pos b) = pos (a / b)
div_i64 (pos a) (negsuc b) = neg_ℤ (pos (a / suc b))
div_i64 (negsuc a) (pos b) = neg_ℤ (pos (suc a / b))
div_i64 (negsuc a) (negsuc b) = pos (suc a / suc b)

-- The two's complement bits of an integer, and the i64 that they stand for.
abbrev i64_bits : ℤ → ℕ
i64_bits (pos n) = n % 2 ^ 64
i64_bits (negsuc n) = 2 ^ 64 - 1 - n % 2 ^ 64

abbrev i64_of_bits : ℕ → ℤ
i64_of_bits b = if ltb b (2 ^ 63) then pos b else negsuc (2 ^ 64 - 1 - b)

-- The value of an i64 operation whose exact result is given.
unfoldable pub wrap_i64 : ℤ → ℤ
wrap_i64 x = i64_of_bits (i64_bits x)

-- The start and a number of periods.
abbrev pub at_periods : ℤ → ℤ → ℤ → ℤ
at_periods start_ms every_ms periods = wrap_i64 (start_ms +ℤ wrap_i64 (periods *ℤ every_ms))

-- The whole periods that have gone by since the start.
abbrev pub periods_since : ℤ → ℤ → ℤ → ℤ
periods_since start_ms every_ms t = div_i64 (wrap_i64 (t -ℤ start_ms)) every_ms

-- The next fire of an interval strictly after `current_ms`.
unfoldable pub next_interval_fire : ℤ → ℤ → ℤ → ℤ
next_interval_fire start_ms every_ms current_ms =
    if ltb_ℤ current_ms start_ms
    then start_ms
    else at_periods start_ms every_ms
        (wrap_i64 (periods_since start_ms every_ms current_ms +ℤ pos 1))

-- The next fire at or after `target_ms`.
unfoldable pub next_interval_fire_at_or_after : ℤ → ℤ → ℤ → ℤ
next_interval_fire_at_or_after start_ms every_ms target_ms =
    if leb_ℤ target_ms start_ms
    then start_ms
    else (let candidate =
          at_periods start_ms every_ms (periods_since start_ms every_ms target_ms) in
        if leb_ℤ target_ms candidate then candidate else wrap_i64 (candidate +ℤ every_ms))

-- The latest fire at or before `target_ms`.
unfoldable pub latest_interval_fire_at_or_before : ℤ → ℤ → ℤ → ℤ
latest_interval_fire_at_or_before start_ms every_ms target_ms =
    if ltb_ℤ target_ms start_ms
    then start_ms
    else at_periods start_ms every_ms (periods_since start_ms every_ms target_ms)
