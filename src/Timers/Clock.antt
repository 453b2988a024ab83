-- ===== src/Timers/Clock.antt =====
-- `SimClock` (sim_clock.rs) and the helpers that `TestClock` (test_clock.rs) adds to it.
use zkbot.Prelude.{Bool, Option, String, List, if◌then◌else◌}
use zkbot.Prelude.Int.{ℤ, ◌+ℤ◌, ltb_ℤ}
use zkbot.Timers.{wrap_i64, TimerRequest, TimerFire, ClockError, time_moved_backward}
use zkbot.Timers.Scheduler
use zkbot.Timers.Scheduler.{Registered, register, cancel, drain_due, peek_next_fire_ms, is_empty}

pub record SimClock (Cron : Type 0) : Type 0 where
  pub current_ms : ℤ
  pub scheduler : Scheduler.Scheduler Cron

-- `Result<Vec<TimerFire>, ClockError>`
pub data Advanced : Type 0 where
  fires : List TimerFire → Advanced
  refused : ClockError → Advanced

module _ {Cron : Type 0} where
  abbrev pub new : ℤ → SimClock Cron
  new start_ms = record { current_ms = start_ms; scheduler = Scheduler.new }

  unfoldable pub cancel_timer : SimClock Cron → String → SimClock Cron × Bool
  unfolding cancel
  cancel_timer clock key =
      let (s, active) = cancel clock.scheduler key in (record clock { scheduler = s }, active)

  unfoldable pub peek_next : SimClock Cron → Option ℤ
  peek_next clock = peek_next_fire_ms clock.scheduler

  unfoldable pub no_active_timers : SimClock Cron → Bool
  no_active_timers clock = is_empty clock.scheduler

module _ {Cron : Type 0} (after : Cron → ℤ → Option ℤ) where
  unfoldable pub set_timer :
      (String → Option Cron) → SimClock Cron → TimerRequest → SimClock Cron × Registered
  unfolding register
  set_timer parse clock req =
      let (s, result) = register parse after clock.scheduler req clock.current_ms in
      (record clock { scheduler = s }, result)

  unfoldable pub advance_to : SimClock Cron → ℤ → SimClock Cron × Advanced
  unfolding drain_due
  advance_to clock now_ms =
      if ltb_ℤ now_ms clock.current_ms
      then (clock, refused (time_moved_backward clock.current_ms now_ms))
      else (let (s, due) = drain_due after now_ms clock.scheduler in
          (record { current_ms = now_ms; scheduler = s }, fires due))

  unfoldable pub tick : SimClock Cron → ℤ → SimClock Cron × Advanced
  unfolding advance_to
  tick clock delta_ms = advance_to clock (wrap_i64 (clock.current_ms +ℤ delta_ms))
