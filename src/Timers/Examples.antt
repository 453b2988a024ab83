-- ===== src/Timers/Examples.antt =====
-- A heartbeat every 50 ms from 100 on, and a report at 30 past each minute.
use zkbot.Prelude.{
  ℕ, suc, ◌+◌, ◌*◌, ◌<◌, ◌≡◌, refl, false, Option, none, some, is_none, String, string_eq, ◌==◌,
  lookup, insert, contains, set_remove, List, [], ◌∷◌, All, arith, if◌then◌else◌,
}
use zkbot.Prelude.Int.{ℤ, pos, ◌+ℤ◌, ◌-ℤ◌, ◌*ℤ◌, ◌≤ℤ◌, ◌<ℤ◌, int_laws}
use zkbot.Timers.{
  wrap_i64, interval, cron, fire_all, fire_once, TimerRequest, next_interval_fire,
  next_interval_fire_at_or_after,
}
use zkbot.Timers.Policies.{bounded, interval_fires, interval_next}
use zkbot.Timers.Scheduler.{
  register, first_interval_fire, cancel, due_times, next_time, drain_due, peek_next_fire_ms,
}
use zkbot.Timers.Clock
use zkbot.Timers.Clock.{SimClock, set_timer, cancel_timer, advance_to, peek_next, no_active_timers}
use zkbot.Timers.Intervals.{point}
use zkbot.Timers.Fires.{IsOrdered, IsFireOf, drain_due_fires, drain_due-cancel}
use zkbot.Timers.Points.{points, interval_fires-points}
use zkbot.Timers.Reachable.{ClockOp, set_op, advance_op, run_ops, no_active_timers-run_ops}

-- A schedule is its period less one, over times that count from 30 s.
abbrev parse : String → Option ℕ
parse expr = if expr == "30 * * * * *" then some 59999 else none

abbrev after : ℕ → ℤ → Option ℤ
after c t = some (t +ℤ pos (suc c))

abbrev heartbeat : TimerRequest
heartbeat = record {
  timer_key = "heartbeat";
  schedule = interval (pos 50) (some (pos 100)) none;
  coalesce = fire_all;
}

abbrev report : TimerRequest
report = record {
  timer_key = "report";
  schedule = cron "30 * * * * *" none none;
  coalesce = fire_once;
}

abbrev ops : List ClockOp
ops = set_op heartbeat ∷ set_op report ∷ advance_op (pos 120) ∷ []

abbrev clock : SimClock ℕ
clock = run_ops parse after (Clock.new (pos 0)) ops

clock_next : peek_next (advance_to after clock (pos 210)).0 ≡ some (pos 250)
unfolding run_ops register first_interval_fire drain_due due_times next_time next_interval_fire
    next_interval_fire_at_or_after wrap_i64 peek_next peek_next_fire_ms lookup insert contains
    set_remove ◌+ℤ◌ ◌-ℤ◌ ◌*ℤ◌
clock_next = refl

no_active_timers-run_ops_example : no_active_timers clock ≡ is_none (peek_next clock)
no_active_timers-run_ops_example = no_active_timers-run_ops parse after (pos 0) ops

drain_due_fires_example :
    IsOrdered (drain_due after (pos 210) clock.scheduler).1
    × All (IsFireOf clock.scheduler.timers (pos 210)) (drain_due after (pos 210) clock.scheduler).1
drain_due_fires_example = drain_due_fires after (pos 210) clock.scheduler

drain_due-cancel_example :
    All
      (λ f. (f.timer_key == "heartbeat") ≡ false)
      (drain_due after (pos 210) (cancel clock.scheduler "heartbeat").0).1
drain_due-cancel_example = drain_due-cancel after (pos 210) clock.scheduler "heartbeat"

interval_fires-points_example :
    (n : ℕ) × (interval_fires (pos 100) (pos 50) none (pos 210) (pos 100 +ℤ pos (1 * 50)) fire_all
      ≡ points (pos 100) 50 none 1 n)
    × (interval_next (pos 100) (pos 50) none (pos 210) (pos 100 +ℤ pos (1 * 50)) fire_all
        ≡ bounded none (point (pos 100) 50 (1 + n)))
    × ((j : ℕ) → j < n → point (pos 100) 50 (1 + j) ≤ℤ pos 210)
    × (pos 210 <ℤ point (pos 100) 50 (1 + n))
interval_fires-points_example =
    interval_fires-points (pos 100) 50 (pos 210)
      (record {
        positive = omega arith;
        small = omega arith;
        low = omega arith;
        before = omega arith;
        high = omega int_laws;
      })
      none 1 (omega int_laws)
