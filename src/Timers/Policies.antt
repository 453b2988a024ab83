-- ===== src/Timers/Policies.antt =====
-- What `Scheduler::drain_due` of scheduler.rs does for a timer whose time has come: the times at
-- which it fires, and the time of its next entry, none for a timer that is removed. The crate
-- `cron` is a type of its schedules and its function `after(..).next()` in milliseconds; a time
-- that chrono cannot represent, which panics in the source, is not modelled.
use zkbot.Prelude.{
  ℕ, zero, suc, ◌+◌, Bool, true, false, ◌||◌, Option, none, some, List, [], ◌∷◌, leb, int_beq,
  if◌then◌else◌,
}
use zkbot.Prelude.Int.{ℤ, pos, ◌+ℤ◌, ◌-ℤ◌, pos_part, leb_ℤ, ltb_ℤ, max_ℤ}
use zkbot.Timers.{
  TimerCoalescePolicy, fire_all, fire_once, skip_missed, wrap_i64, next_interval_fire,
  next_interval_fire_at_or_after, latest_interval_fire_at_or_before,
}

abbrev pub max_cron_fires_per_drain : ℕ
max_cron_fires_per_drain = 10000

-- `end.is_none_or(|e| t <= e)`
abbrev pub within : Option ℤ → ℤ → Bool
within none t = true
within (some e) t = leb_ℤ t e

abbrev pub bounded : Option ℤ → ℤ → Option ℤ
bounded end_ms t = if within end_ms t then some t else none

abbrev pub emit : Option ℤ → ℤ → List ℤ → List ℤ
emit end_ms t ts = if within end_ms t then t ∷ ts else ts

-- The rounds of a loop from `t` to `now_ms` whose time grows by 1 at least, as it does without an
-- overflow; with one the loop of the source can run on.
abbrev pub rounds : ℤ → ℤ → ℕ
rounds t now_ms = suc (pos_part (now_ms -ℤ t))

-- On time, or skipped.
abbrev pub on_time : Option ℤ → ℤ → ℤ → List ℤ
on_time end_ms now_ms fire_ms = if int_beq fire_ms now_ms then emit end_ms fire_ms [] else []

module _ (start_ms every_ms : ℤ) (end_ms : Option ℤ) (now_ms fire_ms : ℤ) where
  -- `while t <= now_ms`, on fuel.
  unfoldable pub interval_loop : ℕ → ℤ → List ℤ
  interval_loop zero t = []
  interval_loop (suc fuel) t = elim (leb_ℤ t now_ms) [
    | false ↦ []
    | true ↦ emit end_ms t (elim (int_beq (next_interval_fire start_ms every_ms t) fire_ms) [
      | true ↦ []
      | false ↦ interval_loop fuel (next_interval_fire start_ms every_ms t)
    ])
  ]

  abbrev pub latest_due : ℤ
  latest_due = max_ℤ (latest_interval_fire_at_or_before start_ms every_ms now_ms) fire_ms

  unfoldable pub interval_fires : TimerCoalescePolicy → List ℤ
  unfolding interval_loop
  interval_fires fire_all = interval_loop (rounds fire_ms now_ms) fire_ms
  interval_fires fire_once = emit end_ms latest_due []
  interval_fires skip_missed = on_time end_ms now_ms fire_ms

  unfoldable pub interval_next : TimerCoalescePolicy → Option ℤ
  interval_next fire_once = bounded end_ms (next_interval_fire start_ms every_ms latest_due)
  interval_next fire_all =
      bounded end_ms (next_interval_fire_at_or_after start_ms every_ms (wrap_i64 (now_ms +ℤ pos 1)))
  interval_next skip_missed =
      bounded end_ms (next_interval_fire_at_or_after start_ms every_ms (wrap_i64 (now_ms +ℤ pos 1)))

abbrev pub next_bounded : Option ℤ → Option ℤ → Option ℤ
next_bounded end_ms none = none
next_bounded end_ms (some t) = bounded end_ms t

module _ {Cron : Type 0} (after : Cron → ℤ → Option ℤ) (c : Cron) (end_ms : Option ℤ)
    (now_ms : ℤ) where
  -- The loop of `FireAll`, on fuel, with whether the schedule has run out.
  unfoldable pub cron_loop : ℕ → ℤ → ℕ → List ℤ × Bool
  cron_loop zero t count = ([], false)
  cron_loop (suc fuel) t count = elim (ltb_ℤ now_ms t || leb max_cron_fires_per_drain count) [
    | true ↦ ([], false)
    | false ↦ elim (after c t) [
      | none ↦ (emit end_ms t [], true)
      | some u ↦
          let (ts, ended) = cron_loop fuel u (if within end_ms t then count + 1 else count) in
          (emit end_ms t ts, ended)
    ]
  ]

  -- The loop of `FireOnce`, on fuel: the last time at or before `now_ms`.
  unfoldable pub cron_last : ℕ → ℤ → ℤ
  cron_last zero t = t
  cron_last (suc fuel) t = elim (after c t) [
    | none ↦ t
    | some u ↦ elim (ltb_ℤ now_ms u) [ true ↦ t | false ↦ cron_last fuel u ]
  ]

  abbrev pub past_now : Option ℤ → Option ℤ
  past_now none = none
  past_now (some t) = if leb_ℤ t now_ms then after c now_ms else some t

  unfoldable pub cron_fires : TimerCoalescePolicy → ℤ → List ℤ
  unfolding cron_loop cron_last
  cron_fires fire_all fire_ms = (cron_loop (rounds fire_ms now_ms) fire_ms 0).0
  cron_fires fire_once fire_ms = emit end_ms (cron_last (rounds fire_ms now_ms) fire_ms) []
  cron_fires skip_missed fire_ms = on_time end_ms now_ms fire_ms

  unfoldable pub cron_next : TimerCoalescePolicy → ℤ → Option ℤ
  unfolding cron_loop cron_last
  cron_next fire_all fire_ms =
      if (cron_loop (rounds fire_ms now_ms) fire_ms 0).1
      then none
      else next_bounded end_ms (after c now_ms)
  cron_next fire_once fire_ms =
      next_bounded end_ms (past_now (after c (cron_last (rounds fire_ms now_ms) fire_ms)))
  cron_next skip_missed fire_ms = next_bounded end_ms (after c now_ms)
