-- ===== src/Timers/Next.antt =====
-- The next entry of a timer of scheduler.rs lies after the time of the drain.
use zkbot.Prelude.{
  ℕ, ◌-◌, ◌^◌, ◌≡◌, refl, inl, inr, Bool-cases, Option-cases, true, Option, some, arith,
}
use zkbot.Prelude.Int.{ℤ, pos, negsuc, ◌+ℤ◌, ◌≤ℤ◌, ◌<ℤ◌, leb_ℤ, ltb_ℤ, max_ℤ_cases, int_laws}
use zkbot.Timers.{
  TimerCoalescePolicy, fire_all, fire_once, skip_missed, wrap_i64, next_interval_fire,
  next_interval_fire_at_or_after, latest_interval_fire_at_or_before,
}
use zkbot.Timers.Policies.{
  bounded, next_bounded, latest_due, cron_last, cron_loop, rounds, interval_next, cron_next,
}
use zkbot.Timers.Intervals.{
  HasRoom, with_time, wrap_i64-fits, point_after, next_interval_fire-IsLeastPoint,
  next_interval_fire_at_or_after-IsLeastPoint, latest_interval_fire_at_or_before_lem,
}
use zkbot.Timers.Scheduler.{InternalSchedule, once, every, by_cron, next_time}

-- An interval of a millisecond at least, with times that leave room for the arithmetic in 64 bits.
abbrev pub IsValidSchedule : {Cron : Type 0} → InternalSchedule Cron → Type 0
IsValidSchedule (every every_ms start_ms end_ms) =
    (pos 0 <ℤ every_ms)
    × (every_ms ≤ℤ pos (2 ^ 61))
    × (negsuc (2 ^ 61 - 1) ≤ℤ start_ms)
    × (start_ms ≤ℤ pos (2 ^ 61))
IsValidSchedule _ = Unit

-- A time that leaves room for the arithmetic in 64 bits.
abbrev pub IsTime : ℤ → Type 0
IsTime t = (negsuc (2 ^ 61 - 1) ≤ℤ t) × (t <ℤ pos (2 ^ 61))

bounded_later :
    (end_ms : Option ℤ) (now_ms t u : ℤ) → now_ms <ℤ t → bounded end_ms t ≡ some u → now_ms <ℤ u
bounded_later end_ms now_ms t u later h = ground (arith, later, h)

latest_before :
    (start_ms now_ms : ℤ) (e : ℕ)
    → ltb_ℤ now_ms start_ms ≡ true
    → latest_interval_fire_at_or_before start_ms (pos e) now_ms ≡ start_ms
unfolding latest_interval_fire_at_or_before
latest_before start_ms now_ms e before = rw before refl

latest_due_high :
    (start_ms : ℤ) (e : ℕ) (end_ms : Option ℤ) (now_ms fire_ms : ℤ)
    → HasRoom start_ms e (now_ms +ℤ pos 1)
    → fire_ms ≤ℤ now_ms
    → latest_due start_ms (pos e) end_ms now_ms fire_ms ≤ℤ pos (2 ^ 61)
latest_due_high start_ms e end_ms now_ms fire_ms room is_due =
    let latest = latest_interval_fire_at_or_before start_ms (pos e) now_ms in
    let now_high : now_ms ≤ℤ pos (2 ^ 61) = omega (int_laws, room.high) in
    let latest_high : latest ≤ℤ pos (2 ^ 61) = elim (Bool-cases (ltb_ℤ now_ms start_ms)) [
      | inl before ↦ rw (latest_before start_ms now_ms e before) room.before
      | inr from ↦
          let (k, same, low, high) =
            latest_interval_fire_at_or_before_lem start_ms now_ms e (with_time room now_ms now_high)
              (omega (int_laws, from)) in
          omega (int_laws, same, low, now_high)
    ] in
    ground (arith, max_ℤ_cases latest fire_ms, latest_high, is_due, now_high)

-- The fire after the latest one that is due.
next_due_later :
    (start_ms : ℤ) (e : ℕ) (end_ms : Option ℤ) (now_ms fire_ms : ℤ)
    → HasRoom start_ms e (now_ms +ℤ pos 1)
    → fire_ms ≤ℤ now_ms
    → now_ms
      <ℤ next_interval_fire start_ms (pos e) (latest_due start_ms (pos e) end_ms now_ms fire_ms)
next_due_later start_ms e end_ms now_ms fire_ms room is_due =
    let latest = latest_interval_fire_at_or_before start_ms (pos e) now_ms in
    let now_room = with_time room now_ms (omega (int_laws, room.high)) in
    let r =
      next_interval_fire-IsLeastPoint start_ms (latest_due start_ms (pos e) end_ms now_ms fire_ms) e
        (with_time room (latest_due start_ms (pos e) end_ms now_ms fire_ms)
          (latest_due_high start_ms e end_ms now_ms fire_ms room is_due)) in
    let reached : latest ≤ℤ latest_due start_ms (pos e) end_ms now_ms fire_ms =
      ground (arith, max_ℤ_cases latest fire_ms) in
    elim (Bool-cases (ltb_ℤ now_ms start_ms)) [
      | inl before ↦
          let same : latest ≡ start_ms = latest_before start_ms now_ms e before in
          omega (int_laws, before, same, reached, r.fits)
      | inr from ↦
          let (k, same, low, high) =
            latest_interval_fire_at_or_before_lem start_ms now_ms e now_room
              (omega (int_laws, from)) in
          let after =
            point_after start_ms (latest_due start_ms (pos e) end_ms now_ms fire_ms) e k r.index
              (omega (int_laws, same, reached)) (omega (int_laws, r.on_grid, r.fits)) in
          omega (int_laws, high, after, r.on_grid)
    ]

next_after_later :
    (start_ms : ℤ) (e : ℕ) (now_ms : ℤ)
    → HasRoom start_ms e (now_ms +ℤ pos 1)
    → negsuc (2 ^ 61 - 1) ≤ℤ now_ms
    → now_ms <ℤ next_interval_fire_at_or_after start_ms (pos e) (wrap_i64 (now_ms +ℤ pos 1))
next_after_later start_ms e now_ms room in_range =
    let r = next_interval_fire_at_or_after-IsLeastPoint start_ms (now_ms +ℤ pos 1) e room in
    rw (wrap_i64-fits (now_ms +ℤ pos 1) (omega (int_laws, in_range)) (omega (int_laws, room.high)))
      (omega (int_laws, r.fits))

interval_next_later :
    (start_ms : ℤ) (e : ℕ) (end_ms : Option ℤ) (now_ms fire_ms u : ℤ) (policy : TimerCoalescePolicy)
    → HasRoom start_ms e (now_ms +ℤ pos 1)
    → fire_ms ≤ℤ now_ms
    → negsuc (2 ^ 61 - 1) ≤ℤ now_ms
    → interval_next start_ms (pos e) end_ms now_ms fire_ms policy ≡ some u
    → now_ms <ℤ u
unfolding interval_next
interval_next_later start_ms e end_ms now_ms fire_ms u fire_once room is_due in_range h =
    bounded_later end_ms now_ms _ u (next_due_later start_ms e end_ms now_ms fire_ms room is_due) h
interval_next_later start_ms e end_ms now_ms fire_ms u fire_all room is_due in_range h =
    bounded_later end_ms now_ms _ u (next_after_later start_ms e now_ms room in_range) h
interval_next_later start_ms e end_ms now_ms fire_ms u skip_missed room is_due in_range h =
    bounded_later end_ms now_ms _ u (next_after_later start_ms e now_ms room in_range) h

module _ {Cron : Type 0} (after : Cron → ℤ → Option ℤ)
    (after_later : (c : Cron) (t u : ℤ) → after c t ≡ some u → t <ℤ u) where
  next_bounded_later :
      (c : Cron) (end_ms : Option ℤ) (now_ms u : ℤ)
      → next_bounded end_ms (after c now_ms) ≡ some u
      → now_ms <ℤ u
  next_bounded_later c end_ms now_ms u h = elim (Option-cases (after c now_ms)) [
    | inl e ↦ ground (arith, e, h)
    | inr (t, e) ↦ bounded_later end_ms now_ms t u (after_later c now_ms t e) (rw e at h)
  ]

  cron_next_later :
      (c : Cron) (end_ms : Option ℤ) (now_ms fire_ms u : ℤ) (policy : TimerCoalescePolicy)
      → cron_next after c end_ms now_ms policy fire_ms ≡ some u
      → now_ms <ℤ u
  unfolding cron_next
  cron_next_later c end_ms now_ms fire_ms u skip_missed h = next_bounded_later c end_ms now_ms u h
  cron_next_later c end_ms now_ms fire_ms u fire_all h =
      elim (Bool-cases (cron_loop after c end_ms now_ms (rounds fire_ms now_ms) fire_ms 0).1) [
        | inl ended ↦ ground (arith, ended, h)
        | inr more ↦ next_bounded_later c end_ms now_ms u (rw more at h)
      ]
  cron_next_later c end_ms now_ms fire_ms u fire_once h =
      let last = cron_last after c end_ms now_ms (rounds fire_ms now_ms) fire_ms in
      elim (Option-cases (after c last)) [
        | inl e ↦ ground (arith, e, h)
        | inr (t, e) ↦ elim (Bool-cases (leb_ℤ t now_ms)) [
          | inl early ↦ next_bounded_later c end_ms now_ms u (rw (e, early) at h)
          | inr late ↦ bounded_later end_ms now_ms t u (omega (int_laws, late)) (rw (e, late) at h)
        ]
      ]

  pub next_time_later :
      (schedule : InternalSchedule Cron) (policy : TimerCoalescePolicy) (now_ms fire_ms u : ℤ)
      → IsValidSchedule schedule
      → IsTime now_ms
      → fire_ms ≤ℤ now_ms
      → next_time after schedule policy now_ms fire_ms ≡ some u
      → now_ms <ℤ u
  unfolding next_time
  next_time_later once policy now_ms fire_ms u v t is_due h = ground arith
  next_time_later (every (pos e) start_ms end_ms) policy now_ms fire_ms u v t is_due h =
      interval_next_later start_ms e end_ms now_ms fire_ms u policy
        (record {
          positive = omega (arith, v.0);
          small = omega (arith, v.1);
          low = v.2;
          before = v.3;
          high = omega (int_laws, t.1);
        })
        is_due t.0 h
  next_time_later (every (negsuc e) start_ms end_ms) policy now_ms fire_ms u v t is_due h =
      absurd (omega (arith, v.0))
  next_time_later (by_cron c end_ms) policy now_ms fire_ms u v t is_due h =
      cron_next_later c end_ms now_ms fire_ms u policy h
