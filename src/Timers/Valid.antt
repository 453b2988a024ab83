-- ===== src/Timers/Valid.antt =====
-- The schedules that `register` of scheduler.rs lets in are valid, and stay so.
use zkbot.Prelude.{
  ℕ, ◌+◌, ◌^◌, subst, inl, inr, Bool-cases, Option-cases, Bool, true, false, Option, none, some,
  is_some, String, string_eq, lookup, lookup-insert_cases, lookup-remove, set_remove, arith,
  if◌then◌else◌, unwrap_or,
}
use zkbot.Prelude.Int.{ℤ, pos, ◌≤ℤ◌, leb_ℤ, int_laws}
use zkbot.Timers.{TimerRequest, TimerSchedule, once_at, interval, cron}
use zkbot.Timers.Scheduler
use zkbot.Timers.Scheduler.{
  TimerState, Scheduler, InternalSchedule, once, every, by_cron, Plan, refused, never, first_at,
  plan, cron_plan, enter, register, cancel, new, first_interval_fire,
}
use zkbot.Timers.Next.{IsTime, IsValidSchedule}
use zkbot.Timers.Drain.{IsValid}

-- The times of a request leave room for the arithmetic in 64 bits.
abbrev pub IsStart : Option ℤ → Type 0
IsStart none = Unit
IsStart (some t) = IsTime t

abbrev pub IsShort : TimerSchedule → Type 0
IsShort (interval every_ms start_ms end_ms) = (every_ms ≤ℤ pos (2 ^ 61)) × IsStart start_ms
IsShort _ = Unit

pub new-IsValid : {Cron : Type 0} → IsValid {Cron = Cron} Scheduler.new
unfolding lookup
new-IsValid = record { valid = λ key state h. ground arith }

abbrev IsValidPlan : {Cron : Type 0} → Plan Cron → Type 0
IsValidPlan (first_at schedule first) = IsValidSchedule schedule
IsValidPlan _ = Unit

within_plan :
    {Cron : Type 0} (fits : Bool) (schedule : InternalSchedule Cron) (first : ℤ)
    → IsValidSchedule schedule
    → IsValidPlan (if fits then first_at schedule first else never)
within_plan true schedule first v = v
within_plan false schedule first v = tt

start-IsTime :
    (start_ms : Option ℤ) (now_ms : ℤ)
    → IsStart start_ms
    → IsTime now_ms
    → IsTime (unwrap_or start_ms now_ms)
start-IsTime none now_ms h t = t
start-IsTime (some start_ms) now_ms h t = h

module _ {Cron : Type 0} (parse : String → Option Cron) (after : Cron → ℤ → Option ℤ) where
  plan_valid :
      (schedule : TimerSchedule) (now_ms : ℤ)
      → IsShort schedule
      → IsTime now_ms
      → IsValidPlan (plan parse after schedule now_ms)
  unfolding plan
  plan_valid (once_at fire_at_ms) now_ms short t = tt
  plan_valid (interval every_ms start_ms end_ms) now_ms short t =
      elim (Bool-cases (leb_ℤ every_ms (pos 0))) [
        | inl bad ↦ rw bad tt
        | inr good ↦
            let start = start-IsTime start_ms now_ms short.1 t in
            rw good
              (within_plan _ _ _ (omega (int_laws, good), short.0, start.0, omega (arith, start.1)))
      ]
  plan_valid (cron expr start_ms end_ms) now_ms short t = elim (Option-cases (parse expr)) [
    | inl e ↦ rw (e, plan) tt
    | inr (c, e) ↦ elim (Option-cases (after c (unwrap_or start_ms now_ms))) [
      | inl h ↦ rw (e, h, plan, cron_plan) tt
      | inr (first, h) ↦ rw (e, h, plan, cron_plan) (within_plan _ _ _ tt)
    ]
  ]

  enter-IsValid :
      (s : Scheduler Cron) (req : TimerRequest) (generation : ℕ) (p : Plan Cron)
      → IsValidPlan p
      → IsValid s
      → IsValid (enter s req generation p).0
  enter-IsValid s req generation (refused e) p v = v
  enter-IsValid s req generation never p v = v
  enter-IsValid s req generation (first_at schedule first) p v =
      let state : TimerState Cron = record {
        schedule = schedule;
        coalesce = req.coalesce;
        generation = generation;
      } in
      record {
        valid = λ key other h. elim (lookup-insert_cases req.timer_key key state other s.timers h) [
          | inl new ↦ subst (λ (x : TimerState Cron). IsValidSchedule x.schedule) new.1 p
          | inr old ↦ v.valid key other old.1
        ];
      }

  pub register-IsValid :
      (s : Scheduler Cron) (req : TimerRequest) (now_ms : ℤ)
      → IsShort req.schedule
      → IsTime now_ms
      → IsValid s
      → IsValid (register parse after s req now_ms).0
  unfolding register
  register-IsValid s req now_ms short t v =
      enter-IsValid
        (record s {
          next_generation = s.next_generation + 1;
          cancelled = set_remove req.timer_key s.cancelled;
        })
        req s.next_generation (plan parse after req.schedule now_ms)
        (plan_valid req.schedule now_ms short t) (record { valid = v.valid })

pub cancel-IsValid :
    {Cron : Type 0} (s : Scheduler Cron) (key : String) → IsValid s → IsValid (cancel s key).0
unfolding cancel
cancel-IsValid s key v = elim (Bool-cases (is_some (lookup key s.timers))) [
  | inr absent ↦ rw absent v
  | inl active ↦ rw active (record {
    valid =
        λ other state h. v.valid other state (ground (arith, lookup-remove key other s.timers, h));
  })
]
