-- ===== src/Timers/Scheduler.antt =====
-- `Scheduler` of scheduler.rs. The binary heap is a list, of which `pop` takes the least entry by
-- time, key and generation; texts are compared by code points, which is Rust's order of `str`.
use zkbot.Prelude.{
  ℕ, zero, suc, ◌+◌, Bool, true, false, ◌&&◌, ◌||◌, Option, none, some, is_some, String, string_eq,
  HashMap, lookup, insert, remove, HashSet, contains, set_insert, set_remove, List, [], ◌∷◌, ◌++◌,
  length, nat_beq, ltb, int_beq, ◌==◌, if◌then◌else◌, map, unwrap_or,
}
use zkbot.Prelude.Int.{ℤ, pos, ◌+ℤ◌, ◌-ℤ◌, leb_ℤ, ltb_ℤ}
use Prim.Native.Nat.{Ordering}
use Prim.Native.String.{compare}
use zkbot.Timers.{
  TimerSchedule, once_at, interval, cron, TimerCoalescePolicy, TimerRequest, TimerFire, ClockError,
  invalid_cron_expression, invalid_interval, wrap_i64, at_periods, periods_since,
}
use zkbot.Timers.Policies.{within, interval_fires, interval_next, cron_fires, cron_next}

abbrev pub str_ltb : String → String → Bool
str_ltb s t = elim (compare s t) [ Ordering.lt ↦ true | _ ↦ false ]

pub record HeapEntry : Type 0 where
  pub fire_ms : ℤ
  pub key : String
  pub generation : ℕ

abbrev pub entry_ltb : HeapEntry → HeapEntry → Bool
entry_ltb a b =
    ltb_ℤ a.fire_ms b.fire_ms
    || (int_beq a.fire_ms b.fire_ms
        && (str_ltb a.key b.key || (a.key == b.key && ltb a.generation b.generation)))

-- The least entry, and the others.
unfoldable pub heap_pop : HeapEntry → List HeapEntry → HeapEntry × List HeapEntry
heap_pop x [] = (x, [])
heap_pop x (y ∷ ys) =
    let (best, others) = heap_pop y ys in
    if entry_ltb best x then (best, x ∷ others) else (x, y ∷ ys)

abbrev pub fire_ltb : TimerFire → TimerFire → Bool
fire_ltb a b =
    ltb_ℤ a.scheduled_ts_ms b.scheduled_ts_ms
    || (int_beq a.scheduled_ts_ms b.scheduled_ts_ms && str_ltb a.timer_key b.timer_key)

-- `sort_by` on time and key, which is stable.
unfoldable pub insert_fire : TimerFire → List TimerFire → List TimerFire
insert_fire x [] = x ∷ []
insert_fire x (y ∷ ys) =
    let rest = insert_fire x ys in if fire_ltb y x then y ∷ rest else x ∷ y ∷ ys

unfoldable pub sort_fires : List TimerFire → List TimerFire
unfolding insert_fire
sort_fires [] = []
sort_fires (x ∷ xs) = insert_fire x (sort_fires xs)

pub data InternalSchedule (Cron : Type 0) : Type 0 where
  once : InternalSchedule Cron
  -- every_ms, start_ms, end_ms
  every : ℤ → ℤ → Option ℤ → InternalSchedule Cron
  by_cron : Cron → Option ℤ → InternalSchedule Cron

pub record TimerState (Cron : Type 0) : Type 0 where
  pub schedule : InternalSchedule Cron
  pub coalesce : TimerCoalescePolicy
  pub generation : ℕ

pub record Scheduler (Cron : Type 0) : Type 0 where
  pub heap : List HeapEntry
  pub timers : HashMap String (TimerState Cron)
  pub cancelled : HashSet String
  pub next_generation : ℕ

-- What a request comes to: an error, no fire at all, or a schedule with its first fire.
pub data Plan (Cron : Type 0) : Type 0 where
  refused : ClockError → Plan Cron
  never : Plan Cron
  first_at : InternalSchedule Cron → ℤ → Plan Cron

-- `Result<(), ClockError>`
pub data Registered : Type 0 where
  ok : Registered
  err : ClockError → Registered

-- The first fire of an interval at or after `now_ms`, from its start on.
unfoldable pub first_interval_fire : ℤ → ℤ → ℤ → ℤ
first_interval_fire start_ms every_ms now_ms =
    if leb_ℤ now_ms start_ms
    then start_ms
    else (let candidate = at_periods start_ms every_ms (periods_since start_ms every_ms now_ms) in
        if ltb_ℤ candidate now_ms then wrap_i64 (candidate +ℤ every_ms) else candidate)

module _ {Cron : Type 0} where
  abbrev pub new : Scheduler Cron
  new = record { heap = []; timers = []; cancelled = []; next_generation = 0 }

  abbrev pub first_within : Option ℤ → InternalSchedule Cron → ℤ → Plan Cron
  first_within end_ms schedule first =
      if within end_ms first then first_at schedule first else never

  -- `cancel`, with whether the timer was active.
  unfoldable pub cancel : Scheduler Cron → String → Scheduler Cron × Bool
  cancel s key =
      if is_some (lookup key s.timers)
      then (record s { timers = remove key s.timers; cancelled = set_insert key s.cancelled }, true)
      else (s, false)

module _ {Cron : Type 0} where
  abbrev pub enter : Scheduler Cron → TimerRequest → ℕ → Plan Cron → Scheduler Cron × Registered
  enter s req generation (refused e) = (s, err e)
  enter s req generation never = (s, ok)
  enter s req generation (first_at schedule first) = (
    record s {
      timers =
          insert req.timer_key
            (record { schedule = schedule; coalesce = req.coalesce; generation = generation })
            s.timers;
      heap = record { fire_ms = first; key = req.timer_key; generation = generation } ∷ s.heap;
    },
    ok,
  )

  abbrev pub cron_plan : (Cron → ℤ → Option ℤ) → Cron → ℤ → Option ℤ → Plan Cron
  cron_plan after c start end_ms = elim (after c start) [
    | none ↦ never
    | some first ↦ first_within end_ms (by_cron c end_ms) first
  ]

module _ {Cron : Type 0} (parse : String → Option Cron) (after : Cron → ℤ → Option ℤ) where
  unfoldable pub plan : TimerSchedule → ℤ → Plan Cron
  unfolding first_interval_fire
  plan (once_at fire_at_ms) now_ms = first_at once fire_at_ms
  plan (interval every_ms start_ms end_ms) now_ms =
      if leb_ℤ every_ms (pos 0)
      then refused (invalid_interval every_ms)
      else (let start = unwrap_or start_ms now_ms in
          first_within end_ms (every every_ms start end_ms)
            (first_interval_fire start every_ms now_ms))
  plan (cron expr start_ms end_ms) now_ms = elim (parse expr) [
    | none ↦ refused (invalid_cron_expression expr)
    | some c ↦ cron_plan after c (unwrap_or start_ms now_ms) end_ms
  ]

  unfoldable pub register : Scheduler Cron → TimerRequest → ℤ → Scheduler Cron × Registered
  unfolding plan
  register s req now_ms =
      enter
        (record s {
          next_generation = s.next_generation + 1;
          cancelled = set_remove req.timer_key s.cancelled;
        })
        req s.next_generation (plan req.schedule now_ms)

abbrev pub timer_fire : String → ℤ → ℤ → TimerFire
timer_fire key now_ms t = record {
  timer_key = key;
  scheduled_ts_ms = t;
  dispatch_ts_ms = now_ms;
  lag_ms = wrap_i64 (now_ms -ℤ t);
}

abbrev pub reschedule : {Cron : Type 0} → Scheduler Cron → HeapEntry → Option ℤ → Scheduler Cron
reschedule s e none = record s { timers = remove e.key s.timers }
reschedule s e (some next) = record s {
  heap = record { fire_ms = next; key = e.key; generation = e.generation } ∷ s.heap;
}

module _ {Cron : Type 0} (after : Cron → ℤ → Option ℤ) where
  unfoldable pub due_times : InternalSchedule Cron → TimerCoalescePolicy → ℤ → ℤ → List ℤ
  unfolding interval_fires cron_fires
  due_times once coalesce now_ms fire_ms = fire_ms ∷ []
  due_times (every every_ms start_ms end_ms) coalesce now_ms fire_ms =
      interval_fires start_ms every_ms end_ms now_ms fire_ms coalesce
  due_times (by_cron c end_ms) coalesce now_ms fire_ms =
      cron_fires after c end_ms now_ms coalesce fire_ms

  unfoldable pub next_time : InternalSchedule Cron → TimerCoalescePolicy → ℤ → ℤ → Option ℤ
  unfolding interval_next cron_next
  next_time once coalesce now_ms fire_ms = none
  next_time (every every_ms start_ms end_ms) coalesce now_ms fire_ms =
      interval_next start_ms every_ms end_ms now_ms fire_ms coalesce
  next_time (by_cron c end_ms) coalesce now_ms fire_ms =
      cron_next after c end_ms now_ms coalesce fire_ms

  -- An entry that has been popped: of a cancelled or replaced timer, or due.
  unfoldable pub handle_entry : ℤ → Scheduler Cron → HeapEntry → Scheduler Cron × List TimerFire
  unfolding due_times next_time
  handle_entry now_ms s e =
      if contains e.key s.cancelled
      then (record s { cancelled = set_remove e.key s.cancelled }, [])
      else elim (lookup e.key s.timers) [
        | none ↦ (s, [])
        | some state ↦
            if nat_beq state.generation e.generation
            then (
              reschedule s e (next_time state.schedule state.coalesce now_ms e.fire_ms),
              map (timer_fire e.key now_ms)
                  (due_times state.schedule state.coalesce now_ms e.fire_ms),
            )
            else (s, [])
      ]

  -- The loop of `drain_due`, on fuel; where no time overflows, the number of entries at its start is
  -- enough (Timers.Drain.drain_due_lem).
  unfoldable pub drain : ℕ → ℤ → Scheduler Cron → Scheduler Cron × List TimerFire
  unfolding handle_entry heap_pop
  drain zero now_ms s = (s, [])
  drain (suc fuel) now_ms s = elim s.heap [
    | [] ↦ (s, [])
    | x ∷ xs ↦
        let (e, others) = heap_pop x xs in
        elim (ltb_ℤ now_ms e.fire_ms) [
          | true ↦ (s, [])
          | false ↦
              let (s1, fires) = handle_entry now_ms (record s { heap = others }) e in
              let (s2, more) = drain fuel now_ms s1 in (s2, fires ++ more)
        ]
  ]

  unfoldable pub drain_due : ℤ → Scheduler Cron → Scheduler Cron × List TimerFire
  unfolding drain sort_fires
  drain_due now_ms s = let (s1, fires) = drain (length s.heap) now_ms s in (s1, sort_fires fires)

abbrev pub earliest : Option ℤ → ℤ → Option ℤ
earliest none t = some t
earliest (some best) t = if ltb_ℤ t best then some t else some best

module _ {Cron : Type 0} where
  -- Whether an entry is of a timer that is still active.
  unfoldable pub is_current : Scheduler Cron → HeapEntry → Bool
  is_current s e = if contains e.key s.cancelled then false else elim (lookup e.key s.timers) [
    | none ↦ false
    | some state ↦ nat_beq state.generation e.generation
  ]

  unfoldable pub peek_entries : Scheduler Cron → List HeapEntry → Option ℤ → Option ℤ
  unfolding is_current
  peek_entries s [] best = best
  peek_entries s (e ∷ es) best =
      peek_entries s es (if is_current s e then earliest best e.fire_ms else best)

  unfoldable pub peek_next_fire_ms : Scheduler Cron → Option ℤ
  unfolding peek_entries
  peek_next_fire_ms s = peek_entries s s.heap none

  abbrev pub no_timers : HashMap String (TimerState Cron) → Bool
  no_timers [] = true
  no_timers (x ∷ xs) = false

  unfoldable pub is_empty : Scheduler Cron → Bool
  is_empty s = no_timers s.timers
