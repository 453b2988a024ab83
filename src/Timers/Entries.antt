-- ===== src/Timers/Entries.antt =====
-- The invariant of the scheduler in scheduler.rs: every active timer has its entry on the heap,
-- and is not marked as cancelled.
use zkbot.Prelude.{
  ℕ, zero, suc, ◌+◌, ◌≤◌, ◌≡◌, subst, inl, inr, Bool-cases, Option-cases, false, ◌&&◌, Option, none,
  some, is_some, String, string_eq, ==_iff, ◌==◌, lookup, lookup-insert_cases, lookup-remove,
  contains, set_remove, contains-set_insert, contains-set_remove, List, ◌∷◌, length, nat_beq, arith,
  if◌then◌else◌,
}
use zkbot.Prelude.Int.{ℤ, ltb_ℤ}
use zkbot.Timers.{TimerRequest}
use zkbot.Timers.Scheduler
use zkbot.Timers.Scheduler.{
  HeapEntry, heap_pop, TimerState, Scheduler, handle_entry, drain, drain_due, next_time, reschedule,
  InternalSchedule, once, every, by_cron, Plan, refused, never, first_at, plan, cron_plan, enter,
  register, cancel, new, first_interval_fire,
}
use zkbot.Timers.Heap.{total, total-heap_pop}
use zkbot.Timers.Drain.{List-cases}

-- Whether an entry is the one of a timer.
abbrev pub of_timer : String → ℕ → HeapEntry → ℕ
of_timer key generation e = if e.key == key && nat_beq generation e.generation then 1 else 0

-- The invariant, when the entries of a further weight are still to be handled.
pub record IsTracked {Cron : Type 0} (further : String → ℕ → ℕ) (s : Scheduler Cron) : Type 0 where
  pub tracked :
      (key : String) (state : TimerState Cron)
      → lookup key s.timers ≡ some state
      → (contains key s.cancelled ≡ false)
        × (1 ≤ further key state.generation + total (of_timer key state.generation) s.heap)

abbrev pub nothing_further : String → ℕ → ℕ
nothing_further key generation = 0

abbrev pub entry_of : HeapEntry → String → ℕ → ℕ
entry_of e key generation = of_timer key generation e

module _ {Cron : Type 0} (after : Cron → ℤ → Option ℤ) (now_ms : ℤ) where
  reschedule-IsTracked :
      (s : Scheduler Cron) (e : HeapEntry) (next : Option ℤ)
      → IsTracked (entry_of e) s
      → IsTracked nothing_further (reschedule s e next)
  unfolding total
  reschedule-IsTracked s e none v = record {
    tracked = λ key state h.
        let kept = lookup-remove e.key key s.timers in
        let active : lookup key s.timers ≡ some state = ground (arith, kept, h) in
        ground (arith, kept, h, v.tracked key state active);
  }
  reschedule-IsTracked s e (some next) v = record {
    tracked = λ key state h. ground (arith, v.tracked key state h);
  }

  handle_entry-IsTracked :
      (s : Scheduler Cron) (e : HeapEntry)
      → IsTracked (entry_of e) s
      → IsTracked nothing_further (handle_entry after now_ms s e).0
  unfolding handle_entry
  handle_entry-IsTracked s e v = elim (Bool-cases (contains e.key s.cancelled)) [
    | inl gone ↦ rw gone (record {
      tracked = λ key state h. ground (
        arith,
        v.tracked key state h,
        ==_iff e.key key,
        contains-set_remove e.key key s.cancelled,
        gone,
      );
    })
    | inr kept ↦ elim (Option-cases (lookup e.key s.timers)) [
      | inl none_left ↦
          rw (kept, none_left)
            (record {
              tracked = λ key state h.
                  ground (arith, v.tracked key state h, ==_iff e.key key, none_left, h);
            })
      | inr (state, found) ↦ elim (Bool-cases (nat_beq state.generation e.generation)) [
        | inr stale ↦
            rw (kept, found, stale, handle_entry)
              (record {
                tracked = λ key other h.
                    ground (arith, v.tracked key other h, ==_iff e.key key, found, stale, h);
              })
        | inl current ↦
            rw (kept, found, current, handle_entry)
              (reschedule-IsTracked s e
                (next_time after state.schedule state.coalesce now_ms e.fire_ms) v)
      ]
    ]
  ]

  drain-IsTracked :
      (fuel : ℕ) (s : Scheduler Cron)
      → IsTracked nothing_further s
      → IsTracked nothing_further (drain after fuel now_ms s).0
  unfolding drain
  drain-IsTracked zero s v = v
  drain-IsTracked (suc fuel) s v = elim (List-cases s.heap) [
    | inl empty ↦ rw (empty, drain) v
    | inr (x, (xs, heap)) ↦ elim (Bool-cases (ltb_ℤ now_ms (heap_pop x xs).0.fire_ms)) [
      | inl later ↦ rw (heap, later, drain) v
      | inr early ↦
          let e = (heap_pop x xs).0 in
          let rest = record s { heap = (heap_pop x xs).1 } in
          rw (heap, early, drain)
            (drain-IsTracked fuel (handle_entry after now_ms rest e).0 (
              handle_entry-IsTracked rest e (record {
                tracked = λ key state h.
                    let parts = total-heap_pop (of_timer key state.generation) x xs in
                    let before : 1 ≤ total (of_timer key state.generation) (x ∷ xs) =
                      subst (λ (es : List HeapEntry). 1 ≤ total (of_timer key state.generation) es)
                        heap (omega (arith, (v.tracked key state h).1)) in
                    ((v.tracked key state h).0, omega (arith, parts, before));
              })))
    ]
  ]

pub new-IsTracked : {Cron : Type 0} → IsTracked {Cron = Cron} nothing_further Scheduler.new
unfolding lookup
new-IsTracked = record { tracked = λ key state h. ground arith }

module _ {Cron : Type 0} (parse : String → Option Cron) (after : Cron → ℤ → Option ℤ) where
  enter-IsTracked :
      (s : Scheduler Cron) (req : TimerRequest) (generation : ℕ) (p : Plan Cron)
      → contains req.timer_key s.cancelled ≡ false
      → IsTracked nothing_further s
      → IsTracked nothing_further (enter s req generation p).0
  unfolding total
  enter-IsTracked s req generation (refused e) fresh v = v
  enter-IsTracked s req generation never fresh v = v
  enter-IsTracked s req generation (first_at schedule first) fresh v =
      let state : TimerState Cron = record {
        schedule = schedule;
        coalesce = req.coalesce;
        generation = generation;
      } in
      record {
        tracked = λ key other h.
            elim (lookup-insert_cases req.timer_key key state other s.timers h) [
              | inl new ↦ ground (arith, new, fresh, ==_iff req.timer_key key)
              | inr old ↦ ground (arith, v.tracked key other old.1)
            ];
      }

  pub register-IsTracked :
      (s : Scheduler Cron) (req : TimerRequest) (now_ms : ℤ)
      → IsTracked nothing_further s
      → IsTracked nothing_further (register parse after s req now_ms).0
  unfolding register
  register-IsTracked s req now_ms v =
      let kept = λ (key : String). contains-set_remove req.timer_key key s.cancelled in
      enter-IsTracked
        (record s {
          next_generation = s.next_generation + 1;
          cancelled = set_remove req.timer_key s.cancelled;
        })
        req s.next_generation (plan parse after req.schedule now_ms)
        (ground (arith, kept req.timer_key, ==_iff req.timer_key req.timer_key))
        (record { tracked = λ key state h. ground (arith, kept key, v.tracked key state h) })

pub cancel-IsTracked :
    {Cron : Type 0} (s : Scheduler Cron) (key : String)
    → IsTracked nothing_further s
    → IsTracked nothing_further (cancel s key).0
unfolding cancel
cancel-IsTracked s key v = elim (Bool-cases (is_some (lookup key s.timers))) [
  | inr absent ↦ rw absent v
  | inl active ↦ rw active (record {
    tracked = λ other state h.
        let kept = lookup-remove key other s.timers in
        let before : lookup other s.timers ≡ some state = ground (arith, kept, h) in
        ground
          (arith, kept, h, contains-set_insert key other s.cancelled, v.tracked other state before);
  })
]

pub drain_due-IsTracked :
    {Cron : Type 0} (after : Cron → ℤ → Option ℤ) (now_ms : ℤ) (s : Scheduler Cron)
    → IsTracked nothing_further s
    → IsTracked nothing_further (drain_due after now_ms s).0
unfolding drain_due
drain_due-IsTracked after now_ms s v = drain-IsTracked after now_ms (length s.heap) s v
