-- ===== src/Timers/Drain.antt =====
-- The loop of `drain_due` in scheduler.rs ends with no due entry on the heap.
use zkbot.Prelude.{
  ℕ, zero, suc, ◌≤◌, ◌≡◌, refl, ◌⊎◌, inl, inr, Bool-cases, Option-cases, Option, none, some, String,
  string_eq, lookup, lookup-remove, contains, List, [], ◌∷◌, length, nat_beq, All, arith,
}
use zkbot.Prelude.Int.{ℤ, ltb_ℤ, ◌≤ℤ◌, ◌<ℤ◌, int_laws}
use zkbot.Timers.Scheduler.{
  HeapEntry, heap_pop, TimerState, Scheduler, handle_entry, drain, drain_due, next_time, reschedule,
}
use zkbot.Timers.Heap.{total, total-heap_pop, due, heap_pop_last_due, total-length}
use zkbot.Timers.Next.{IsTime, IsValidSchedule, next_time_later}

pub List-cases {ℓ} :
    {A : Type ℓ} (xs : List A) → (xs ≡ []) ⊎ ((y : A) × ((ys : List A) × (xs ≡ y ∷ ys)))
List-cases [] = inl refl
List-cases (y ∷ ys) = inr (y, (ys, refl))

-- Every active timer has a valid schedule.
pub record IsValid {Cron : Type 0} (s : Scheduler Cron) : Type 0 where
  pub valid :
      (key : String) (state : TimerState Cron)
      → lookup key s.timers ≡ some state
      → IsValidSchedule state.schedule

module _ {Cron : Type 0} (after : Cron → ℤ → Option ℤ)
    (after_later : (c : Cron) (t u : ℤ) → after c t ≡ some u → t <ℤ u) (now_ms : ℤ) where
  reschedule-IsValid :
      (s : Scheduler Cron) (e : HeapEntry) (next : Option ℤ)
      → IsValid s
      → IsValid (reschedule s e next)
  reschedule-IsValid s e (some next) v = record { valid = v.valid }
  reschedule-IsValid s e none v = record {
    valid = λ key state h. ground (arith, lookup-remove e.key key s.timers, v.valid key state, h);
  }

  reschedule-due :
      (s : Scheduler Cron) (e : HeapEntry) (next : Option ℤ)
      → ((u : ℤ) → next ≡ some u → now_ms <ℤ u)
      → total (due now_ms) (reschedule s e next).heap ≡ total (due now_ms) s.heap
  unfolding total
  reschedule-due s e none later = refl
  reschedule-due s e (some next) later = ground (arith, later next refl)

  pub handle_entry_lem :
      (s : Scheduler Cron) (e : HeapEntry)
      → IsValid s
      → IsTime now_ms
      → e.fire_ms ≤ℤ now_ms
      → IsValid (handle_entry after now_ms s e).0
        × (total (due now_ms) (handle_entry after now_ms s e).0.heap ≡ total (due now_ms) s.heap)
  unfolding handle_entry
  handle_entry_lem s e v in_range is_due = elim (Bool-cases (contains e.key s.cancelled)) [
    | inl gone ↦ rw gone (record { valid = v.valid }, refl)
    | inr kept ↦ elim (Option-cases (lookup e.key s.timers)) [
      | inl none_left ↦ rw (kept, none_left) (v, refl)
      | inr (state, found) ↦ elim (Bool-cases (nat_beq state.generation e.generation)) [
        | inr stale ↦ rw (kept, found, stale, handle_entry) (v, refl)
        | inl current ↦
            let next = next_time after state.schedule state.coalesce now_ms e.fire_ms in
            rw (kept, found, current, handle_entry)
              (
                reschedule-IsValid s e next v,
                reschedule-due s e next (λ u h.
                    next_time_later after after_later state.schedule state.coalesce now_ms e.fire_ms
                      u (v.valid e.key state found) in_range is_due h),
              )
      ]
    ]
  ]

  drain_lem :
      (fuel : ℕ) (s : Scheduler Cron)
      → IsValid s
      → IsTime now_ms
      → total (due now_ms) s.heap ≤ fuel
      → IsValid (drain after fuel now_ms s).0
        × (total (due now_ms) (drain after fuel now_ms s).0.heap ≡ 0)
  unfolding drain total
  drain_lem zero s v in_range enough = (v, omega (arith, enough))
  drain_lem (suc fuel) s v in_range enough = elim (List-cases s.heap) [
    | inl empty ↦ rw (empty, drain) (v, rw empty refl)
    | inr (x, (xs, heap)) ↦ elim (Bool-cases (ltb_ℤ now_ms (heap_pop x xs).0.fire_ms)) [
      | inl later ↦ rw (heap, later, drain) (v, rw heap (heap_pop_last_due now_ms x xs later))
      | inr early ↦
          let e = (heap_pop x xs).0 in
          let rest = record s { heap = (heap_pop x xs).1 } in
          let step =
            handle_entry_lem rest e (record { valid = v.valid }) in_range
              (omega (int_laws, early)) in
          let parts = total-heap_pop (due now_ms) x xs in
          let fewer : total (due now_ms) (heap_pop x xs).1 ≤ fuel =
            ground (arith, enough, parts, heap, early) in
          rw (heap, early, drain)
            (drain_lem fuel (handle_entry after now_ms rest e).0 step.0 in_range (rw step.1 fewer))
    ]
  ]

  -- The time of an entry that is not due.
  later_of : (xs : List HeapEntry) → total (due now_ms) xs ≡ 0 → All (λ e. now_ms <ℤ e.fire_ms) xs
  unfolding total
  later_of [] h = tt
  later_of (x ∷ xs) h = (ground (arith, h), later_of xs (ground (arith, h)))

  -- When the times that `cron` gives lie after the time asked for, every interval is of a
  -- millisecond at least, and the times leave room for the arithmetic in 64 bits, `drain_due` runs its loop to the end: every entry that it leaves on the
  -- heap is later than the time of the drain, and the intervals are still valid.
  pub drain_due_lem :
      (s : Scheduler Cron)
      → IsValid s
      → IsTime now_ms
      → All (λ e. now_ms <ℤ e.fire_ms) (drain_due after now_ms s).0.heap
        × IsValid (drain_due after now_ms s).0
  unfolding drain_due
  drain_due_lem s v in_range =
      let drained =
        drain_lem (length s.heap) s v in_range
          (total-length (due now_ms) s.heap (λ e. ground arith)) in
      (later_of (drain after (length s.heap) now_ms s).0.heap drained.1, drained.0)
