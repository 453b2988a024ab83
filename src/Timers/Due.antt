-- ===== src/Timers/Due.antt =====
-- The loop of `drain_due` in scheduler.rs fires what is due.
use zkbot.Prelude.{
  ℕ, zero, suc, ◌≤◌, ◌≡◌, refl, ap, inl, inr, Bool-cases, Option-cases, true, false, ◌&&◌, Option,
  none, some, String, string_eq, ==_iff, ◌==◌, lookup, lookup-remove, contains, contains-set_remove,
  List, [], ◌∷◌, ◌++◌, length, map, nat_beq, int_beq, arith, if◌then◌else◌,
}
use zkbot.Prelude.Int.{ℤ, ltb_ℤ, int_beq_iff, ◌≤ℤ◌, ◌<ℤ◌, int_laws}
use mathlib.Core.List.{Memᴰ}
use mathlib.Core.List.Memᴰ
use mathlib.Core.List.Memᴰ.{head, tail, append_left, append_right}
use zkbot.Timers.{TimerFire}
use zkbot.Timers.Scheduler.{
  HeapEntry, heap_pop, TimerState, Scheduler, timer_fire, reschedule, handle_entry, drain,
  drain_due, due_times, next_time, fire_ltb, insert_fire, sort_fires,
}
use zkbot.Timers.Heap.{total, total-heap_pop, due, heap_pop_last_due, total-length}
use zkbot.Timers.Next.{IsTime}
use zkbot.Timers.Drain.{List-cases, IsValid, handle_entry_lem}

-- A weight that only the entries of a timer have.
abbrev pub own_weight : String → ℕ → (HeapEntry → ℕ) → HeapEntry → ℕ
own_weight key generation v e = if e.key == key && nat_beq generation e.generation then v e else 0

-- Whether an entry is at a time.
abbrev pub at_time : ℤ → HeapEntry → ℕ
at_time t e = if int_beq e.fire_ms t then 1 else 0

own_weight_le :
    (key : String) (generation : ℕ) (v : HeapEntry → ℕ) (es : List HeapEntry)
    → total (own_weight key generation v) es ≤ total v es
unfolding total
own_weight_le key generation v [] = omega arith
own_weight_le key generation v (e ∷ es) = ground (arith, own_weight_le key generation v es)

insert_fire-Memᴰ :
    (f x : TimerFire) (ys : List TimerFire) → Memᴰ f (x ∷ ys) → Memᴰ f (insert_fire x ys)
unfolding insert_fire
insert_fire-Memᴰ f x [] m = m
insert_fire-Memᴰ f x (y ∷ ys) m = elim (Bool-cases (fire_ltb y x)) [
  | inr before ↦ rw before m
  | inl behind ↦ rw behind (elim (Memᴰ.cases_cons m) [
    | inl e ↦ tail (insert_fire-Memᴰ f x ys (head e))
    | inr rest ↦ elim (Memᴰ.cases_cons rest) [
      | inl e ↦ head e
      | inr later ↦ tail (insert_fire-Memᴰ f x ys (tail later))
    ]
  ])
]

sort_fires-Memᴰ :
    (f : TimerFire) (fires : List TimerFire) → Memᴰ f fires → Memᴰ f (sort_fires fires)
unfolding sort_fires
sort_fires-Memᴰ f [] m = m
sort_fires-Memᴰ f (x ∷ xs) (head e) = insert_fire-Memᴰ f x (sort_fires xs) (head e)
sort_fires-Memᴰ f (x ∷ xs) (tail m) =
    insert_fire-Memᴰ f x (sort_fires xs) (tail (sort_fires-Memᴰ f xs m))

map-Memᴰ :
    (key : String) (now_ms t : ℤ) (ts : List ℤ)
    → Memᴰ t ts
    → Memᴰ (timer_fire key now_ms t) (map (timer_fire key now_ms) ts)
map-Memᴰ key now_ms t (x ∷ xs) (head e) = head (ap (timer_fire key now_ms) e)
map-Memᴰ key now_ms t (x ∷ xs) (tail m) = tail (map-Memᴰ key now_ms t xs m)
map-Memᴰ key now_ms t [] m = elim m [ ]

module _ {Cron : Type 0} (after : Cron → ℤ → Option ℤ) (now_ms : ℤ) (key : String)
    (state : TimerState Cron) where
  -- An entry of the timer was due, and the timer has fired at every time that its policy gives.
  pub record HasFired (heap : List HeapEntry) (fires : List TimerFire) : Type 0 where
    pub entry_ms : ℤ
    pub queued : 1 ≤ total (own_weight key state.generation (at_time entry_ms)) heap
    pub is_due : entry_ms ≤ℤ now_ms
    pub fired :
        (t : ℤ)
        → Memᴰ t (due_times after state.schedule state.coalesce now_ms entry_ms)
        → Memᴰ (timer_fire key now_ms t) fires

  handle_own :
      (s : Scheduler Cron) (e : HeapEntry)
      → lookup key s.timers ≡ some state
      → contains key s.cancelled ≡ false
      → (e.key == key && nat_beq state.generation e.generation) ≡ true
      → (handle_entry after now_ms s e).1
        ≡ map
            (timer_fire key now_ms)
            (due_times after state.schedule state.coalesce now_ms e.fire_ms)
  unfolding handle_entry
  handle_own s e active kept own =
      let same : e.key ≡ key = ground (arith, ==_iff e.key key, own) in
      let current : nat_beq state.generation e.generation ≡ true = ground (arith, own) in
      let found : lookup e.key s.timers ≡ some state = rw same active in
      let stays : contains e.key s.cancelled ≡ false = rw same kept in
      rw (stays, found, current, handle_entry)
        (ap
          (λ (k : String).
            map (timer_fire k now_ms)
              (due_times after state.schedule state.coalesce now_ms e.fire_ms))
          same)

  -- What another entry leaves as it was.
  record IsKept (s t : Scheduler Cron) : Type 0 where
    active : lookup key t.timers ≡ some state
    kept : contains key t.cancelled ≡ false
    weight :
        (v : HeapEntry → ℕ)
        → total (own_weight key state.generation v) t.heap
          ≡ total (own_weight key state.generation v) s.heap

  reschedule-IsKept :
      (s : Scheduler Cron) (e : HeapEntry) (next : Option ℤ)
      → lookup key s.timers ≡ some state
      → contains key s.cancelled ≡ false
      → (e.key == key) ≡ false
      → IsKept s (reschedule s e next)
  unfolding total
  reschedule-IsKept s e none active kept other = record {
    active = ground (arith, lookup-remove e.key key s.timers, active, other);
    kept = kept;
    weight = λ v. refl;
  }
  reschedule-IsKept s e (some next) active kept other = record {
    active = active;
    kept = kept;
    weight = λ v. rw other (omega arith);
  }

  handle_other :
      (s : Scheduler Cron) (e : HeapEntry)
      → lookup key s.timers ≡ some state
      → contains key s.cancelled ≡ false
      → (e.key == key && nat_beq state.generation e.generation) ≡ false
      → IsKept s (handle_entry after now_ms s e).0
  unfolding handle_entry
  handle_other s e active kept other = elim (Bool-cases (contains e.key s.cancelled)) [
    | inl gone ↦ rw gone (record {
      active = active;
      kept = ground (arith, contains-set_remove e.key key s.cancelled, kept);
      weight = λ v. refl;
    })
    | inr stays ↦ elim (Option-cases (lookup e.key s.timers)) [
      | inl none_left ↦
          rw (stays, none_left) (record { active = active; kept = kept; weight = λ v. refl })
      | inr (own, found) ↦ elim (Bool-cases (nat_beq own.generation e.generation)) [
        | inr stale ↦
            rw (stays, found, stale, handle_entry)
              (record { active = active; kept = kept; weight = λ v. refl })
        | inl current ↦
            rw (stays, found, current, handle_entry)
              (reschedule-IsKept s e (next_time after own.schedule own.coalesce now_ms e.fire_ms)
                active kept (ground (arith, ==_iff e.key key, active, found, current, other)))
      ]
    ]
  ]

  -- Fires of a later part, over a heap that weighs less.
  later-HasFired :
      (heap heap' : List HeapEntry) (fires more : List TimerFire)
      → ((t : ℤ)
          → total (own_weight key state.generation (at_time t)) heap'
            ≤ total (own_weight key state.generation (at_time t)) heap)
      → HasFired heap' more
      → HasFired heap (fires ++ more)
  later-HasFired heap heap' fires more fewer h = record {
    entry_ms = h.entry_ms;
    queued = omega (arith, h.queued, fewer h.entry_ms);
    is_due = h.is_due;
    fired = λ t m. append_right fires (h.fired t m);
  }

  own-HasFired :
      (s rest : Scheduler Cron) (x : HeapEntry) (xs : List HeapEntry) (more : List TimerFire)
      → s.heap ≡ x ∷ xs
      → rest.timers ≡ s.timers
      → rest.cancelled ≡ s.cancelled
      → ltb_ℤ now_ms (heap_pop x xs).0.fire_ms ≡ false
      → lookup key s.timers ≡ some state
      → contains key s.cancelled ≡ false
      → ((heap_pop x xs).0.key == key && nat_beq state.generation (heap_pop x xs).0.generation)
        ≡ true
      → HasFired s.heap ((handle_entry after now_ms rest (heap_pop x xs).0).1 ++ more)
  own-HasFired s rest x xs more heap timers cancelled early active kept own =
      let e = (heap_pop x xs).0 in
      let w = own_weight key state.generation (at_time e.fire_ms) in
      let parts = total-heap_pop w x xs in
      let here : int_beq e.fire_ms e.fire_ms ≡ true = (int_beq_iff e.fire_ms e.fire_ms).1 refl in
      let one : w e ≡ 1 = rw (own, here) refl in
      record {
        entry_ms = e.fire_ms;
        queued = rw heap (omega (arith, parts, one));
        is_due = omega (int_laws, early);
        fired = λ t m. append_left more (
            rw (handle_own rest e (rw timers active) (rw cancelled kept) own)
              (map-Memᴰ key now_ms t _ m));
      }

  module _ (after_later : (c : Cron) (t u : ℤ) → after c t ≡ some u → t <ℤ u) where
    drain-HasFired :
        (fuel : ℕ) (s : Scheduler Cron)
        → IsValid s
        → IsTime now_ms
        → lookup key s.timers ≡ some state
        → contains key s.cancelled ≡ false
        → total (due now_ms) s.heap ≤ fuel
        → 1 ≤ total (own_weight key state.generation (due now_ms)) s.heap
        → HasFired s.heap (drain after fuel now_ms s).1
    unfolding drain total
    drain-HasFired zero s v in_range active kept enough some_due =
        absurd
          (omega (arith, own_weight_le key state.generation (due now_ms) s.heap, enough, some_due))
    drain-HasFired (suc fuel) s v in_range active kept enough some_due =
        let lighter = own_weight_le key state.generation (due now_ms) in
        elim (List-cases s.heap) [
          | inl empty ↦ absurd (ground (arith, empty, some_due))
          | inr (x, (xs, heap)) ↦ elim (Bool-cases (ltb_ℤ now_ms (heap_pop x xs).0.fire_ms)) [
            | inl later ↦ absurd (
                let none_due = heap_pop_last_due now_ms x xs later in
                let still : 1 ≤ total (own_weight key state.generation (due now_ms)) (x ∷ xs) =
                  rw heap at some_due in
                omega (arith, none_due, lighter (x ∷ xs), still))
            | inr early ↦
                let e = (heap_pop x xs).0 in
                let rest = record s { heap = (heap_pop x xs).1 } in
                let step =
                  handle_entry_lem after after_later now_ms rest e (record { valid = v.valid })
                    in_range (omega (int_laws, early)) in
                let s1 = (handle_entry after now_ms rest e).0 in
                let more = (drain after fuel now_ms s1).1 in
                let parts = total-heap_pop (due now_ms) x xs in
                let fewer : total (due now_ms) (heap_pop x xs).1 ≤ fuel =
                  ground (arith, enough, parts, heap, early) in
                elim (Bool-cases (e.key == key && nat_beq state.generation e.generation)) [
                  | inl own ↦
                      let fires =
                        own-HasFired s rest x xs more heap refl refl early active kept own in
                      rw (heap, early, drain) (rw heap at fires)
                  | inr other ↦
                      let kept_by = handle_other rest e active kept other in
                      let own_parts = λ (w : HeapEntry → ℕ).
                        total-heap_pop (own_weight key state.generation w) x xs in
                      let nothing : own_weight key state.generation (due now_ms) e ≡ 0 =
                        rw other refl in
                      let still : 1 ≤ total (own_weight key state.generation (due now_ms)) s1.heap =
                        let before : 1
                            ≤ total (own_weight key state.generation (due now_ms)) (x ∷ xs) =
                          rw heap at some_due in
                        omega (
                          arith,
                          kept_by.weight (due now_ms),
                          own_parts (due now_ms),
                          nothing,
                          before,
                        ) in
                      let after_it =
                        drain-HasFired fuel s1 step.0 in_range kept_by.active kept_by.kept
                          (rw step.1 fewer) still in
                      rw (heap, early, drain)
                        (later-HasFired (x ∷ xs) s1.heap (handle_entry after now_ms rest e).1 more
                          (λ t. omega (arith, kept_by.weight (at_time t), own_parts (at_time t)))
                          after_it)
                ]
          ]
        ]

    -- An active timer with a due entry fires in the drain.
    pub drain_due-HasFired :
        (s : Scheduler Cron)
        → IsValid s
        → IsTime now_ms
        → lookup key s.timers ≡ some state
        → contains key s.cancelled ≡ false
        → 1 ≤ total (own_weight key state.generation (due now_ms)) s.heap
        → HasFired s.heap (drain_due after now_ms s).1
    unfolding drain_due
    drain_due-HasFired s v in_range active kept some_due =
        let h =
          drain-HasFired (length s.heap) s v in_range active kept
            (total-length (due now_ms) s.heap (λ e. ground arith)) some_due in
        record {
          entry_ms = h.entry_ms;
          queued = h.queued;
          is_due = h.is_due;
          fired = λ t m. sort_fires-Memᴰ _ _ (h.fired t m);
        }
