-- ===== src/Timers/Fires.antt =====
-- The fires of `drain_due` in scheduler.rs: their order, and the timers that they are of.
use zkbot.Prelude.{
  ℕ, zero, suc, ◌≡◌, refl, inl, inr, Bool-cases, Option-cases, true, false, Option, none, some,
  is_some, String, string_eq, ==_iff, ◌==◌, lookup, lookup-remove, HashMap, contains, List, [], ◌∷◌,
  ◌++◌, map, All, length, nat_beq, arith,
}
use zkbot.Prelude.Int.{ℤ, ltb_ℤ, ◌-ℤ◌}
use Prim.Native.Nat
use Prim.Native.Nat.{Ordering}
use Prim.Native.String
use Prim.Native.Char.{Char, code}
use Prim.Native.String.compare
use zkbot.Timers.{TimerFire, wrap_i64}
use zkbot.Timers.Scheduler.{
  str_ltb, fire_ltb, insert_fire, sort_fires, HeapEntry, heap_pop, TimerState, Scheduler,
  timer_fire, reschedule, handle_entry, drain, drain_due, due_times, next_time, cancel,
}
use zkbot.Timers.Drain.{List-cases}

cons_nil : (c : Char) (s : String) → String.compare (String.◌∷◌ c s) String.[] ≡ Ordering.gt
cons_nil c s = λ i. compare.cons-nil c s i

nil_cons : (c : Char) (s : String) → String.compare String.[] (String.◌∷◌ c s) ≡ Ordering.lt
nil_cons c s = λ i. compare.nil-cons c s i

cons_cons :
    (c d : Char) (s t : String)
    → String.compare (String.◌∷◌ c s) (String.◌∷◌ d t)
      ≡ String.then (Nat.compare (code c) (code d)) (String.compare s t)
cons_cons c d s t = λ i. compare.cons-cons c d s t i

str_ltb_asym : (s t : String) → str_ltb s t ≡ true → str_ltb t s ≡ false
str_ltb_asym String.[] String.[] h = ground arith
str_ltb_asym String.[] (String.◌∷◌ d t) h = rw (cons_nil d t, str_ltb) refl
str_ltb_asym (String.◌∷◌ c s) String.[] h = ground (arith, cons_nil c s, h)
str_ltb_asym (String.◌∷◌ c s) (String.◌∷◌ d t) h =
    ground (arith, str_ltb_asym s t, cons_cons c d s t, cons_cons d c t s, h)

fire_ltb_asym : (a b : TimerFire) → fire_ltb a b ≡ true → fire_ltb b a ≡ false
fire_ltb_asym a b h = ground (arith, str_ltb_asym a.timer_key b.timer_key, h)

-- No fire is before the one in front of it, by time and key.
abbrev pub IsOrdered : List TimerFire → Type 0
IsOrdered [] = Unit
IsOrdered (x ∷ []) = Unit
IsOrdered (x ∷ y ∷ ys) = (fire_ltb y x ≡ false) × IsOrdered (y ∷ ys)

insert_fire-IsOrdered :
    (x : TimerFire) (ys : List TimerFire) → IsOrdered ys → IsOrdered (insert_fire x ys)
unfolding insert_fire
insert_fire-IsOrdered x [] v = tt
insert_fire-IsOrdered x (y ∷ []) v = elim (Bool-cases (fire_ltb y x)) [
  | inl behind ↦ rw behind (fire_ltb_asym y x behind, tt)
  | inr before ↦ rw before (before, tt)
]
insert_fire-IsOrdered x (y ∷ z ∷ zs) v = elim (Bool-cases (fire_ltb y x)) [
  | inr before ↦ rw before (before, v)
  | inl behind ↦ elim (Bool-cases (fire_ltb z x)) [
    | inl further ↦ rw (behind, further) (v.0, rw further at (insert_fire-IsOrdered x (z ∷ zs) v.1))
    | inr here ↦ rw (behind, here) (fire_ltb_asym y x behind, (here, v.1))
  ]
]

sort_fires-IsOrdered : (fires : List TimerFire) → IsOrdered (sort_fires fires)
unfolding sort_fires
sort_fires-IsOrdered [] = tt
sort_fires-IsOrdered (x ∷ xs) = insert_fire-IsOrdered x (sort_fires xs) (sort_fires-IsOrdered xs)

module _ {ℓ} (Holds : TimerFire → Type ℓ) where
  insert_fire-All :
      (x : TimerFire) (ys : List TimerFire) → Holds x → All Holds ys → All Holds (insert_fire x ys)
  unfolding insert_fire
  insert_fire-All x [] h v = (h, v)
  insert_fire-All x (y ∷ ys) h v = elim (Bool-cases (fire_ltb y x)) [
    | inl behind ↦ rw behind (v.0, insert_fire-All x ys h v.1)
    | inr before ↦ rw before (h, v)
  ]

  sort_fires-All : (fires : List TimerFire) → All Holds fires → All Holds (sort_fires fires)
  unfolding sort_fires
  sort_fires-All [] v = tt
  sort_fires-All (x ∷ xs) v = insert_fire-All x (sort_fires xs) v.0 (sort_fires-All xs v.1)

  append-All : (xs ys : List TimerFire) → All Holds xs → All Holds ys → All Holds (xs ++ ys)
  append-All [] ys v w = w
  append-All (x ∷ xs) ys v w = (v.0, append-All xs ys v.1 w)

-- The fire is of an active timer, made at the time of the drain, and counts its delay as an i64.
pub record IsFireOf {Cron : Type 0} (timers : HashMap String (TimerState Cron)) (now_ms : ℤ)
    (f : TimerFire) : Type 0 where
  pub active : is_some (lookup f.timer_key timers) ≡ true
  pub dispatched : f.dispatch_ts_ms ≡ now_ms
  pub lag : f.lag_ms ≡ wrap_i64 (now_ms -ℤ f.scheduled_ts_ms)

-- Timers that are active afterwards were active before.
abbrev Shrinks : {Cron : Type 0} → Scheduler Cron → Scheduler Cron → Type 0
Shrinks s t =
    (key : String) → is_some (lookup key t.timers) ≡ true → is_some (lookup key s.timers) ≡ true

module _ {Cron : Type 0} (after : Cron → ℤ → Option ℤ) (now_ms : ℤ) where
  grow-All :
      (s t : Scheduler Cron) (fires : List TimerFire)
      → Shrinks s t
      → All (IsFireOf t.timers now_ms) fires
      → All (IsFireOf s.timers now_ms) fires
  grow-All s t [] h v = tt
  grow-All s t (x ∷ xs) h v = (
    record { active = h x.timer_key v.0.active; dispatched = v.0.dispatched; lag = v.0.lag },
    grow-All s t xs h v.1,
  )

  reschedule-Shrinks :
      (s : Scheduler Cron) (e : HeapEntry) (next : Option ℤ) → Shrinks s (reschedule s e next)
  reschedule-Shrinks s e none key h = ground (arith, lookup-remove e.key key s.timers, h)
  reschedule-Shrinks s e (some next) key h = h

  fires_of :
      (s : Scheduler Cron) (key : String) (times : List ℤ)
      → is_some (lookup key s.timers) ≡ true
      → All (IsFireOf s.timers now_ms) (map (timer_fire key now_ms) times)
  fires_of s key [] h = tt
  fires_of s key (t ∷ ts) h =
      (record { active = h; dispatched = refl; lag = refl }, fires_of s key ts h)

  handle_entry_fires :
      (s : Scheduler Cron) (e : HeapEntry)
      → Shrinks s (handle_entry after now_ms s e).0
        × All (IsFireOf s.timers now_ms) (handle_entry after now_ms s e).1
  unfolding handle_entry
  handle_entry_fires s e = elim (Bool-cases (contains e.key s.cancelled)) [
    | inl gone ↦ rw gone (λ key h. h, tt)
    | inr kept ↦ elim (Option-cases (lookup e.key s.timers)) [
      | inl none_left ↦ rw (kept, none_left) (λ key h. h, tt)
      | inr (state, found) ↦ elim (Bool-cases (nat_beq state.generation e.generation)) [
        | inr stale ↦ rw (kept, found, stale, handle_entry) (λ key h. h, tt)
        | inl current ↦
            rw (kept, found, current, handle_entry)
              (
                reschedule-Shrinks s e
                    (next_time after state.schedule state.coalesce now_ms e.fire_ms),
                fires_of s e.key (due_times after state.schedule state.coalesce now_ms e.fire_ms)
                    (rw found refl),
              )
      ]
    ]
  ]

  drain_fires :
      (fuel : ℕ) (s : Scheduler Cron) → All (IsFireOf s.timers now_ms) (drain after fuel now_ms s).1
  unfolding drain
  drain_fires zero s = tt
  drain_fires (suc fuel) s = elim (List-cases s.heap) [
    | inl empty ↦ rw (empty, drain) tt
    | inr (x, (xs, heap)) ↦ elim (Bool-cases (ltb_ℤ now_ms (heap_pop x xs).0.fire_ms)) [
      | inl later ↦ rw (heap, later, drain) tt
      | inr early ↦
          let e = (heap_pop x xs).0 in
          let rest = record s { heap = (heap_pop x xs).1 } in
          let step = handle_entry_fires rest e in
          let s1 = (handle_entry after now_ms rest e).0 in
          rw (heap, early, drain)
            (append-All (IsFireOf s.timers now_ms) (handle_entry after now_ms rest e).1
              (drain after fuel now_ms s1).1
              (grow-All s rest (handle_entry after now_ms rest e).1 (λ key h. h) step.1)
              (grow-All s s1 (drain after fuel now_ms s1).1 step.0 (drain_fires fuel s1)))
    ]
  ]

  -- `drain_due` gives its fires ordered by time and key; each is of a timer that was active, carries
  -- the time of the drain, and counts its delay from its scheduled time.
  pub drain_due_fires :
      (s : Scheduler Cron)
      → IsOrdered (drain_due after now_ms s).1
        × All (IsFireOf s.timers now_ms) (drain_due after now_ms s).1
  unfolding drain_due
  drain_due_fires s =
      let fires = (drain after (length s.heap) now_ms s).1 in
      (
        sort_fires-IsOrdered fires,
        sort_fires-All (IsFireOf s.timers now_ms) fires (drain_fires (length s.heap) s),
      )

cancelled_is_inactive :
    {Cron : Type 0} (s : Scheduler Cron) (key : String)
    → is_some (lookup key (cancel s key).0.timers) ≡ false
unfolding cancel
cancelled_is_inactive s key = elim (Bool-cases (is_some (lookup key s.timers))) [
  | inr absent ↦ rw absent absent
  | inl active ↦ rw active (ground (arith, lookup-remove key key s.timers, ==_iff key key))
]

other_keys :
    {Cron : Type 0} (timers : HashMap String (TimerState Cron)) (key : String) (now_ms : ℤ)
    (fires : List TimerFire)
    → is_some (lookup key timers) ≡ false
    → All (IsFireOf timers now_ms) fires
    → All (λ f. (f.timer_key == key) ≡ false) fires
other_keys timers key now_ms [] h v = tt
other_keys timers key now_ms (x ∷ xs) h v =
    (ground (arith, ==_iff x.timer_key key, v.0.active, h), other_keys timers key now_ms xs h v.1)

-- A timer that has been cancelled does not fire in the next drain, whatever its entries on the heap.
pub drain_due-cancel :
    {Cron : Type 0} (after : Cron → ℤ → Option ℤ) (now_ms : ℤ) (s : Scheduler Cron) (key : String)
    → All (λ f. (f.timer_key == key) ≡ false) (drain_due after now_ms (cancel s key).0).1
drain_due-cancel after now_ms s key =
    let t = (cancel s key).0 in
    other_keys t.timers key now_ms (drain_due after now_ms t).1 (cancelled_is_inactive s key)
      (drain_due_fires after now_ms t).1
