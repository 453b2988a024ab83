-- ===== src/Timers/Reachable.antt =====
-- Any use of the simulated clock (sim_clock.rs, test_clock.rs): what the next fire says.
use zkbot.Prelude.{
  ◌≤◌, ◌≡◌, refl, inl, inr, Bool-cases, true, false, ◌&&◌, Option, none, some, is_some, is_none,
  String, string_eq, ==_iff, ==_refl, ◌==◌, HashMap, lookup, contains, List, [], ◌∷◌, nat_beq,
  arith,
}
use zkbot.Prelude.Int.{ℤ, ltb_ℤ, ◌<ℤ◌}
use zkbot.Timers.{TimerRequest, TimerFire}
use zkbot.Timers.Scheduler.{
  HeapEntry, TimerState, Scheduler, is_current, earliest, peek_entries, peek_next_fire_ms, is_empty,
  no_timers,
}
use zkbot.Timers.Clock
use zkbot.Timers.Clock.{
  SimClock, set_timer, cancel_timer, advance_to, peek_next, no_active_timers, Advanced, fires,
  refused,
}
use zkbot.Timers.Heap.{total}
use zkbot.Timers.Drain.{IsValid}
use zkbot.Timers.Entries.{
  of_timer, nothing_further, IsTracked, new-IsTracked, register-IsTracked, cancel-IsTracked,
  drain_due-IsTracked,
}
use zkbot.Timers.Next.{IsTime}
use zkbot.Timers.Valid.{IsShort}

peek_entries_keeps :
    {Cron : Type 0} (s : Scheduler Cron) (es : List HeapEntry) (best : Option ℤ)
    → is_some best ≡ true
    → is_some (peek_entries s es best) ≡ true
unfolding peek_entries
peek_entries_keeps s [] best h = h
peek_entries_keeps s (e ∷ es) best h = peek_entries_keeps s es _ (ground (arith, h))

earliest_some : (best : Option ℤ) (t : ℤ) → is_some (earliest best t) ≡ true
earliest_some none t = refl
earliest_some (some best) t = ground arith

is_current_lem :
    {Cron : Type 0} (s : Scheduler Cron) (key : String) (state : TimerState Cron) (e : HeapEntry)
    → lookup key s.timers ≡ some state
    → contains key s.cancelled ≡ false
    → (e.key == key && nat_beq state.generation e.generation) ≡ true
    → is_current s e ≡ true
unfolding is_current
is_current_lem s key state e active kept own =
    let same : e.key ≡ key = ground (arith, ==_iff e.key key, own) in
    rw (same, kept, active) (ground (arith, own))

-- An active timer has an entry that the scan finds.
peek_entries_finds :
    {Cron : Type 0} (s : Scheduler Cron) (key : String) (state : TimerState Cron)
    → lookup key s.timers ≡ some state
    → contains key s.cancelled ≡ false
    → (es : List HeapEntry) (best : Option ℤ) → 1 ≤ total (of_timer key state.generation) es
    → is_some (peek_entries s es best) ≡ true
unfolding peek_entries total
peek_entries_finds s key state active kept [] best h = absurd (omega (arith, h))
peek_entries_finds s key state active kept (e ∷ es) best h =
    elim (Bool-cases (e.key == key && nat_beq state.generation e.generation)) [
      | inl own ↦
          peek_entries_keeps s es _
            (rw (is_current_lem s key state e active kept own) (earliest_some best e.fire_ms))
      | inr other ↦ peek_entries_finds s key state active kept es _ (ground (arith, other, h))
    ]

abbrev LaterThan : ℤ → Option ℤ → Type 0
LaterThan now_ms none = Unit
LaterThan now_ms (some t) = now_ms <ℤ t

peek_entries-none :
    {Cron : Type 0} (s : Scheduler Cron)
    → s.timers ≡ []
    → (es : List HeapEntry) → peek_entries s es none ≡ none
unfolding peek_entries is_current lookup
peek_entries-none s empty [] = refl
peek_entries-none s empty (e ∷ es) = elim (Bool-cases (is_current s e)) [
  | inl current ↦ ground (arith, stale_without_timers s empty e, current)
  | inr stale ↦ rw stale (peek_entries-none s empty es)
]
  where
    stale_without_timers :
        {Cron : Type 0} (u : Scheduler Cron)
        → u.timers ≡ []
        → (x : HeapEntry) → is_current u x ≡ false
    stale_without_timers u none_left x = elim (Bool-cases (contains x.key u.cancelled)) [
      | inl gone ↦ rw (gone, is_current) refl
      | inr kept ↦ rw (kept, none_left, is_current) refl
    ]

-- The operations of a clock.
pub data ClockOp : Type 0 where
  set_op : TimerRequest → ClockOp
  cancel_op : String → ClockOp
  advance_op : ℤ → ClockOp

module _ {Cron : Type 0} (parse : String → Option Cron) (after : Cron → ℤ → Option ℤ) where
  unfoldable pub apply_op : SimClock Cron → ClockOp → SimClock Cron
  unfolding set_timer cancel_timer advance_to
  apply_op clock (set_op req) = (set_timer after parse clock req).0
  apply_op clock (cancel_op key) = (cancel_timer clock key).0
  apply_op clock (advance_op now_ms) = (advance_to after clock now_ms).0

  unfoldable pub run_ops : SimClock Cron → List ClockOp → SimClock Cron
  unfolding apply_op
  run_ops clock [] = clock
  run_ops clock (op ∷ ops) = run_ops (apply_op clock op) ops

  advance_to-IsTracked :
      (clock : SimClock Cron) (now_ms : ℤ)
      → IsTracked nothing_further clock.scheduler
      → IsTracked nothing_further (advance_to after clock now_ms).0.scheduler
  unfolding advance_to
  advance_to-IsTracked clock now_ms v = elim (Bool-cases (ltb_ℤ now_ms clock.current_ms)) [
    | inl back ↦ rw back v
    | inr forth ↦ rw forth (drain_due-IsTracked after now_ms clock.scheduler v)
  ]

  run_ops-IsTracked :
      (clock : SimClock Cron) (ops : List ClockOp)
      → IsTracked nothing_further clock.scheduler
      → IsTracked nothing_further (run_ops clock ops).scheduler
  unfolding run_ops apply_op set_timer cancel_timer
  run_ops-IsTracked clock [] v = v
  run_ops-IsTracked clock (set_op req ∷ ops) v =
      run_ops-IsTracked (apply_op clock (set_op req)) ops
        (register-IsTracked parse after clock.scheduler req clock.current_ms v)
  run_ops-IsTracked clock (cancel_op key ∷ ops) v =
      run_ops-IsTracked (apply_op clock (cancel_op key)) ops
        (cancel-IsTracked clock.scheduler key v)
  run_ops-IsTracked clock (advance_op now_ms ∷ ops) v =
      run_ops-IsTracked (apply_op clock (advance_op now_ms)) ops
        (advance_to-IsTracked clock now_ms v)

-- The times of an operation leave room for the arithmetic in 64 bits.
abbrev pub IsInRange : ClockOp → Type 0
IsInRange (set_op req) = IsShort req.schedule
IsInRange (cancel_op key) = Unit
IsInRange (advance_op now_ms) = IsTime now_ms

-- The time of a clock is in range, and its timers are valid.
record IsTimely {Cron : Type 0} (clock : SimClock Cron) : Type 0 where
  in_time : IsTime clock.current_ms
  valid : IsValid clock.scheduler

lookup_head :
    {Cron : Type 0} (name : String) (first : TimerState Cron)
    (others : HashMap String (TimerState Cron))
    → lookup name ((name, first) ∷ others) ≡ some first
unfolding lookup
lookup_head name first others = rw (==_refl name) refl

no_timers-peek :
    {Cron : Type 0} (s : Scheduler Cron) (timers : HashMap String (TimerState Cron))
    → s.timers ≡ timers
    → IsTracked nothing_further s
    → no_timers timers ≡ is_none (peek_entries s s.heap none)
no_timers-peek s [] same v = rw (peek_entries-none s same s.heap) refl
no_timers-peek s ((key, state) ∷ rest) same v =
    let active : lookup key s.timers ≡ some state = rw same (lookup_head key state rest) in
    let at = v.tracked key state active in
    ground (arith, peek_entries_finds s key state active at.0 s.heap none (omega (arith, at.1)))

abbrev pub fires_of : Advanced → List TimerFire
fires_of (fires fs) = fs
fires_of (refused e) = []

module _ {Cron : Type 0} (parse : String → Option Cron) (after : Cron → ℤ → Option ℤ) where
  -- In a clock that any operations reach from a new one, the next fire is none exactly if there are
  -- no active timers.
  pub no_active_timers-run_ops :
      (start_ms : ℤ) (ops : List ClockOp)
      → no_active_timers (run_ops parse after (Clock.new start_ms) ops)
        ≡ is_none (peek_next (run_ops parse after (Clock.new start_ms) ops))
  unfolding no_active_timers peek_next is_empty peek_next_fire_ms
  no_active_timers-run_ops start_ms ops =
      let s = (run_ops parse after (Clock.new start_ms) ops).scheduler in
      no_timers-peek s s.timers refl
        (run_ops-IsTracked parse after (Clock.new start_ms) ops new-IsTracked)
