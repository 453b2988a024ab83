-- ===== src/Replay.antt =====
-- rust/crates/zk-backtest-rs/src/event_queue.rs: the merge of the recorded streams of a backtest
-- with the events that the run itself generates.
-- A recorded stream is the list of its events from the cursor on. The binary heap is a list whose
-- `pop` takes the first of its greatest elements: which of equal ones std takes is not
-- specified. `sort_unstable_by_key` is an insertion sort.
pub mod Heads
pub mod Order
pub mod Times
pub mod Loading
mod Examples
use zkbot.Prelude.{
  ℕ, zero, suc, ◌+◌, ℤ, int_beq, ltb_ℤ, leb_ℤ, ltb, leb, Bool, true, false, not, ◌&&◌, ◌||◌, Option,
  none, some, List, [], ◌∷◌, ◌++◌, length, if◌then◌else◌,
}

-- The events by their kind, over the type of their messages.
pub data BtEventKind (M : Type 0) : Type 0 where
  tick signal bar balance_update position_update order_update timer : M → BtEventKind M

abbrev pub priority : {M : Type 0} → BtEventKind M → ℕ
priority (tick m) = 10
priority (signal m) = 9
priority (bar m) = 8
priority (balance_update m) = 7
priority (position_update m) = 7
priority (order_update m) = 6
priority (timer m) = 5

pub record BtEvent (M : Type 0) : Type 0 where
  pub ts_ms : ℤ
  pub kind : BtEventKind M

pub record EventQueue (M : Type 0) : Type 0 where
  pub streams : List (List (BtEvent M))
  pub dynamic : List (BtEvent M)

module _ {M : Type 0} where
  -- Whether the first event goes before the second: a lower time, or the same with a higher
  -- priority. (`OrdEvent::cmp` gives `Greater`.)
  abbrev pub goes_before : BtEvent M → BtEvent M → Bool
  goes_before a b =
      ltb_ℤ a.ts_ms b.ts_ms || (int_beq a.ts_ms b.ts_ms && ltb (priority b.kind) (priority a.kind))

  abbrev pub new : EventQueue M
  new = record { streams = []; dynamic = [] }

  unfoldable pub sort_in : BtEvent M → List (BtEvent M) → List (BtEvent M)
  sort_in x [] = x ∷ []
  sort_in x (y ∷ ys) =
      let rest = sort_in x ys in if leb_ℤ x.ts_ms y.ts_ms then x ∷ y ∷ ys else y ∷ rest

  -- `SortedStream::new`
  unfoldable pub sorted_stream : List (BtEvent M) → List (BtEvent M)
  sorted_stream [] = []
  sorted_stream (x ∷ xs) = sort_in x (sorted_stream xs)

  unfoldable pub add_stream : EventQueue M → List (BtEvent M) → EventQueue M
  add_stream q [] = q
  add_stream q (x ∷ xs) = record q { streams = q.streams ++ (sorted_stream (x ∷ xs) ∷ []) }

  unfoldable pub push : EventQueue M → BtEvent M → EventQueue M
  push q e = record q { dynamic = e ∷ q.dynamic }

  -- The greatest element of the heap, and the others.
  unfoldable pub heap_pop : BtEvent M → List (BtEvent M) → BtEvent M × List (BtEvent M)
  heap_pop x [] = (x, [])
  heap_pop x (y ∷ ys) =
      let (best, others) = heap_pop y ys in
      if goes_before best x then (best, x ∷ others) else (x, y ∷ ys)

  -- The head of the streams that `min_by` gives: the first of those that none goes before.
  unfoldable pub stream_best : List (List (BtEvent M)) → Option (ℕ × BtEvent M)
  stream_best [] = none
  stream_best ([] ∷ ss) = elim (stream_best ss) [ none ↦ none | some (i, e) ↦ some (suc i, e) ]
  stream_best ((x ∷ xs) ∷ ss) = elim (stream_best ss) [
    | none ↦ some (0, x)
    | some (i, e) ↦ if goes_before e x then some (suc i, e) else some (0, x)
  ]

  -- `self.streams[si].advance()`
  unfoldable pub advance : ℕ → List (List (BtEvent M)) → List (List (BtEvent M))
  advance i [] = []
  advance zero ([] ∷ ss) = [] ∷ ss
  advance zero ((x ∷ xs) ∷ ss) = xs ∷ ss
  advance (suc i) (s ∷ ss) = s ∷ advance i ss

  -- Dynamic events win at the same time and priority.
  abbrev pub dyn_wins : BtEvent M → BtEvent M → Bool
  dyn_wins d s =
      ltb_ℤ d.ts_ms s.ts_ms || (int_beq d.ts_ms s.ts_ms && leb (priority s.kind) (priority d.kind))

  abbrev pub take_dynamic :
      EventQueue M → BtEvent M × List (BtEvent M) → Option (BtEvent M × EventQueue M)
  take_dynamic q (e, others) = some (e, record q { dynamic = others })

  abbrev pub take_stream : EventQueue M → ℕ × BtEvent M → Option (BtEvent M × EventQueue M)
  take_stream q (i, e) = some (e, record q { streams = advance i q.streams })

  abbrev pub choose :
      EventQueue M
      → Option (BtEvent M × List (BtEvent M))
      → Option (ℕ × BtEvent M)
      → Option (BtEvent M × EventQueue M)
  choose q none none = none
  choose q (some d) none = take_dynamic q d
  choose q none (some s) = take_stream q s
  choose q (some d) (some s) = if dyn_wins d.0 s.1 then take_dynamic q d else take_stream q s

  abbrev pub heap_best : List (BtEvent M) → Option (BtEvent M × List (BtEvent M))
  heap_best [] = none
  heap_best (x ∷ xs) = some (heap_pop x xs)

  unfoldable pub pop : EventQueue M → Option (BtEvent M × EventQueue M)
  pop q = choose q (heap_best q.dynamic) (stream_best q.streams)

  abbrev pub all_empty : List (List (BtEvent M)) → Bool
  all_empty [] = true
  all_empty ([] ∷ ss) = all_empty ss
  all_empty ((x ∷ xs) ∷ ss) = false

  abbrev pub no_events : List (BtEvent M) → Bool
  no_events [] = true
  no_events (x ∷ xs) = false

  unfoldable pub is_empty : EventQueue M → Bool
  is_empty q = no_events q.dynamic && all_empty q.streams

  abbrev pub remaining : List (List (BtEvent M)) → ℕ
  remaining [] = 0
  remaining (s ∷ ss) = length s + remaining ss

  unfoldable pub len : EventQueue M → ℕ
  len q = length q.dynamic + remaining q.streams
