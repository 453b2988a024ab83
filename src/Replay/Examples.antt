-- ===== src/Replay/Examples.antt =====
-- Two recorded streams and a timer, run through the theorems.
use zkbot.Prelude.{ℕ, ℤ, pos, ◌≡◌, refl, List, [], ◌∷◌, All, length, arith}
use zkbot.Replay.{
  BtEvent, EventQueue, tick, bar, new, add_stream, push, pop, len, sorted_stream, sort_in,
  stream_best, heap_pop,
}
use zkbot.Replay.Heads.{IsLate, HeadsLate, pop_first}
use zkbot.Replay.Times.{IsRisingFrom, IsQueueFrom, drain, drain_lem}
use zkbot.Replay.Loading.{add_stream_lem}

abbrev bar_at : ℤ → BtEvent ℕ
bar_at t = record { ts_ms = t; kind = bar 1 }

abbrev tick_at : ℤ → BtEvent ℕ
tick_at t = record { ts_ms = t; kind = tick 2 }

abbrev empty : EventQueue ℕ
empty = new

abbrev bars : List (BtEvent ℕ)
bars = bar_at (pos 20) ∷ bar_at (pos 10) ∷ []

abbrev queue : EventQueue ℕ
queue = push (add_stream empty bars) (tick_at (pos 10))

abbrev rest : EventQueue ℕ
rest = add_stream empty bars

empty-IsQueueFrom : IsQueueFrom (pos 5) empty
empty-IsQueueFrom = record { later = tt; ordered = tt }

rest-IsQueueFrom : IsQueueFrom (pos 5) rest
rest-IsQueueFrom =
    (add_stream_lem (pos 5) empty bars (omega arith, (omega arith, tt)) empty-IsQueueFrom).0

drain_lem_example :
    (length (drain (len rest) rest) ≡ len rest) × IsRisingFrom (pos 5) (drain (len rest) rest)
drain_lem_example = drain_lem (pos 5) rest rest-IsQueueFrom

pop_first_example :
    All (IsLate (tick_at (pos 10))) queue.dynamic × HeadsLate (tick_at (pos 10)) queue.streams
unfolding pop push add_stream sorted_stream sort_in stream_best heap_pop
pop_first_example = pop_first queue rest (tick_at (pos 10)) refl
