-- ===== src/Ids.antt =====
-- rust/crates/zk-trading-sdk-rs/src/id_gen.rs: the generator of order ids. The clock is a list of
-- its readings in milliseconds, which are not negative; `last_ms` starts at 0 and holds readings.
pub mod Fields
pub mod Sequential
pub mod Threads
pub mod Interleaved
mod Examples
use zkbot.Prelude.{
  ℕ, ◌+◌, ◌*◌, ◌%◌, ◌^◌, ltb, leb, Bool, Option, none, some, List, [], ◌∷◌, if◌then◌else◌,
}

abbrev pub max_instance_id : ℕ
max_instance_id = 1023

abbrev pub max_sequence : ℕ
max_sequence = 4095

pub record SnowflakeIdGen : Type 0 where
  pub instance_id : ℕ
  pub sequence : ℕ
  pub last_ms : ℕ

pub data SdkError : Type 0 where
  instance_id_out_of_range : ℕ → SdkError

-- `Result<Self, SdkError>`
pub data Created : Type 0 where
  ok : SnowflakeIdGen → Created
  err : SdkError → Created

unfoldable pub new : ℕ → Created
new instance_id =
    if ltb max_instance_id instance_id
    then err (instance_id_out_of_range instance_id)
    else ok (record { instance_id = instance_id; sequence = 0; last_ms = 0 })

-- The bits of the i64. The three fields do not overlap for the ids and sequences in range, so that
-- `|` is a sum; `<<` drops what lies above 64 bits.
abbrev pub compose : ℕ → ℕ → ℕ → ℕ
compose timestamp_ms instance_id sequence =
    timestamp_ms * 2 ^ 22 % 2 ^ 64 + instance_id * 2 ^ 12 + sequence

-- `fetch_add(1)` on a u16, and `wrapping_add(1)`.
abbrev pub next_sequence : ℕ → ℕ
next_sequence sequence = (sequence + 1) % 2 ^ 16

-- In the loop of `next_id`, or in the one that waits for the clock.
pub data Phase : Type 0 where
  ready spinning : Phase

abbrev pub Issued : Type 0
Issued = Option (ℕ × SnowflakeIdGen × List ℕ)

-- `next_id` by one thread: the id, the generator and the readings that are left; none when the
-- readings run out first.
unfoldable pub next_id_loop : Phase → SnowflakeIdGen → List ℕ → Issued
next_id_loop phase g [] = none
next_id_loop spinning g (now_ms ∷ readings) =
    next_id_loop (if leb now_ms g.last_ms then spinning else ready) g readings
next_id_loop ready g (now_ms ∷ readings) =
    let next = next_sequence g.sequence in
    let later = next_id_loop spinning (record g { sequence = next }) readings in
    if ltb g.last_ms now_ms
    then some
        (compose now_ms g.instance_id 0, record g { sequence = 0; last_ms = now_ms }, readings)
    else if leb next max_sequence
    then some (compose now_ms g.instance_id next, record g { sequence = next }, readings)
    else later

unfoldable pub next_id : SnowflakeIdGen → List ℕ → Issued
unfolding next_id_loop
next_id g readings = next_id_loop ready g readings
