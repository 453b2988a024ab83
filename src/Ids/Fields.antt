-- ===== src/Ids/Fields.antt =====
-- The fields of an id of id_gen.rs.
use zkbot.Prelude.{ℕ, ◌+◌, ◌*◌, ◌/◌, ◌%◌, ◌^◌, ◌<◌, ◌≡◌, arith}
use zkbot.Ids.{compose}

-- With a time below 2^41 ms, an instance id of 10 bits and a sequence of 12, an id fits in 63 bits,
-- and its three fields can be read back from it.
pub compose_fields :
    (timestamp_ms instance_id sequence : ℕ)
    → timestamp_ms < 2 ^ 41
    → instance_id < 2 ^ 10
    → sequence < 2 ^ 12
    → (compose timestamp_ms instance_id sequence < 2 ^ 63)
      × (compose timestamp_ms instance_id sequence / 2 ^ 22 ≡ timestamp_ms)
      × (compose timestamp_ms instance_id sequence / 2 ^ 12 % 2 ^ 10 ≡ instance_id)
      × (compose timestamp_ms instance_id sequence % 2 ^ 12 ≡ sequence)
compose_fields timestamp_ms instance_id sequence t i s = omega arith

-- A later pair of time and sequence of one instance makes a greater id.
pub compose_mono :
    (t u i s r : ℕ)
    → t < 2 ^ 41
    → u < 2 ^ 41
    → i < 2 ^ 10
    → s < 2 ^ 12
    → r < 2 ^ 12
    → t * 2 ^ 22 + s < u * 2 ^ 22 + r
    → compose t i s < compose u i r
compose_mono t u i s r a b c d e f = omega arith
