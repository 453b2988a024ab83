-- ===== src/Ids/Examples.antt =====
-- The generator of instance 7 around the millisecond 100.
use zkbot.Prelude.{ℕ, ◌<◌, ◌%◌, ◌/◌, ◌^◌, ◌≡◌, refl, true, is_some, List, [], ◌∷◌, arith}
use zkbot.Ids.{SnowflakeIdGen, compose, next_id_loop, next_id}
use zkbot.Ids.Fields.{compose_fields}
use zkbot.Ids.Sequential.{AreIssued, run_next_ids, next_id_returns, run_next_ids-AreIssued}
use zkbot.Ids.Threads.{Call, calling, issued, Shared, Alone, next_id-Alone}
use zkbot.Ids.Interleaved.{IsIncreasing, Run, claims, ids, race, claims-IsIncreasing}

abbrev nearly_full : SnowflakeIdGen
nearly_full = record { instance_id = 7; sequence = 4094; last_ms = 100 }

-- The second call runs out of numbers and waits for the millisecond 101.
abbrev readings : List ℕ
readings = 100 ∷ 100 ∷ 100 ∷ 101 ∷ 101 ∷ 101 ∷ []

three_ids :
    run_next_ids 3 nearly_full readings
    ≡ compose 100 7 4095 ∷ compose 101 7 0 ∷ compose 101 7 1 ∷ []
unfolding next_id next_id_loop
three_ids = refl

-- When the clock is set back, an earlier time is joined with the running sequence.
clock_set_back :
    run_next_ids 4 (record { instance_id = 7; sequence = 0; last_ms = 0 }) (10 ∷ 10 ∷ 11 ∷ 10 ∷ [])
    ≡ compose 10 7 0 ∷ compose 10 7 1 ∷ compose 11 7 0 ∷ compose 10 7 1 ∷ []
unfolding next_id next_id_loop
clock_set_back = refl

run_next_ids-AreIssued_example :
    AreIssued 7 (compose 100 7 4094) (run_next_ids 3 nearly_full readings)
run_next_ids-AreIssued_example =
    run_next_ids-AreIssued 3 nearly_full readings (omega arith) (omega arith) (omega arith) (
      omega arith,
      omega arith,
      (
        omega arith,
        omega arith,
        (
          omega arith,
          omega arith,
          (omega arith, omega arith, (omega arith, omega arith, (omega arith, omega arith, tt))),
        ),
      ),
    )

next_id_returns_example : is_some (next_id nearly_full (100 ∷ 100 ∷ 101 ∷ 102 ∷ [])) ≡ true
next_id_returns_example =
    next_id_returns nearly_full (100 ∷ 100 ∷ []) 101 102 [] (omega arith) (omega arith)

compose_fields_example :
    (compose 100 7 4095 < 2 ^ 63)
    × (compose 100 7 4095 / 2 ^ 22 ≡ 100)
    × (compose 100 7 4095 / 2 ^ 12 % 2 ^ 10 ≡ 7)
    × (compose 100 7 4095 % 2 ^ 12 ≡ 4095)
compose_fields_example = compose_fields 100 7 4095 (omega arith) (omega arith) (omega arith)

next_id-Alone_example :
    Alone
      (calling, record { generator = nearly_full; readings = readings })
      (
        issued (compose 100 7 4095),
        record {
          generator = record { instance_id = 7; sequence = 4095; last_ms = 100 };
          readings = 100 ∷ 100 ∷ 101 ∷ 101 ∷ 101 ∷ [];
        },
      )
unfolding next_id next_id_loop
next_id-Alone_example = next_id-Alone nearly_full readings (compose 100 7 4095) _ _ refl

claims-IsIncreasing_example : IsIncreasing 100 (claims (race 7 100 105 (omega arith)).0)
claims-IsIncreasing_example = claims-IsIncreasing (race 7 100 105 (omega arith)).2

race_example :
    (trace : List Call) × (w : List Call × Shared) × Run
      (
        (calling ∷ calling ∷ []),
        record {
          generator = record { instance_id = 7; sequence = 0; last_ms = 100 };
          readings = 105 ∷ 105 ∷ 105 ∷ [];
        },
      )
      trace
      w
    × (ids trace ≡ compose 105 7 1 ∷ compose 105 7 0 ∷ compose 105 7 1 ∷ [])
race_example = race 7 100 105 (omega arith)
