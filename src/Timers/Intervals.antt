-- ===== src/Timers/Intervals.antt =====
-- The arithmetic of interval timers in scheduler.rs: which points of the grid the functions give.
use zkbot.Prelude.{
  ℕ, ◌+◌, ◌-◌, ◌^◌, ◌*◌, ◌/◌, ◌≤◌, ◌<◌, ◌≡◌, refl, dec_le, inl, inr, Bool-cases, false, arith,
}
use zkbot.Prelude.Int.{
  ℤ, pos, negsuc, pos_part, ◌+ℤ◌, ◌-ℤ◌, ◌*ℤ◌, ◌≤ℤ◌, ◌<ℤ◌, leb_ℤ, ltb_ℤ, int_laws,
}
use native.Mathlib.Nat.{div-add-mod', mod-lt}
use zkbot.Timers.{
  wrap_i64, at_periods, periods_since, next_interval_fire, next_interval_fire_at_or_after,
  latest_interval_fire_at_or_before,
}

-- The point number `k` of the grid of an interval timer.
abbrev pub point : ℤ → ℕ → ℕ → ℤ
point start_ms e k = start_ms +ℤ pos (k * e)

-- A time from the start on is the start and a number of milliseconds.
elapsed : (start_ms t : ℤ) → start_ms ≤ℤ t → (n : ℕ) × (t -ℤ start_ms ≡ pos n)
unfolding ◌-ℤ◌
elapsed start_ms t h = (pos_part (t -ℤ start_ms), ground arith)

pos_mul : (a b : ℕ) → pos a *ℤ pos b ≡ pos (a * b)
unfolding ◌*ℤ◌
pos_mul a b = ground arith

pos_suc : (a : ℕ) → pos a +ℤ pos 1 ≡ pos (a + 1)
unfolding ◌+ℤ◌
pos_suc a = ground arith

-- A value of 64 bits is not wrapped.
pub wrap_i64-fits : (x : ℤ) → negsuc (2 ^ 63 - 1) ≤ℤ x → x <ℤ pos (2 ^ 63) → wrap_i64 x ≡ x
unfolding wrap_i64
wrap_i64-fits (pos n) low high = ground (arith, low, high)
wrap_i64-fits (negsuc n) low high = ground (arith, low, high)

next_product : (a b : ℕ) → (a + 1) * b ≡ a * b + b
next_product a b = grind arith

pub next_point : (start_ms : ℤ) (e q : ℕ) → point start_ms e q +ℤ pos e ≡ point start_ms e (q + 1)
next_point start_ms e q = omega (int_laws, next_product q e)

-- The times of an interval timer leave room for the arithmetic in 64 bits.
pub record HasRoom (start_ms : ℤ) (e : ℕ) (t : ℤ) : Type 0 where
  pub positive : 0 < e
  pub small : e ≤ 2 ^ 61
  pub low : negsuc (2 ^ 61 - 1) ≤ℤ start_ms
  pub before : start_ms ≤ℤ pos (2 ^ 61)
  pub high : t ≤ℤ pos (2 ^ 61)

pub with_time :
    {start_ms t : ℤ} {e : ℕ}
    → HasRoom start_ms e t
    → (u : ℤ) → u ≤ℤ pos (2 ^ 61)
    → HasRoom start_ms e u
with_time room u h = record {
  positive = room.positive;
  small = room.small;
  low = room.low;
  before = room.before;
  high = h;
}

pub product_bound : (m e : ℕ) → 0 < e → m ≤ m * e
product_bound m e h = grind arith

-- The start and `q` periods, up to a time that leaves room.
at_periods-point :
    (start_ms : ℤ) (e q : ℕ)
    → negsuc (2 ^ 61 - 1) ≤ℤ start_ms
    → q * e < 2 ^ 63
    → point start_ms e q <ℤ pos (2 ^ 63)
    → at_periods start_ms (pos e) (pos q) ≡ point start_ms e q
at_periods-point start_ms e q low product high =
    rw (pos_mul q e, wrap_i64-fits (pos (q * e)) (omega arith) (omega (arith, product)))
      (wrap_i64-fits (point start_ms e q) (omega (int_laws, low)) high)

-- The last point at or before a time, as the three functions compute it.
pub last_point :
    (start_ms t : ℤ) (e : ℕ)
    → HasRoom start_ms e t
    → start_ms ≤ℤ t
    → (q : ℕ) × (at_periods start_ms (pos e) (periods_since start_ms (pos e) t)
        ≡ point start_ms e q)
      × (at_periods start_ms (pos e) (wrap_i64 (periods_since start_ms (pos e) t +ℤ pos 1))
          ≡ point start_ms e (q + 1))
      × (wrap_i64 (point start_ms e q +ℤ pos e) ≡ point start_ms e (q + 1))
      × (point start_ms e q ≤ℤ t)
      × (t <ℤ point start_ms e (q + 1))
last_point start_ms t e room h =
    let (n, same) = elapsed start_ms t h in
    let q = n / e in
    let size : n ≤ 2 ^ 62 = omega (int_laws, same, room.low, room.high) in
    let low : q * e ≤ n = omega (arith, div-add-mod' n e) in
    let high : n < (q + 1) * e = grind (arith, div-add-mod' n e, mod-lt n room.positive) in
    let next : (q + 1) * e ≡ q * e + e = next_product q e in
    let few : q ≤ n = omega (arith, low, product_bound q e room.positive) in
    let quotient : periods_since start_ms (pos e) t ≡ pos q =
      rw (same, wrap_i64-fits (pos n) (omega arith) (omega (arith, size))) refl in
    let more : wrap_i64 (pos q +ℤ pos 1) ≡ pos (q + 1) =
      rw (pos_suc q) (wrap_i64-fits (pos (q + 1)) (omega arith) (omega (arith, few, size))) in
    let below : point start_ms e q ≤ℤ t = omega (int_laws, same, low) in
    let above : point start_ms e (q + 1) <ℤ pos (2 ^ 63) =
      omega (int_laws, below, next, room.high, room.small) in
    (
      q,
      rw quotient (
          at_periods-point start_ms e q room.low (omega (arith, low, size))
            (omega (int_laws, below, room.high))),
      rw (quotient, more)
          (at_periods-point start_ms e (q + 1) room.low (omega (arith, next, low, size, room.small))
            above),
      rw (next_point start_ms e q)
          (wrap_i64-fits (point start_ms e (q + 1)) (omega (int_laws, room.low)) above),
      below,
      omega (int_laws, same, high),
    )

mul_mono : (e i j : ℕ) → i ≤ j → i * e ≤ j * e
mul_mono e i j h = grind arith

pub point_mono : (start_ms : ℤ) (e i j : ℕ) → i ≤ j → point start_ms e i ≤ℤ point start_ms e j
point_mono start_ms e i j h = omega (int_laws, mul_mono e i j h)

-- A point after the time `t` is not before the point that follows the last one up to `t`.
pub point_after :
    (start_ms t : ℤ) (e q j : ℕ)
    → point start_ms e q ≤ℤ t
    → t <ℤ point start_ms e j
    → point start_ms e (q + 1) ≤ℤ point start_ms e j
point_after start_ms t e q j low h = elim (dec_le j q) [
  | yes below ↦ absurd (omega (arith, point_mono start_ms e j q below, low, h))
  | no above ↦ point_mono start_ms e (q + 1) j (omega (arith, above))
]

-- The time is the least point of the grid that satisfies a bound.
pub record IsLeastPoint (start_ms : ℤ) (e : ℕ) (Fits : ℤ → Type 0) (t : ℤ) : Type 0 where
  pub index : ℕ
  pub on_grid : t ≡ point start_ms e index
  pub fits : Fits t
  pub least : (j : ℕ) → Fits (point start_ms e j) → t ≤ℤ point start_ms e j

start_point : (start_ms : ℤ) (e : ℕ) → start_ms ≡ point start_ms e 0
start_point start_ms e = omega (int_laws)

from_start : (start_ms : ℤ) (e j : ℕ) → start_ms ≤ℤ point start_ms e j
from_start start_ms e j = omega (int_laws)

-- The next fire of an interval timer is the least point of its grid strictly after the given time.
pub next_interval_fire-IsLeastPoint :
    (start_ms current_ms : ℤ) (e : ℕ)
    → HasRoom start_ms e current_ms
    → IsLeastPoint start_ms e
        (λ t. current_ms <ℤ t)
        (next_interval_fire start_ms (pos e) current_ms)
unfolding next_interval_fire
next_interval_fire-IsLeastPoint start_ms current_ms e room =
    elim (Bool-cases (ltb_ℤ current_ms start_ms)) [
      | inl before ↦ rw before (record {
        index = 0;
        on_grid = start_point start_ms e;
        fits = omega (int_laws, before);
        least = λ j h. from_start start_ms e j;
      })
      | inr from ↦
          let (q, same, next, sum, low, high) =
            last_point start_ms current_ms e room (omega (int_laws, from)) in
          rw (from, next)
            (record {
              index = q + 1;
              on_grid = refl;
              fits = high;
              least = λ j h. point_after start_ms current_ms e q j low h;
            })
    ]

-- The next fire of an interval timer at or after a time is the least such point of its grid.
pub next_interval_fire_at_or_after-IsLeastPoint :
    (start_ms target_ms : ℤ) (e : ℕ)
    → HasRoom start_ms e target_ms
    → IsLeastPoint start_ms e
        (λ t. target_ms ≤ℤ t)
        (next_interval_fire_at_or_after start_ms (pos e) target_ms)
unfolding next_interval_fire_at_or_after
next_interval_fire_at_or_after-IsLeastPoint start_ms target_ms e room =
    elim (Bool-cases (leb_ℤ target_ms start_ms)) [
      | inl before ↦ rw before (record {
        index = 0;
        on_grid = start_point start_ms e;
        fits = omega (int_laws, before);
        least = λ j h. from_start start_ms e j;
      })
      | inr after ↦
          let (q, same, next, sum, low, high) =
            last_point start_ms target_ms e room (omega (int_laws, after)) in
          elim (Bool-cases (leb_ℤ target_ms (point start_ms e q))) [
            | inl reached ↦
                rw (after, same, reached)
                  (record {
                    index = q;
                    on_grid = refl;
                    fits = omega (int_laws, reached);
                    least = λ j h. omega (arith, low, h);
                  })
            | inr passed ↦
                rw (after, same, passed, sum)
                  (record {
                    index = q + 1;
                    on_grid = refl;
                    fits = omega (arith, high);
                    least = λ j h. elim (dec_le j q) [
                      | yes below ↦
                          absurd (omega (int_laws, passed, point_mono start_ms e j q below, h))
                      | no above ↦ point_mono start_ms e (q + 1) j (omega (arith, above))
                    ];
                  })
          ]
    ]

-- From the start on, the latest fire of an interval timer at or before a time is a point of its
-- grid, and the point that follows it lies after the time.
pub latest_interval_fire_at_or_before_lem :
    (start_ms target_ms : ℤ) (e : ℕ)
    → HasRoom start_ms e target_ms
    → start_ms ≤ℤ target_ms
    → (k : ℕ) × (latest_interval_fire_at_or_before start_ms (pos e) target_ms ≡ point start_ms e k)
      × (point start_ms e k ≤ℤ target_ms)
      × (target_ms <ℤ point start_ms e (k + 1))
unfolding latest_interval_fire_at_or_before
latest_interval_fire_at_or_before_lem start_ms target_ms e room h =
    let (q, same, next, sum, low, high) = last_point start_ms target_ms e room h in
    let from : ltb_ℤ target_ms start_ms ≡ false = ground (arith, h) in (q, rw from same, low, high)
