-- ===== src/Timers/Points.antt =====
-- The policy `FireAll` of scheduler.rs for an interval timer against the list of its points.
use zkbot.Prelude.{
  ℕ, zero, suc, ◌+◌, ◌-◌, ◌*◌, ◌^◌, ◌≤◌, ◌<◌, ◌≡◌, refl, ap, subst, ◌∙◌, true, false, Option, List,
  [], int_beq, arith, add-zero, dec_le,
}
use zkbot.Prelude.Int.{ℤ, pos, negsuc, ◌+ℤ◌, ◌≤ℤ◌, ◌<ℤ◌, leb_ℤ, int_laws}
use zkbot.Timers.{wrap_i64, fire_all, next_interval_fire, next_interval_fire_at_or_after}
use zkbot.Timers.Policies.{bounded, emit, rounds, interval_loop, interval_fires, interval_next}
use zkbot.Timers.Intervals.{
  HasRoom, with_time, wrap_i64-fits, product_bound, point, point_after, point_mono, next_point,
  last_point, next_interval_fire-IsLeastPoint, next_interval_fire_at_or_after-IsLeastPoint,
}

-- `n` points of the grid from number `k` on, without those after the end.
unfoldable pub points : ℤ → ℕ → Option ℤ → ℕ → ℕ → List ℤ
points start_ms e end_ms k zero = []
points start_ms e end_ms k (suc n) =
    emit end_ms (point start_ms e k) (points start_ms e end_ms (k + 1) n)

product_split : (k m e : ℕ) → (k + m) * e ≡ k * e + m * e
product_split k m e = grind arith

module _ (start_ms : ℤ) (e : ℕ) (now_ms : ℤ) (room : HasRoom start_ms e (now_ms +ℤ pos 1)) where
  points_rise : (k : ℕ) → point start_ms e k <ℤ point start_ms e (k + 1)
  points_rise k = omega (int_laws, next_point start_ms e k, room.positive)

  after_point :
      (k : ℕ)
      → point start_ms e k ≤ℤ now_ms
      → next_interval_fire start_ms (pos e) (point start_ms e k) ≡ point start_ms e (k + 1)
  after_point k is_due =
      let r =
        next_interval_fire-IsLeastPoint start_ms (point start_ms e k) e
          (with_time room (point start_ms e k) (omega (int_laws, is_due, room.high))) in
      let above =
        point_after start_ms (point start_ms e k) e k r.index (omega arith)
          (omega (int_laws, r.on_grid, r.fits)) in
      let below = r.least (k + 1) (points_rise k) in omega (int_laws, above, below, r.on_grid)

  module _ (end_ms : Option ℤ) where
    loop_is_points :
        (k0 fuel k n : ℕ)
        → k0 ≤ k
        → n ≤ fuel
        → ((j : ℕ) → j < n → point start_ms e (k + j) ≤ℤ now_ms)
        → now_ms <ℤ point start_ms e (k + n)
        → interval_loop start_ms
            (pos e)
            end_ms
            now_ms
            (point start_ms e k0)
            fuel
            (point start_ms e k)
          ≡ points start_ms e end_ms k n
    unfolding interval_loop points
    loop_is_points k0 zero k zero before enough due later = refl
    loop_is_points k0 (suc fuel) k zero before enough due later =
        let now : now_ms <ℤ point start_ms e k =
          subst (λ (i : ℕ). now_ms <ℤ point start_ms e i) (add-zero k) later in
        let late : leb_ℤ (point start_ms e k) now_ms ≡ false = ground (arith, now) in
        rw (late, interval_loop) refl
    loop_is_points k0 zero k (suc n) before enough due later = absurd (omega (arith, enough))
    loop_is_points k0 (suc fuel) k (suc n) before enough due later =
        let first : point start_ms e k ≤ℤ now_ms =
          subst (λ (i : ℕ). point start_ms e i ≤ℤ now_ms) (add-zero k) (due 0 (omega arith)) in
        let reached : leb_ℤ (point start_ms e k) now_ms ≡ true = ground (arith, first) in
        let next = next_interval_fire start_ms (pos e) (point start_ms e k) in
        let apart : int_beq next (point start_ms e k0) ≡ false =
          rw (after_point k first)
            (ground (arith, point_mono start_ms e k0 k before, points_rise k)) in
        let shift = λ (j : ℕ). let same : k + suc j ≡ k + 1 + j = omega arith in same in
        let rest = interval_loop start_ms (pos e) end_ms now_ms (point start_ms e k0) fuel in
        rw (reached, apart, interval_loop)
          (ap (λ (u : ℤ). emit end_ms (point start_ms e k) (rest u)) (after_point k first)
            ∙ ap (emit end_ms (point start_ms e k)) (
                loop_is_points k0 fuel (k + 1) n (omega (arith, before)) (omega (arith, enough))
                  (λ j h.
                    subst (λ (i : ℕ). point start_ms e i ≤ℤ now_ms) (shift j)
                      (due (suc j) (omega (arith, h))))
                  (subst (λ (i : ℕ). now_ms <ℤ point start_ms e i) (shift n) later)))

    -- The fuel of the loop is enough: the points up to now are at most as many as the rounds.
    enough_rounds :
        (k n : ℕ)
        → ((j : ℕ) → j < n → point start_ms e (k + j) ≤ℤ now_ms)
        → n ≤ rounds (point start_ms e k) now_ms
    enough_rounds k zero due = omega arith
    enough_rounds k (suc m) due =
        omega (int_laws, due m (omega arith), product_split k m e, product_bound m e room.positive)

    next_is_point :
        (q : ℕ)
        → negsuc (2 ^ 61 - 1) ≤ℤ now_ms
        → point start_ms e q ≤ℤ now_ms
        → now_ms <ℤ point start_ms e (q + 1)
        → next_interval_fire_at_or_after start_ms (pos e) (wrap_i64 (now_ms +ℤ pos 1))
          ≡ point start_ms e (q + 1)
    next_is_point q in_range low high =
        let r = next_interval_fire_at_or_after-IsLeastPoint start_ms (now_ms +ℤ pos 1) e room in
        let above =
          point_after start_ms now_ms e q r.index low (omega (int_laws, r.on_grid, r.fits)) in
        let below = r.least (q + 1) (omega (int_laws, high)) in
        rw
          (wrap_i64-fits (now_ms +ℤ pos 1) (omega (int_laws, in_range))
            (omega (int_laws, room.high)))
          (omega (int_laws, above, below, r.on_grid))

    -- Where the times of an interval timer leave room for the arithmetic in 64 bits: when it has the
    -- policy `FireAll`, its entry is a point of its grid, and it is due, it fires at exactly the points of the grid from that one up to the time of the drain, in order and
    -- once each, apart from those after its end; and its next entry is the point that follows them,
    -- if that is not after its end.
    pub interval_fires-points :
        (k : ℕ)
        → point start_ms e k ≤ℤ now_ms
        → (n : ℕ) × (interval_fires start_ms (pos e) end_ms now_ms (point start_ms e k) fire_all
            ≡ points start_ms e end_ms k n)
          × (interval_next start_ms (pos e) end_ms now_ms (point start_ms e k) fire_all
              ≡ bounded end_ms (point start_ms e (k + n)))
          × ((j : ℕ) → j < n → point start_ms e (k + j) ≤ℤ now_ms)
          × (now_ms <ℤ point start_ms e (k + n))
    unfolding interval_fires interval_next
    interval_fires-points k due =
        let from : start_ms ≤ℤ now_ms = omega (int_laws, due) in
        let (q, same, next, sum, low, high) =
          last_point start_ms now_ms e (with_time room now_ms (omega (int_laws, room.high))) from in
        let reached : k ≤ q = elim (dec_le k q) [
          | yes h ↦ h
          | no h ↦
              absurd (omega (arith, point_mono start_ms e (q + 1) k (omega (arith, h)), due, high))
        ] in
        let n : ℕ = q + 1 - k in
        let end : q + 1 ≡ k + n = omega (arith, reached) in
        let in_time : (j : ℕ) → j < n → point start_ms e (k + j) ≤ℤ now_ms =
          λ j h. omega (arith, point_mono start_ms e (k + j) q (omega (arith, h, end)), low) in
        let later = subst (λ (i : ℕ). now_ms <ℤ point start_ms e i) end high in
        (
          n,
          loop_is_points k (rounds (point start_ms e k) now_ms) k n (omega arith)
              (enough_rounds k n in_time) in_time later,
          ap (bounded end_ms) (
              next_is_point q (omega (arith, from, room.low)) low high ∙ ap (point start_ms e) end),
          in_time,
          later,
        )
