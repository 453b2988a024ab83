-- ===== src/Sim/Walk.antt =====
-- What the walk through the levels of a book fills.
use zkbot.Prelude.{
  ℤ, pos, ◌+ℤ◌, ◌-ℤ◌, ◌≤ℤ◌, leb_ℤ, min_ℤ, min_ℤ_bounds, min_ℤ_cases, ◌∙◌, ap, ◌≡◌, inl, inr, Bool,
  true, Option, none, some, List, [], ◌∷◌, All, if◌then◌else◌, arith, int_laws, Bool-cases,
}
use zkbot.Sim.Orders.{SimOrder, MatchResult, PriceLevel, TickData}
use zkbot.Sim.Policy.{MatchPolicy, immediate, acceptable, walk, first_come_first_served}

-- No fill of the list is larger than what the fills before it left of `remaining`.
unfoldable pub Fits : ℤ → List MatchResult → Type 0
Fits remaining [] = Unit {0}
Fits remaining (m ∷ ms) = (m.qty ≤ℤ remaining) × Fits (remaining -ℤ m.qty) ms

-- A policy that never fills an order with more than it has left.
abbrev pub IsSound : MatchPolicy → Type 0
IsSound policy =
    (order : SimOrder) (tick : Option TickData) → Fits order.remaining_qty (policy order tick)

pub fill_total : List MatchResult → ℤ
fill_total [] = pos 0
fill_total (m ∷ ms) = m.qty +ℤ fill_total ms

-- The quantity that the levels within the limit offer.
unfoldable pub depth : Bool → ℤ → List PriceLevel → ℤ
depth is_buy limit_price [] = pos 0
depth is_buy limit_price (level ∷ levels) =
    (if acceptable is_buy limit_price level.price then level.qty else pos 0)
    +ℤ depth is_buy limit_price levels

abbrev pub HasQty : PriceLevel → Type 0
HasQty level = pos 0 ≤ℤ level.qty

depth_pos :
    (is_buy : Bool) (limit : ℤ) (levels : List PriceLevel)
    → All HasQty levels
    → pos 0 ≤ℤ depth is_buy limit levels
unfolding depth
depth_pos is_buy limit [] h = omega arith
depth_pos is_buy limit (l ∷ ls) h =
    let rest = depth_pos is_buy limit ls h.1 in
    elim (Bool-cases (acceptable is_buy limit l.price)) [
      | inl a ↦ rw a (omega (int_laws, rest, h.0))
      | inr a ↦ rw a (omega (int_laws, rest))
    ]

walk-Fits :
    (is_buy : Bool) (limit ts remaining delay : ℤ) (levels : List PriceLevel)
    → Fits remaining (walk is_buy limit ts remaining delay levels)
unfolding walk Fits
walk-Fits is_buy limit ts remaining delay [] = tt
walk-Fits is_buy limit ts remaining delay (l ∷ ls) =
    let fill = min_ℤ remaining l.qty in
    let small : fill ≤ℤ remaining = ground arith in
    let rest = walk-Fits is_buy limit ts (remaining -ℤ fill) (delay +ℤ pos 10) ls in
    let skip = walk-Fits is_buy limit ts remaining delay ls in
    elim (Bool-cases (leb_ℤ remaining (pos 0))) [
      | inl e ↦ rw e tt
      | inr e ↦ elim (Bool-cases (acceptable is_buy limit l.price)) [
        | inl a ↦ rw (e, a) (small, rest)
        | inr a ↦ rw (e, a) skip
      ]
    ]

first_come_first_served-IsSound : IsSound first_come_first_served
unfolding first_come_first_served Fits
first_come_first_served-IsSound order none = tt
first_come_first_served-IsSound order (some tick) = walk-Fits _ _ _ _ _ _

-- Both policies are sound: the fills that they give for an order never add up to more than the
-- order has left, after any number of them.
pub policies-IsSound : IsSound immediate × IsSound first_come_first_served
unfolding first_come_first_served Fits
policies-IsSound = (λ order tick. (omega arith, tt), first_come_first_served-IsSound)

min_split : (r q d : ℤ) → pos 0 ≤ℤ d → min_ℤ r q +ℤ min_ℤ (r -ℤ min_ℤ r q) d ≡ min_ℤ r (q +ℤ d)
min_split r q d h =
    omega (int_laws, min_ℤ_cases r q, min_ℤ_cases (r -ℤ min_ℤ r q) d, min_ℤ_cases r (q +ℤ d))

zero_plus : (d : ℤ) → d ≡ pos 0 +ℤ d
zero_plus d = omega int_laws

nothing_left : (r d : ℤ) → leb_ℤ r (pos 0) ≡ true → pos 0 ≤ℤ r → pos 0 ≤ℤ d → pos 0 ≡ min_ℤ r d
nothing_left r d e h k = omega (int_laws, min_ℤ_cases r d)

min_zero : (r : ℤ) → pos 0 ≤ℤ r → pos 0 ≡ min_ℤ r (pos 0)
min_zero r h = ground arith

-- Against levels that offer no negative quantity, an order with something left is filled with
-- exactly the smaller of what it has left and what the levels within its limit offer together.
pub fill_total-walk :
    (is_buy : Bool) (limit ts remaining delay : ℤ) (levels : List PriceLevel)
    → pos 0 ≤ℤ remaining
    → All HasQty levels
    → fill_total (walk is_buy limit ts remaining delay levels)
      ≡ min_ℤ remaining (depth is_buy limit levels)
unfolding walk fill_total depth
fill_total-walk is_buy limit ts remaining delay [] h q = min_zero remaining h
fill_total-walk is_buy limit ts remaining delay (l ∷ ls) h q =
    let fill = min_ℤ remaining l.qty in
    let small : (pos 0 ≤ℤ fill) × (fill ≤ℤ remaining) × (fill ≤ℤ l.qty) =
      min_ℤ_bounds remaining l.qty h q.0 in
    let left : pos 0 ≤ℤ remaining -ℤ fill = omega (int_laws, small) in
    let rest = fill_total-walk is_buy limit ts (remaining -ℤ fill) (delay +ℤ pos 10) ls left q.1 in
    let skip = fill_total-walk is_buy limit ts remaining delay ls h q.1 in
    let more = depth_pos is_buy limit ls q.1 in
    elim (Bool-cases (leb_ℤ remaining (pos 0))) [
      | inl e ↦ elim (Bool-cases (acceptable is_buy limit l.price)) [
        | inl a ↦
            rw (e, a)
              (nothing_left remaining (l.qty +ℤ depth is_buy limit ls) e h
                (omega (int_laws, more, q.0)))
        | inr a ↦
            rw (e, a)
              (nothing_left remaining (pos 0 +ℤ depth is_buy limit ls) e h (omega (int_laws, more)))
      ]
      | inr e ↦ elim (Bool-cases (acceptable is_buy limit l.price)) [
        | inl a ↦ rw (e, a, rest) (min_split remaining l.qty (depth is_buy limit ls) more)
        | inr a ↦
            rw (e, a) (skip ∙ ap (λ (x : ℤ). min_ℤ remaining x) (zero_plus (depth is_buy limit ls)))
      ]
    ]

-- Every fill of a walk is at a price within the limit of the order.
pub walk_prices :
    (is_buy : Bool) (limit ts remaining delay : ℤ) (levels : List PriceLevel)
    → All
        (λ (m : MatchResult). acceptable is_buy limit m.price ≡ true)
        (walk is_buy limit ts remaining delay levels)
unfolding walk
walk_prices is_buy limit ts remaining delay [] = tt
walk_prices is_buy limit ts remaining delay (l ∷ ls) =
    let rest =
      walk_prices is_buy limit ts (remaining -ℤ min_ℤ remaining l.qty) (delay +ℤ pos 10) ls in
    let skip = walk_prices is_buy limit ts remaining delay ls in
    elim (Bool-cases (leb_ℤ remaining (pos 0))) [
      | inl e ↦ rw e tt
      | inr e ↦ elim (Bool-cases (acceptable is_buy limit l.price)) [
        | inl a ↦ rw (e, a) (a, rest)
        | inr a ↦ rw (e, a) skip
      ]
    ]
