-- ===== src/Position/Delta.antt =====
-- Fills: how `apply_delta` moves a position, and what it keeps in range.
use zkbot.Prelude.{
  ℕ, ℤ, pos, ◌+ℤ◌, ◌-ℤ◌, ◌≤ℤ◌, neg_ℤ, ◌≡◌, ◌∙◌, refl, inl, inr, Bool, arith, ◌⊎◌, ◌<ℤ◌, int_laws,
  Bool-cases, none, some, lookup, lookup-insert, ◌==◌, ==_iff, int_eq, nat_eq, pair_eq, -ℤ_parts,
  +ℤ_parts, eq_of_parts, if◌then◌else◌,
}
use zkbot.Position.{
  ManagedPosition, PositionDelta, apply_delta_position, flip_if_negative, moved, PositionStore,
  position_key, apply_delta, get_or_create_position, get_position,
}

-- What a position amounts to: short positions count as negative.
abbrev pub exposure : ManagedPosition → ℤ
exposure p = if p.is_short then neg_ℤ p.qty_total else p.qty_total

-- Flipping a position whose total fell below zero does not change what it amounts to, and leaves
-- a total that is not negative.
flip_if_negative_lem :
    (p : ManagedPosition)
    → (exposure (flip_if_negative p) ≡ exposure p) × (pos 0 ≤ℤ (flip_if_negative p).qty_total)
unfolding flip_if_negative
flip_if_negative_lem p = (
  ground (
    arith,
    -ℤ_parts (pos 0) p.qty_total,
    -ℤ_parts (pos 0) (neg_ℤ p.qty_total),
    eq_of_parts (neg_ℤ (neg_ℤ p.qty_total)) p.qty_total,
  ),
  ground (arith, -ℤ_parts (pos 0) p.qty_total),
)

exposure-moved :
    (d : PositionDelta) (ts : ℤ) (p : ManagedPosition)
    → exposure (moved d ts p)
      ≡ (if p.is_short then exposure p -ℤ d.total_change else exposure p +ℤ d.total_change)
unfolding moved
exposure-moved d ts p = elim (Bool-cases p.is_short) [
  | inl e ↦ rw e (omega int_laws)
  | inr e ↦ rw e refl
]

exposure-apply_delta_position :
    (d : PositionDelta) (ts : ℤ) (p : ManagedPosition)
    → exposure (apply_delta_position d ts p)
      ≡ (if p.is_short then exposure p -ℤ d.total_change else exposure p +ℤ d.total_change)
unfolding apply_delta_position
exposure-apply_delta_position d ts p =
    (flip_if_negative_lem (moved d ts p)).0 ∙ exposure-moved d ts p

-- After any delta the total and the frozen quantity are not negative, and the time of the update
-- is recorded; and where the total does not fall below zero, the available quantity is at most
-- the total.
apply_delta_position_bounds :
    (d : PositionDelta) (ts : ℤ) (p : ManagedPosition)
    → let q = apply_delta_position d ts p in
      (pos 0 ≤ℤ q.qty_total)
      × (pos 0 ≤ℤ q.qty_frozen)
      × (q.last_local_update_ts ≡ ts)
      × ((q.qty_available ≤ℤ q.qty_total) ⊎ (p.qty_total +ℤ d.total_change <ℤ pos 0))
unfolding apply_delta_position moved flip_if_negative
apply_delta_position_bounds d ts p =
    ((flip_if_negative_lem (moved d ts p)).1, ground arith, ground arith, ground arith)

-- The exposure that a store has on a key, 0 where there is no position.
abbrev pub store_exposure : PositionStore → ℤ × ℕ → ℤ
store_exposure s key = elim (lookup key s.managed) [ none ↦ pos 0 | some p ↦ exposure p ]

-- Which side the position is on that a delta meets: its own where it exists, the delta's
-- where it is created.
abbrev pub meets_short : PositionStore → PositionDelta → Bool
meets_short s d = elim (lookup (position_key d.account_id d.instrument_id) s.managed) [
  | none ↦ d.is_short
  | some p ↦ p.is_short
]

-- `apply_delta` moves the exposure of its own account and instrument by `total_change` where the
-- position that it meets is long, and by the opposite of it where that position is short, whether
-- or not the position flips; every other exposure stays.
pub store_exposure-apply_delta :
    (s : PositionStore) (d : PositionDelta) (ts : ℤ) (b : ℤ) (j : ℕ)
    → store_exposure (apply_delta s d ts) (position_key b j)
      ≡ store_exposure s (position_key b j)
        +ℤ (if position_key d.account_id d.instrument_id == position_key b j
            then if meets_short s d then neg_ℤ d.total_change else d.total_change
            else pos 0)
unfolding apply_delta get_or_create_position get_position
store_exposure-apply_delta s d ts b j =
    let key = position_key d.account_id d.instrument_id in
    let p = get_or_create_position s d.account_id d.instrument_id (pos 0) d.is_short in
    let q = apply_delta_position d ts p in
    ground (
      arith,
      lookup-insert key (position_key b j) q s.managed,
      ==_iff key (position_key b j),
      exposure-apply_delta_position d ts p,
      -ℤ_parts (exposure p) d.total_change,
      +ℤ_parts (exposure p) d.total_change,
      -ℤ_parts (pos 0) d.total_change,
      +ℤ_parts (store_exposure s (position_key b j)) d.total_change,
      +ℤ_parts (store_exposure s (position_key b j)) (neg_ℤ d.total_change),
      +ℤ_parts (store_exposure s (position_key b j)) (pos 0),
      -ℤ_parts (pos 0) (pos 0),
    )
