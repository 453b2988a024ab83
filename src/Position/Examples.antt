-- ===== src/Position/Examples.antt =====
-- A store with one position of 100 units, and the laws at it.
use zkbot.Prelude.{
  pos, negsuc, ◌+ℤ◌, ◌-ℤ◌, ◌≤ℤ◌, ◌≡◌, refl, ◌↔◌, true, false, lookup, insert, int_eq, nat_eq,
  pair_eq, [], ◌∷◌,
}
use zkbot.Position.{
  ManagedPosition, PositionStore, PositionDelta, ok, new, new_position, position_key, available,
  init_positions, check_and_freeze, apply_delta, apply_delta_position, moved, flip_if_negative,
  get_or_create_position, get_position,
}
use zkbot.Position.Freeze.{check_and_freeze_lem}
use zkbot.Position.Delta.{store_exposure, store_exposure-apply_delta}

abbrev hundred : ManagedPosition
hundred = record (new_position (pos 1) 10 (pos 0) false) {
  qty_total = pos 100;
  qty_available = pos 100;
}

abbrev store : PositionStore
store = record { managed = (position_key (pos 1) 10, hundred) ∷ []; exch = [] }

init_store : init_positions new (hundred ∷ []) ≡ store
unfolding init_positions insert
init_store = refl

check_and_freeze_lem_example :
    ((check_and_freeze store (pos 1) 10 (pos 30) false).1 ≡ ok)
    ↔ (pos 30 ≤ℤ available store (pos 1) 10)
check_and_freeze_lem_example = (check_and_freeze_lem store (pos 1) 10 (pos 30) false).0

frozen_forty : ManagedPosition
frozen_forty = record hundred { qty_available = pos 60; qty_frozen = pos 40 }

abbrev sell_150 : PositionDelta
sell_150 = record {
  account_id = pos 1;
  instrument_id = 10;
  is_short = true;
  avail_change = pos 0;
  frozen_change = pos 0;
  total_change = negsuc 149;
}

sold_150 : store_exposure (apply_delta store sell_150 (pos 7)) (position_key (pos 1) 10) ≡ negsuc 49
unfolding apply_delta apply_delta_position moved flip_if_negative get_or_create_position
    get_position lookup insert ◌+ℤ◌ ◌-ℤ◌
sold_150 = refl

store_exposure-apply_delta_example :
    store_exposure (apply_delta store sell_150 (pos 7)) (position_key (pos 1) 10)
    ≡ pos 100 +ℤ negsuc 149
unfolding lookup
store_exposure-apply_delta_example = store_exposure-apply_delta store sell_150 (pos 7) (pos 1) 10
