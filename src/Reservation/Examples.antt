-- ===== src/Reservation/Examples.antt =====
-- A store with a cash hold and an inventory hold, and the laws at it.
use zkbot.Prelude.{
  pos, ◌+ℤ◌, ◌≤ℤ◌, ◌≡◌, refl, ◌↔◌, none, lookup, insert, List, [], ◌∷◌, arith, int_eq,
}
use zkbot.Reservation.{
  ReservationStore, ReservationRecord, cash_asset, inventory_instrument, ok, reserve, release,
  release_partial, total_reserved, check_available, new,
}
use zkbot.Reservation.Totals.{held}
use zkbot.Reservation.Laws.{IsConsistent}
use zkbot.Reservation.Runs.{
  Call, reserves, partly_releases, run, step, run-IsConsistent, total_reserved-run,
  check_available_iff,
}
use zkbot.Reservation.Effects.{release-reserve}
use zkbot.Prelude.{◌-ℤ◌}
use zkbot.Reservation.Laws.{new-IsConsistent}

abbrev calls : List Call
calls =
    reserves (pos 1) (pos 100) cash_asset 10 (pos 50)
    ∷ reserves (pos 2) (pos 100) inventory_instrument 7 (pos 30)
    ∷ partly_releases (pos 1) (pos 20)
    ∷ []

two_holds : ReservationStore
two_holds = run new calls

two_holds_total : total_reserved two_holds (pos 100) 10 ≡ pos 30
unfolding two_holds run step reserve release_partial total_reserved lookup insert ◌-ℤ◌ ◌+ℤ◌
two_holds_total = refl

two_holds-IsConsistent : IsConsistent two_holds
unfolding two_holds
two_holds-IsConsistent = run-IsConsistent new calls (omega arith) new-IsConsistent

total_reserved-run_example :
    total_reserved (run new calls) (pos 100) 10 ≡ held (pos 100, 10) (run new calls).reservations
total_reserved-run_example = total_reserved-run calls (pos 100) 10 (omega arith)

release-reserve_example :
    lookup
      (pos 3)
      (release (reserve two_holds (pos 3) (pos 100) cash_asset 10 (pos 5)).0 (pos 3)).reservations
    ≡ none
unfolding two_holds run step reserve release_partial lookup insert ◌-ℤ◌ ◌+ℤ◌
release-reserve_example =
    (release-reserve two_holds (pos 3) (pos 100) cash_asset 10 (pos 5) two_holds-IsConsistent
      (omega arith) refl).1

check_available_iff_example :
    (check_available two_holds (pos 100) 10 (pos 70) (pos 100) ≡ ok)
    ↔ (pos 70 +ℤ held (pos 100, 10) two_holds.reservations ≤ℤ pos 100)
check_available_iff_example =
    check_available_iff two_holds (pos 100) 10 (pos 70) (pos 100) two_holds-IsConsistent

abbrev cash_left : ReservationRecord
cash_left = record {
  order_id = pos 1;
  account_id = pos 100;
  kind = cash_asset;
  target_id = 10;
  reserved_qty = pos 30;
}
