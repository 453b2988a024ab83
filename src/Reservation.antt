-- ===== src/Reservation.antt =====
-- rust/crates/zk-oms-rs/src/reservation_v2.rs: the holds on cash and inventory that the order
-- manager keeps for its open orders, with a running total for each account and target.
-- The texts of the errors are not modelled; each `Err` is a constructor of `ReserveError`.
pub mod Totals
pub mod Values
pub mod Laws
pub mod Runs
pub mod Effects
mod Examples
use zkbot.Prelude.{
  ℕ, ℤ, pos, ◌+ℤ◌, ◌-ℤ◌, leb_ℤ, ltb_ℤ, min_ℤ, ◌==◌, int_eq, nat_eq, pair_eq, Option, none, some,
  HashMap, lookup, insert, remove, contains_key, unwrap_or, if◌then◌else◌, [],
}

pub data ReserveKind : Type 0 where
  cash_asset inventory_instrument : ReserveKind

pub record ReservationRecord : Type 0 where
  pub order_id : ℤ
  pub account_id : ℤ
  pub kind : ReserveKind
  pub target_id : ℕ
  pub reserved_qty : ℤ

pub record ReservationStore : Type 0 where
  pub reservations : HashMap ℤ ReservationRecord
  pub account_totals : HashMap (ℤ × ℕ) ℤ

pub data ReserveError : Type 0 where
  already_exists not_enough : ReserveError

pub data Result : Type 0 where
  ok : Result
  err : ReserveError → Result

abbrev pub new : ReservationStore
new = record { reservations = []; account_totals = [] }

-- The key of `account_totals`.
abbrev pub account_key : ℤ → ℕ → ℤ × ℕ
account_key account_id target_id = (account_id, target_id)

abbrev pub key_of : ReservationRecord → ℤ × ℕ
key_of r = account_key r.account_id r.target_id

-- `*entry(key).or_insert(0.0) += qty`
unfoldable pub add_total : ℤ × ℕ → ℤ → HashMap (ℤ × ℕ) ℤ → HashMap (ℤ × ℕ) ℤ
add_total key qty totals = insert key (unwrap_or (lookup key totals) (pos 0) +ℤ qty) totals

-- `if let Some(total) = get_mut(key) { *total -= qty; if *total <= 0.0 { remove(key) } }`
unfoldable pub sub_total : ℤ × ℕ → ℤ → HashMap (ℤ × ℕ) ℤ → HashMap (ℤ × ℕ) ℤ
sub_total key qty totals = elim (lookup key totals) [
  | none ↦ totals
  | some total ↦
      let left = total -ℤ qty in
      if leb_ℤ left (pos 0) then remove key totals else insert key left totals
]

unfoldable pub reserve : ReservationStore → ℤ → ℤ → ReserveKind → ℕ → ℤ → ReservationStore × Result
unfolding add_total
reserve s order_id account_id kind target_id qty =
    if contains_key order_id s.reservations then (s, err already_exists) else (
      record {
        reservations =
            insert order_id
              (record {
                order_id = order_id;
                account_id = account_id;
                kind = kind;
                target_id = target_id;
                reserved_qty = qty;
              })
              s.reservations;
        account_totals = add_total (account_id, target_id) qty s.account_totals;
      },
      ok,
    )

unfoldable pub release : ReservationStore → ℤ → ReservationStore
unfolding sub_total
release s order_id = elim (lookup order_id s.reservations) [
  | none ↦ s
  | some res ↦ record {
    reservations = remove order_id s.reservations;
    account_totals = sub_total (key_of res) res.reserved_qty s.account_totals;
  }
]

-- The record that stays after a partial release, and the map with it.
unfoldable pub keep_or_drop :
    ℤ → ReservationRecord → HashMap ℤ ReservationRecord → HashMap ℤ ReservationRecord
keep_or_drop order_id res m =
    if leb_ℤ res.reserved_qty (pos 0) then remove order_id m else insert order_id res m

unfoldable pub release_partial : ReservationStore → ℤ → ℤ → ReservationStore
unfolding sub_total keep_or_drop
release_partial s order_id filled_qty = elim (lookup order_id s.reservations) [
  | none ↦ s
  | some res ↦
      let released = min_ℤ filled_qty res.reserved_qty in
      record {
        reservations =
            keep_or_drop order_id (record res { reserved_qty = res.reserved_qty -ℤ released })
              s.reservations;
        account_totals = sub_total (key_of res) released s.account_totals;
      }
]

unfoldable pub total_reserved : ReservationStore → ℤ → ℕ → ℤ
total_reserved s account_id target_id =
    unwrap_or (lookup (account_id, target_id) s.account_totals) (pos 0)

unfoldable pub check_available : ReservationStore → ℤ → ℕ → ℤ → ℤ → Result
unfolding total_reserved
check_available s account_id target_id required available =
    if ltb_ℤ (available -ℤ total_reserved s account_id target_id) required
    then err not_enough
    else ok
