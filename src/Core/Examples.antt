-- ===== src/Core/Examples.antt =====
-- One small core, run through the theorems.
use zkbot.Prelude.{
  ℕ, ℤ, pos, ◌*ℤ◌, ◌-ℤ◌, int_eq, nat_eq, pair_eq, string_eq, ◌≡◌, refl, ◌↔◌, ◌⊎◌, true, false, ◌&&◌,
  none, some, is_some, lookup, contains, [], ◌∷◌, arith, insert, unwrap_or,
}
use zkbot.Intern.{lookup_id}
use zkbot.Orders.Types.{OrderRequest, LiveOrder, is_in_terminal_state}
use zkbot.Orders.Report.{apply_oms_error}
use zkbot.Orders.Store.{create_order, open_order, put_order}
use zkbot.Orders.Closing.{mark_closed, evict, external_live}
use zkbot.Core.Leaks.{Reach-new-unheld}
use zkbot.Orders.Invariant.{IsWellFormed, IsFresh}
use zkbot.Reservation.{total_reserved, check_available}
use zkbot.Reservation.Laws.{new-IsConsistent}
use zkbot.Reservation.Totals.{held}
use zkbot.Balance.{BalanceStore, default_balance, get_balance}
use zkbot.Metadata.{MetadataTables, route, resolve_instrument, trading}
use zkbot.Core.Types.{
  Env, OmsCore, OrderCancelRequest, place_order, panic, dont_panic, spot_instrument_type,
}
use zkbot.Core.Panic.{run_messages, any_lifts_panic, lifts_panic, process_order-run_messages}
use zkbot.Core.Requests.{
  validate_order_request, validate_cancel_request, resolve_order_meta, resolved_meta, fund_of,
}
use zkbot.Core.Placing.{
  process_order, after_resolution, intern_source, source_sym_of, check_and_send, is_oversized,
  reject_order, rejected_orders, pre_trade, hold_cash, cash_held, avail_value, after_checks,
  send_order, update_order,
}
use zkbot.Core.Failures.{
  process_cancel, process_gateway_send_failed, process_gateway_cancel_send_failed,
}
use zkbot.Core.Messages.{new, process_message}
use zkbot.Core.PlacingKeeps.{IsSoundCore, IsPlaceable}
use zkbot.Core.Reachable.{Reach, here, next, new-IsSound, Reach-new-IsSound}
use zkbot.Core.Accepts.{sends_order, IsAcceptable, sends-process_order}
use zkbot.Core.Refusals.{IsRefusal, process_order-IsRefusal}
use zkbot.Core.Undo.{send_failed-process_order}
use zkbot.Core.Cancels.{
  sends_cancel, can_cancel, IsUntouched, process_cancel_lem, process_gateway_cancel_send_failed_lem,
}

abbrev metadata : MetadataTables
metadata = record {
  strings = record {
    ids_by_str = ("GW", 0) ∷ ("ACC", 1) ∷ ("BTC", 2) ∷ ("USDT", 3) ∷ ("BTC-USDT", 4) ∷ [];
    strs_by_id = "GW" ∷ "ACC" ∷ "BTC" ∷ "USDT" ∷ "BTC-USDT" ∷ [];
  };
  instruments =
      record {
        instrument_id = 0;
        instrument_code_sym = 4;
        instrument_exch_sym = 4;
        instrument_type = spot_instrument_type;
        base_asset_id = some 0;
        base_asset_sym = some 2;
        quote_asset_id = some 1;
        settlement_asset_id = none;
        qty_precision = pos 3;
        price_precision = pos 2;
      }
      ∷ [];
  instrument_by_code = (4, 0) ∷ [];
  instrument_by_gw_symbol = ((0, 4), 0) ∷ [];
  gws = record { gw_id = 0; gw_key_sym = 0; exch_name_sym = 0; cancel_required_fields = [] } ∷ [];
  gw_by_key = (0, 0) ∷ [];
  route_by_account =
      (pos 7, record { account_id = pos 7; gw_id = 0; gw_key_sym = 0; exch_account_sym = 1 }) ∷ [];
  assets = record { asset_id = 0; asset_sym = 2 } ∷ record { asset_id = 1; asset_sym = 3 } ∷ [];
  asset_by_symbol = (2, 0) ∷ (3, 1) ∷ [];
  trading_by_instrument =
      (
        0,
        record {
          instrument_id = 0;
          bookkeeping_balance = true;
          balance_check = true;
          use_margin = false;
          margin_ratio = pos 1000000000;
          max_order_size = some (pos 5000000000);
          publish_balance_on_trade = true;
          publish_balance_on_book = false;
          publish_balance_on_cancel = false;
        },
      )
      ∷ [];
}

-- 100 USDT are available.
abbrev balances : BalanceStore
balances = record {
  exch_balances =
      (
        (pos 7, 1),
        record {
          account_id = pos 7;
          asset = "USDT";
          symbol_exch = some "USDT";
          balance_state = record default_balance { avail_qty = pos 100000000000 };
          exch_data_raw = "";
          sync_ts = pos 1;
        },
      )
      ∷ [];
  unknown_exch_balances = [];
  account_id_by_exch_account_sym = (1, pos 7) ∷ [];
}

abbrev core : OmsCore
core = record (new metadata false true false 10) { balances = balances }

-- Division that is good enough to run the code.
abbrev env : Env
env = record {
  clock = λ i. pos 1000;
  next_order_id = pos 900;
  text = λ message. "error";
  div = λ a b. a;
  is_blank = λ s. false;
}

-- 2 BTC at 20 USDT each.
abbrev buy : OrderRequest
buy = record {
  order_id = pos 42;
  account_id = pos 7;
  instrument_code = "BTC-USDT";
  buy_sell_type = pos 1;
  open_close_type = pos 0;
  order_type = pos 1;
  price = pos 20000000000;
  qty = pos 2000000000;
  source_id = "test";
  timestamp = pos 5;
  time_inforce_type = pos 0;
  extra_properties = none;
}

-- More than the largest size.
abbrev large : OrderRequest
large = record buy { qty = pos 6000000000 }

abbrev cancel : OrderCancelRequest
cancel = record { order_id = pos 42; timestamp = pos 6 }

core_sound : IsSoundCore core
unfolding new
core_sound =
    let v = new-IsSound metadata false true false 10 in
    record {
      stored = v.stored;
      priced = v.priced;
      consistent = v.consistent;
      held_open = v.held_open;
    }

fresh : IsFresh core.orders (pos 42)
unfolding lookup contains new
fresh = (refl, refl)

buy-IsPlaceable : IsPlaceable core buy
buy-IsPlaceable = record { fresh = fresh; price = omega arith; qty = omega arith }

large-IsPlaceable : IsPlaceable core large
large-IsPlaceable = record { fresh = fresh; price = omega arith; qty = omega arith }

abbrev empty : OmsCore
empty = new metadata false true false 10

empty_fresh : IsPlaceable empty buy
unfolding lookup contains new
empty_fresh = record { fresh = (refl, refl); price = omega arith; qty = omega arith }

abbrev after_buy : OmsCore
after_buy = (process_message env empty (place_order buy)).0

sends-process_order_example :
    (sends_order (process_order env core buy).1 ≡ true) ↔ IsAcceptable env core buy
unfolding new
sends-process_order_example = sends-process_order env core buy new-IsConsistent

large_refused : sends_order (process_order env core large).1 ≡ false
unfolding process_order after_resolution intern_source source_sym_of check_and_send is_oversized
    reject_order rejected_orders validate_order_request contains resolve_order_meta route
    resolve_instrument trading resolved_meta lookup lookup_id new
large_refused = refl

buy_sent : sends_order (process_order env core buy).1 ≡ true
unfolding process_order after_resolution intern_source source_sym_of check_and_send is_oversized
    pre_trade hold_cash cash_held avail_value get_balance check_available total_reserved
    after_checks send_order validate_order_request contains resolve_order_meta route
    resolve_instrument trading resolved_meta fund_of lookup lookup_id new ◌*ℤ◌ ◌-ℤ◌
buy_sent = refl

process_order-IsRefusal_example : IsRefusal core large (process_order env core large)
process_order-IsRefusal_example =
    process_order-IsRefusal env core large core_sound large-IsPlaceable large_refused

send_failed-process_order_example :
    let failed =
      process_gateway_send_failed env (process_order env core buy).0 (pos 42) "refused" in
    total_reserved failed.0.reservations (pos 7) 1 ≡ total_reserved core.reservations (pos 7) 1
send_failed-process_order_example =
    send_failed-process_order env env core buy "refused" core_sound buy-IsPlaceable buy_sent (pos 7)
      1

after_buy_reached : Reach empty after_buy
after_buy_reached = next env (place_order buy) here empty_fresh

Reach-new-IsSound_example :
    IsWellFormed after_buy.orders
    × ((account_id : ℤ) (target_id : ℕ)
        → total_reserved after_buy.reservations account_id target_id
          ≡ held (account_id, target_id) after_buy.reservations.reservations)
    × ((id : ℤ)
        → (is_some (lookup id after_buy.reservations.reservations) ≡ false)
          ⊎ ((contains id after_buy.orders.open_order_ids ≡ true)
              × (is_some (lookup id after_buy.orders.live) ≡ true)))
Reach-new-IsSound_example =
    Reach-new-IsSound metadata false true false 10 after_buy after_buy_reached

process_cancel_lem_example :
    (sends_cancel (process_cancel env after_buy cancel).1
      ≡ validate_cancel_request cancel && can_cancel (lookup (pos 42) after_buy.orders.live))
    × IsUntouched after_buy (process_cancel env after_buy cancel).0
process_cancel_lem_example = process_cancel_lem env after_buy cancel

process_gateway_cancel_send_failed_lem_example :
    let after = (process_gateway_cancel_send_failed env after_buy (pos 42) "refused").0 in
    ((j : ℤ) → lookup j after.orders.live ≡ lookup j after_buy.orders.live)
    × (after.orders.open_order_ids ≡ after_buy.orders.open_order_ids)
    × (after.reservations ≡ after_buy.reservations)
    × (after.positions ≡ after_buy.positions)
process_gateway_cancel_send_failed_lem_example =
    process_gateway_cancel_send_failed_lem env after_buy (pos 42) "refused"

empty_fresh_large : IsPlaceable empty large
unfolding lookup contains new
empty_fresh_large = record { fresh = (refl, refl); price = omega arith; qty = omega arith }

abbrev after_large : OmsCore
after_large = (process_message env empty (place_order large)).0

abbrev rejected_large : LiveOrder
rejected_large =
    unwrap_or (lookup (pos 42) after_large.orders.live)
      (external_live (pos 0) 0 0 (pos 0) (pos 0) 0)

large_live : lookup (pos 42) after_large.orders.live ≡ some rejected_large
unfolding process_message process_order after_resolution intern_source source_sym_of check_and_send
    is_oversized reject_order rejected_orders update_order create_order open_order put_order
    apply_oms_error mark_closed evict insert validate_order_request contains resolve_order_meta
    route resolve_instrument trading resolved_meta lookup lookup_id new
large_live = refl

large_ended : is_in_terminal_state rejected_large ≡ true
unfolding process_message process_order after_resolution intern_source source_sym_of check_and_send
    is_oversized reject_order rejected_orders update_order create_order open_order put_order
    apply_oms_error mark_closed evict insert validate_order_request contains resolve_order_meta
    route resolve_instrument trading resolved_meta lookup lookup_id new
large_ended = refl

Reach-new-unheld_example :
    (contains (pos 42) after_large.orders.open_order_ids ≡ false)
    × (lookup (pos 42) after_large.reservations.reservations ≡ none)
Reach-new-unheld_example =
    Reach-new-unheld metadata false true false 10 after_large
      (next env (place_order large) here empty_fresh_large) (pos 42) rejected_large large_live
      large_ended

process_order-run_messages_example :
    process_order env
      (run_messages core
        ((env, panic (pos 7)) ∷ (env, place_order large) ∷ (env, dont_panic (pos 8)) ∷ []))
      buy
    ≡ (
      run_messages core
          ((env, panic (pos 7)) ∷ (env, place_order large) ∷ (env, dont_panic (pos 8)) ∷ []),
      [],
    )
unfolding any_lifts_panic lifts_panic
process_order-run_messages_example =
    process_order-run_messages env core ((env, place_order large) ∷ (env, dont_panic (pos 8)) ∷ [])
      env buy refl
