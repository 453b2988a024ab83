-- ===== src/Orders/Examples.antt =====
-- One order and one small store, run through the theorems.
use zkbot.Prelude.{
  ℤ, pos, ◌≡◌, ◌⊎◌, refl, true, false, not, ◌&&◌, ◌==◌, int_eq, nat_eq, pair_eq, string_eq, none,
  some, contains, lookup, List, [], ◌∷◌, int_laws,
}
use zkbot.Orders.Types.{
  exch_filled, exch_booked, exec_cancel, exch_trade_id, filled, Trade, ExecMessage, LiveOrder,
  OrderDetailLog, OrderRequest, ResolvedOrderMeta, default_flags,
}
use zkbot.Orders.Status.{OrderEvent, state_report, trade_report, exec_report, run, order_status-run}
use zkbot.Orders.Fills.{IsBooked, total_qty, total_value, run-IsBooked}
use zkbot.Orders.Store.{
  OrderStore, new, new_live, new_detail, create_order, register_exch_ref, resolve_order_id,
}
use zkbot.Orders.Closing.{mark_closed}
use zkbot.Orders.Invariant.{IsWellFormed}
use zkbot.Orders.Keeps.{Reach, here, next, creates, closes, Reach-new-IsWellFormed}
use zkbot.Orders.Entries.{ReportEntry, StateReport, trade_entry, linkage_entry, inferred_state}
use zkbot.Orders.Lifecycle.{mark_closed_keeps, resolve_order_id-register_exch_ref}

abbrev request : OrderRequest
request = record {
  order_id = pos 7;
  account_id = pos 1;
  instrument_code = "BTC";
  buy_sell_type = pos 1;
  open_close_type = pos 0;
  order_type = pos 1;
  price = pos 2000000000;
  qty = pos 5000000000;
  source_id = "src";
  timestamp = pos 100;
  time_inforce_type = pos 0;
  extra_properties = none;
}

abbrev meta : ResolvedOrderMeta
meta = record {
  account_id = pos 1;
  gw_id = 1;
  instrument_id = 2;
  instrument_exch_sym = 3;
  exch_account_sym = 4;
  source_sym = 5;
  fund_asset_id = none;
  pos_instrument_id = none;
  bookkeeping_balance = false;
  balance_check = false;
  use_margin = false;
  max_order_size = none;
  qty_precision = pos 3;
  price_precision = pos 2;
}

abbrev live : LiveOrder
live = new_live (pos 7) request meta default_flags (pos 100)

abbrev detail : OrderDetailLog
detail = new_detail (pos 7) (some request) none

abbrev trade : Trade
trade = record {
  order_id = pos 7;
  ext_order_ref = "x-1";
  ext_trade_id = exch_trade_id "t-1";
  filled_qty = pos 2000000000;
  filled_price = pos 2000000000;
  filled_ts = pos 110;
  buy_sell_type = pos 1;
  instrument = "BTC";
  account_id = pos 1;
  fill_type = pos 0;
  exch_pnl = pos 0;
}

abbrev cancel_refused : ExecMessage
cancel_refused = record {
  order_id = pos 7;
  timestamp = pos 130;
  exec_type = exec_cancel;
  exec_success = false;
  error_msg = "filled";
  rejection_info = none;
}

-- Division that is good enough to run the code.
abbrev div_const : ℤ → ℤ → ℤ
div_const a b = pos 2000000000

abbrev events : List OrderEvent
events =
    state_report none (pos 0) exch_booked (pos 105)
    ∷ trade_report trade
    ∷ state_report (some (pos 5000000000)) (pos 2000000000) exch_filled (pos 120)
    ∷ exec_report cancel_refused
    ∷ []

abbrev closed_order : LiveOrder
closed_order = record live { order_status = filled; terminal_at = some (pos 99) }

order_status-run_example : (run div_const (closed_order, detail) events).0.order_status ≡ filled
order_status-run_example = order_status-run div_const (closed_order, detail) events refl (refl, tt)

live-IsBooked : IsBooked (live, detail)
unfolding total_qty total_value
live-IsBooked = record { trades_qty = refl; trades_value = refl; inferred_qty = omega int_laws }

run-IsBooked_example : IsBooked (run div_const (live, detail) events)
run-IsBooked_example = run-IsBooked div_const (live, detail) events live-IsBooked

abbrev empty_store : OrderStore
empty_store = new 0 true

abbrev one_order : OrderStore
one_order = create_order empty_store (pos 0) (pos 7) request meta default_flags none

reached : Reach empty_store (mark_closed one_order (pos 7))
unfolding lookup contains
reached =
    next (next here (creates (pos 0) (pos 7) request meta default_flags none (refl, refl)))
      (closes (pos 7))

one_order-IsWellFormed : IsWellFormed one_order
unfolding lookup contains
one_order-IsWellFormed =
    Reach-new-IsWellFormed 0 true one_order
      (next here (creates (pos 0) (pos 7) request meta default_flags none (refl, refl)))

Reach-new-IsWellFormed_example : IsWellFormed (mark_closed one_order (pos 7))
Reach-new-IsWellFormed_example =
    Reach-new-IsWellFormed 0 true (mark_closed one_order (pos 7)) reached

mark_closed_keeps_example :
    (contains (pos 7) (mark_closed one_order (pos 7)).open_order_ids
      ≡ (not (pos 7 == pos 7) && contains (pos 7) one_order.open_order_ids))
    × ((contains (pos 7) (mark_closed one_order (pos 7)).open_order_ids ≡ false)
        ⊎ (lookup (pos 7) (mark_closed one_order (pos 7)).live ≡ lookup (pos 7) one_order.live))
mark_closed_keeps_example = mark_closed_keeps one_order (pos 7) (pos 7) one_order-IsWellFormed

resolve_order_id-register_exch_ref_example :
    resolve_order_id (register_exch_ref one_order (pos 7) 1 "x-1") (pos 0) 1 "x-1" ≡ some (pos 7)
resolve_order_id-register_exch_ref_example =
    resolve_order_id-register_exch_ref one_order (pos 7) 1 "x-1"

abbrev entries : List ReportEntry
entries =
    linkage_entry "r"
    ∷ trade_entry (record {
      exch_trade_id = "t-1";
      filled_qty = pos 2000000000;
      filled_price = pos 3;
      fill_type = pos 0;
      exch_pnl = pos 0;
    })
    ∷ []

abbrev inferred : StateReport
inferred = inferred_state div_const live (pos 2000000000) (pos 6000000000)
