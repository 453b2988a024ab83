-- ===== src/Orders/Report.antt =====
-- The functions of order_store_v2.rs that apply one report to one order. `f64` division is not
-- exact, so it is the parameter `div` of the functions that divide.
use zkbot.Prelude.{
  ◌+◌, ◌%◌, u32_mod, ℤ, pos, ◌+ℤ◌, ◌-ℤ◌, ◌*ℤ◌, ltb_ℤ, max_ℤ, int_beq, Bool, true, false, not, ◌&&◌,
  Option, none, some, is_none, unwrap_or, String, [], ◌∷◌, ◌++◌, length, if◌then◌else◌,
}
use zkbot.Orders.Types.{
  OrderStatus, unspecified, booked, partially_filled, filled, cancelled, rejected,
  ExchangeOrderStatus, exch_unspecified, exch_booked, exch_partial_filled, exch_filled,
  exch_cancelled, exch_rejected, exch_expired, ExecType, exec_placing_order, Rejection, Trade,
  pseudo, ExecMessage, Fee, LiveOrder, OrderDetailLog,
}

unfoldable pub map_order_status : ExchangeOrderStatus → OrderStatus
map_order_status exch_booked = booked
map_order_status exch_partial_filled = partially_filled
map_order_status exch_filled = filled
map_order_status exch_cancelled = cancelled
map_order_status exch_rejected = rejected
map_order_status exch_expired = cancelled
map_order_status exch_unspecified = unspecified

abbrev pub is_cancelled_or_filled : OrderStatus → Bool
is_cancelled_or_filled cancelled = true
is_cancelled_or_filled filled = true
is_cancelled_or_filled _ = false

abbrev pub is_unspecified : OrderStatus → Bool
is_unspecified unspecified = true
is_unspecified _ = false

unfoldable pub can_update_status : OrderStatus → OrderStatus → Bool
can_update_status old new = not (is_cancelled_or_filled old) && not (is_unspecified new)

unfoldable pub infer_trade_price : (ℤ → ℤ → ℤ) → ℤ → ℤ → ℤ → ℤ → Option ℤ
infer_trade_price div orig_qty orig_avg new_qty new_avg =
    if int_beq new_qty (pos 0)
    then none
    else if int_beq orig_avg (pos 0)
    then some new_avg
    else if int_beq new_avg (pos 0)
    then none
    else let increment = new_qty -ℤ orig_qty in
      if int_beq increment (pos 0)
      then none
      else some (div (new_avg *ℤ new_qty -ℤ orig_avg *ℤ orig_qty) increment)

-- The quantity and the average price that a state report leaves on an order.
unfoldable pub reported_filled : Option ℤ → ℤ → ℤ
reported_filled none orig = orig
reported_filled (some fq) orig = if int_beq fq (pos 0) then orig else max_ℤ fq orig

abbrev pub reported_avg : ℤ → ℤ → ℤ
reported_avg avg_price orig = if int_beq avg_price (pos 0) then orig else avg_price

-- 1e-8 in units of 10^-9.
abbrev pub fill_tolerance : ℤ
fill_tolerance = pos 10

-- The trade that stands for a rise of the filled quantity which no trade report explains.
unfoldable pub inferred_trade : (ℤ → ℤ → ℤ) → LiveOrder → OrderDetailLog → ℤ → ℤ → ℤ → Trade
inferred_trade div live detail new_filled new_avg ts = record {
  order_id = live.order_id;
  ext_order_ref = "";
  ext_trade_id = pseudo live.order_id (length detail.inferred_trades);
  filled_qty = new_filled -ℤ live.filled_qty;
  filled_price =
      unwrap_or (infer_trade_price div live.filled_qty live.filled_avg_price new_filled new_avg)
        (pos 0);
  filled_ts = ts;
  buy_sell_type = pos 0;
  instrument = "";
  account_id = pos 0;
  fill_type = pos 0;
  exch_pnl = pos 0;
}

unfoldable pub apply_state_report :
    (ℤ → ℤ → ℤ)
    → LiveOrder
    → OrderDetailLog
    → Option ℤ
    → ℤ
    → ExchangeOrderStatus
    → ℤ
    → LiveOrder × OrderDetailLog
apply_state_report div live detail filled_qty_from_report avg_price exch_status ts =
    let new_filled = reported_filled filled_qty_from_report live.filled_qty in
    let new_avg = reported_avg avg_price live.filled_avg_price in
    let new_status = map_order_status exch_status in
    (
      record live {
        filled_qty = new_filled;
        filled_avg_price = new_avg;
        order_status =
            if can_update_status live.order_status new_status
            then new_status
            else live.order_status;
      },
      if ltb_ℤ fill_tolerance (new_filled -ℤ live.filled_qty)
          then record detail {
            inferred_trades =
                detail.inferred_trades
                ++ (inferred_trade div live detail new_filled new_avg ts ∷ []);
          }
          else detail,
    )

unfoldable pub apply_trade_report : LiveOrder → OrderDetailLog → Trade → LiveOrder × OrderDetailLog
apply_trade_report live detail trade = (
  record live {
    acc_trades_filled_qty = live.acc_trades_filled_qty +ℤ trade.filled_qty;
    acc_trades_value = live.acc_trades_value +ℤ trade.filled_qty *ℤ trade.filled_price;
  },
  record detail { trades = detail.trades ++ (trade ∷ []) },
)

abbrev pub is_placing : ExecType → Bool
is_placing exec_placing_order = true
is_placing _ = false

unfoldable pub apply_exec_report :
    LiveOrder → OrderDetailLog → ExecMessage → LiveOrder × OrderDetailLog
apply_exec_report live detail exec_msg = (
  if is_placing exec_msg.exec_type then record live { order_status = rejected } else live,
  record detail { exec_msgs = detail.exec_msgs ++ (exec_msg ∷ []) },
)

unfoldable pub apply_fee_report : OrderDetailLog → Fee → OrderDetailLog
apply_fee_report detail fee = record detail { fees = detail.fees ++ (fee ∷ []) }

unfoldable pub apply_oms_error :
    LiveOrder → OrderDetailLog → String → ℤ → ExecType → Rejection → LiveOrder × OrderDetailLog
apply_oms_error live detail error_msg ts exec_type rejection = (
  if is_placing exec_type
      then record live {
        snapshot_version = (live.snapshot_version + 1) % u32_mod;
        order_status = rejected;
        updated_at = ts;
        error_msg = error_msg;
        terminal_at = if is_none live.terminal_at then some ts else live.terminal_at;
      }
      else live,
  record detail {
    exec_msgs =
        detail.exec_msgs
        ++ (record {
          order_id = live.order_id;
          timestamp = ts;
          exec_type = exec_type;
          exec_success = false;
          error_msg = error_msg;
          rejection_info = some rejection;
        }
            ∷ []);
  },
)
