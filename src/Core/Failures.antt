-- ===== src/Core/Failures.antt =====
-- What oms_core_v2.rs does when a gateway could not send an order or its cancellation
-- (`process_gateway_send_failed`, `process_gateway_cancel_send_failed`), and `process_cancel`.
use zkbot.Prelude.{
  ◌+◌, ◌%◌, u32_mod, ℤ, pos, ◌-ℤ◌, ltb_ℤ, int_eq, true, false, not, ◌&&◌, none, some, String,
  lookup, insert, HashMap, List, [], ◌∷◌, if◌then◌else◌,
}
use zkbot.Intern.{try_resolve}
use zkbot.Orders.Types.{
  LiveOrder, OrderDetailLog, OrderAccountingFlags, CancelOrderRequest, ExecType, exec_cancel,
  exec_placing_order, is_in_terminal_state,
}
use zkbot.Orders.Report.{apply_oms_error}
use zkbot.Orders.Store.{OrderStore, modify_live}
use zkbot.Orders.Closing.{mark_closed}
use zkbot.Reservation.{release}
use zkbot.Position.{PositionStore, unfreeze}
use zkbot.Core.Types.{
  Env, Message, send_failed, cancel_send_failed, cannot_cancel_terminal, OmsCore,
  OrderCancelRequest, OmsAction, send_cancel_to_gw, persist_order, publish_exec, internal_error,
}
use zkbot.Core.Requests.{validate_cancel_request}
use zkbot.Core.Placing.{update_order, time_of}

-- `get_live(order_id).map(|l| l.qty - l.filled_qty).unwrap_or(0.0)`
unfoldable pub remaining : OrderStore → ℤ → ℤ
remaining s order_id = elim (lookup order_id s.live) [
  | none ↦ pos 0
  | some live ↦ live.qty -ℤ live.filled_qty
]

-- The rest of a sell order is unfrozen, where there is any.
unfoldable pub unfreeze_rest :
    OrderStore → OrderAccountingFlags → ℤ → ℤ → PositionStore → PositionStore
unfolding remaining
unfreeze_rest orders flags account_id order_id positions = elim flags.pos_instrument_id [
  | none ↦ positions
  | some pos_id ↦
      if not flags.is_buy && ltb_ℤ (pos 0) (remaining orders order_id)
      then unfreeze positions account_id pos_id (remaining orders order_id)
      else positions
]

-- The error that an order gets in its log, and for a failed placing in its state.
unfoldable pub fail_order : Env → OrderStore → ℤ → Message → ℤ → ExecType → OrderStore
unfolding update_order
fail_order env s order_id message ts exec_type =
    update_order (λ l d. apply_oms_error l d (env.text message) ts exec_type internal_error)
      order_id s

-- The order is rejected and closed, its hold released, and what it froze unfrozen.
unfoldable pub fail_placing : Env → OmsCore → LiveOrder → ℤ → String → OmsCore × List OmsAction
unfolding fail_order unfreeze_rest
fail_placing env core live order_id error_msg =
    let orders =
      mark_closed
        (fail_order env core.orders order_id (send_failed error_msg) (env.clock 0)
          exec_placing_order)
        order_id in
    (
      record core {
        orders = orders;
        reservations = release core.reservations order_id;
        positions =
            unfreeze_rest orders live.accounting_flags live.account_id order_id core.positions;
      },
      persist_order order_id true true ∷ publish_exec order_id ∷ [],
    )

unfoldable pub process_gateway_send_failed : Env → OmsCore → ℤ → String → OmsCore × List OmsAction
unfolding fail_placing
process_gateway_send_failed env core order_id error_msg = elim (lookup order_id core.orders.live) [
  | none ↦ (core, [])
  | some live ↦
      if is_in_terminal_state live
      then (core, [])
      else fail_placing env core live order_id error_msg
]

-- The failure of a cancellation is logged, and the order stays as it is.
unfoldable pub process_gateway_cancel_send_failed :
    Env → OmsCore → ℤ → String → OmsCore × List OmsAction
unfolding fail_order
process_gateway_cancel_send_failed env core order_id error_msg =
    elim (lookup order_id core.orders.live) [
      | none ↦ (core, [])
      | some live ↦ if is_in_terminal_state live then (core, []) else (
        record core {
          orders =
              fail_order env core.orders order_id (cancel_send_failed error_msg) (env.clock 0)
                exec_cancel;
        },
        persist_order order_id false false ∷ publish_exec order_id ∷ [],
      )
    ]

-- `exch_order_ref_id.map(|id| dyn_strings.resolve(id)).unwrap_or_default()`; an id that is not in
-- the table, which panics in the source, gives the empty string.
unfoldable pub exch_ref_text : OrderStore → LiveOrder → String
exch_ref_text s live = elim live.exch_order_ref_id [
  | none ↦ ""
  | some id ↦ elim (try_resolve s.dyn_strings id) [ none ↦ "" | some text ↦ text ]
]

abbrev pub with_cancel_req : CancelOrderRequest → OrderDetailLog → OrderDetailLog
with_cancel_req cancel_req d = record d { cancel_req = some cancel_req }

-- `if let Some(detail) = self.detail.get_mut(&order_id) { .. }`
unfoldable pub modify_detail :
    (OrderDetailLog → OrderDetailLog) → ℤ → HashMap ℤ OrderDetailLog → HashMap ℤ OrderDetailLog
modify_detail f order_id m = elim (lookup order_id m) [
  | none ↦ m
  | some detail ↦ insert order_id (f detail) m
]

-- The cancellation is noted on the order and sent. `cancel_attempts` is a u32.
unfoldable pub send_cancel :
    Env → OmsCore → LiveOrder → OrderCancelRequest → OmsCore × List OmsAction
unfolding exch_ref_text modify_detail modify_live
send_cancel env core live req =
    let cancel_req : CancelOrderRequest = record {
      order_id = req.order_id;
      exch_order_ref = exch_ref_text core.orders live;
      timestamp = time_of core req.timestamp (env.clock 0);
    } in
    (
      record core {
        orders = record core.orders {
          detail = modify_detail (with_cancel_req cancel_req) req.order_id core.orders.detail;
          live =
              modify_live (λ l. record l { cancel_attempts = (l.cancel_attempts + 1) % u32_mod })
                req.order_id core.orders.live;
        };
      },
      send_cancel_to_gw live.gw_id req.order_id ∷ [],
    )

-- The branches of `process_cancel` for an order that is live.
unfoldable pub cancel_live :
    Env → OmsCore → LiveOrder → OrderCancelRequest → OmsCore × List OmsAction
unfolding fail_order send_cancel
cancel_live env core live req =
    if live.is_external
    then (core, [])
    else if is_in_terminal_state live
    then (
      record core {
        orders =
            fail_order env core.orders req.order_id cannot_cancel_terminal
              (time_of core req.timestamp (env.clock 0)) exec_cancel;
      },
      publish_exec req.order_id ∷ [],
    )
    else send_cancel env core live req

unfoldable pub process_cancel : Env → OmsCore → OrderCancelRequest → OmsCore × List OmsAction
unfolding cancel_live
process_cancel env core req =
    if not (validate_cancel_request req)
    then (core, [])
    else elim (lookup req.order_id core.orders.live) [
      | none ↦ (core, [])
      | some live ↦ cancel_live env core live req
    ]
