-- ===== src/Core/FailureKeeps.antt =====
-- Failures of a gateway and cancellations keep the orders and the holds sound.
use zkbot.Prelude.{
  ℤ, int_eq, nat_eq, pair_eq, refl, inl, inr, String, lookup, Bool-cases, Option-cases,
}
use zkbot.Orders.Types.{LiveOrder, ExecType, exec_cancel, exec_placing_order, is_in_terminal_state}
use zkbot.Orders.Store.{OrderStore}
use zkbot.Core.Types.{Env, Message, send_failed, OmsCore, OrderCancelRequest}
use zkbot.Core.Requests.{validate_cancel_request}
use zkbot.Core.Failures.{
  fail_order, fail_placing, process_gateway_send_failed, process_gateway_cancel_send_failed,
  send_cancel, cancel_live, process_cancel,
}
use zkbot.Core.Edits.{
  IsEdit, trans-IsEdit, modify_live-IsEdit, modify_detail-IsEdit, update_order-IsEdit,
}
use zkbot.Core.Sound.{edit-IsSound, close-IsSound, release-IsSound, release_frees}
use zkbot.Core.PlacingKeeps.{IsSoundCore, apply_oms_error-IsSameOrder}
use zkbot.Core.ReportKeeps.{same}

pub fail_order-IsEdit :
    (env : Env) (s : OrderStore) (id : ℤ) (message : Message) (ts : ℤ) (kind : ExecType)
    → IsEdit s (fail_order env s id message ts kind)
unfolding fail_order
fail_order-IsEdit env s id message ts kind =
    update_order-IsEdit _ id s (λ l d. apply_oms_error-IsSameOrder l d _ _ _ _)

module _ (env : Env) (core : OmsCore) (v : IsSoundCore core) where
  fail_placing-IsSound :
      (live : LiveOrder) (order_id : ℤ) (error_msg : String)
      → IsSoundCore (fail_placing env core live order_id error_msg).0
  unfolding fail_placing
  fail_placing-IsSound live order_id error_msg =
      let f =
        fail_order-IsEdit env core.orders order_id (send_failed error_msg) (env.clock 0)
          exec_placing_order in
      let u = edit-IsSound core.orders _ core.reservations f v in
      close-IsSound _ _ (release-IsSound _ core.reservations u order_id) order_id
        (release_frees core.reservations order_id)

  pub process_gateway_send_failed-IsSound :
      (order_id : ℤ) (error_msg : String)
      → IsSoundCore (process_gateway_send_failed env core order_id error_msg).0
  unfolding process_gateway_send_failed
  process_gateway_send_failed-IsSound order_id error_msg =
      elim (Option-cases (lookup order_id core.orders.live)) [
        | inl e ↦ rw (e, process_gateway_send_failed) v
        | inr (live, e) ↦ elim (Bool-cases (is_in_terminal_state live)) [
          | inl ended ↦ rw (e, ended, process_gateway_send_failed) v
          | inr going ↦
              rw (e, going, process_gateway_send_failed)
                (fail_placing-IsSound live order_id error_msg)
        ]
      ]

  pub process_gateway_cancel_send_failed-IsSound :
      (order_id : ℤ) (error_msg : String)
      → IsSoundCore (process_gateway_cancel_send_failed env core order_id error_msg).0
  unfolding process_gateway_cancel_send_failed
  process_gateway_cancel_send_failed-IsSound order_id error_msg =
      elim (Option-cases (lookup order_id core.orders.live)) [
        | inl e ↦ rw (e, process_gateway_cancel_send_failed) v
        | inr (live, e) ↦ elim (Bool-cases (is_in_terminal_state live)) [
          | inl ended ↦ rw (e, ended, process_gateway_cancel_send_failed) v
          | inr going ↦
              rw (e, going, process_gateway_cancel_send_failed)
                (edit-IsSound core.orders _ core.reservations
                  (fail_order-IsEdit env core.orders order_id _ _ exec_cancel) v)
        ]
      ]

  send_cancel-IsSound :
      (live : LiveOrder) (req : OrderCancelRequest) → IsSoundCore (send_cancel env core live req).0
  unfolding send_cancel
  send_cancel-IsSound live req =
      edit-IsSound core.orders _ core.reservations
        (trans-IsEdit core.orders _ _ (modify_detail-IsEdit _ req.order_id core.orders)
          (modify_live-IsEdit _ req.order_id _ (λ l. same l _ refl refl refl)))
        v

  pub process_cancel-IsSound :
      (req : OrderCancelRequest) → IsSoundCore (process_cancel env core req).0
  unfolding process_cancel cancel_live
  process_cancel-IsSound req = elim (Bool-cases (validate_cancel_request req)) [
    | inr bad ↦ rw bad v
    | inl good ↦ elim (Option-cases (lookup req.order_id core.orders.live)) [
      | inl e ↦ rw (good, e, process_cancel) v
      | inr (live, e) ↦ elim (Bool-cases live.is_external) [
        | inl external ↦ rw (good, e, external, process_cancel) v
        | inr own ↦ elim (Bool-cases (is_in_terminal_state live)) [
          | inl ended ↦
              rw (good, e, own, ended, process_cancel)
                (edit-IsSound core.orders _ core.reservations
                  (fail_order-IsEdit env core.orders req.order_id _ _ exec_cancel) v)
          | inr going ↦ rw (good, e, own, going, process_cancel) (send_cancel-IsSound live req)
        ]
      ]
    ]
  ]
