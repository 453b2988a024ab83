-- ===== src/Core/EndedPlacing.antt =====
-- Placing an order leaves no order open that is in a final state.
use zkbot.Prelude.{int_eq, string_eq, ap, inl, inr, not, ◌&&◌, ◌||◌, none, contains, Bool-cases}
use zkbot.Orders.Types.{OrderRequest, ResolvedOrderMeta, OrderAccountingFlags, Rejection}
use zkbot.Orders.Store.{create_order}
use zkbot.Reservation.{ReservationStore}
use zkbot.Position.{PositionStore}
use zkbot.Core.Types.{Env, Message, OmsCore}
use zkbot.Core.Requests.{Resolved, resolved, unresolved, validate_order_request}
use zkbot.Core.Placing.{
  PreTrade, passed, refused, pre_trade, is_oversized, rejected_orders, reject_order, send_order,
  after_checks, intern_source, check_and_send, after_resolution, process_order,
}
use zkbot.Core.PlacingKeeps.{IsSoundCore, IsPlaceable, rejected_orders-IsSound}
use zkbot.Core.Undo.{send_order_live}
use zkbot.Core.Ended.{
  is_ended, IsTidy, update_order-IsChangeOf, modify_live-IsChangeOf, closed-IsTidy, going-IsTidy,
  create_order-IsTidy,
}

module _ (env : Env) (core : OmsCore) (req : OrderRequest) (v : IsSoundCore core)
    (ok : IsPlaceable core req) (w : IsTidy core.orders) where
  reject_order-IsTidy :
      (meta : ResolvedOrderMeta) (flags : OrderAccountingFlags) (message : Message)
      (rejection : Rejection)
      → IsTidy (reject_order env core req meta flags message rejection).0.orders
  unfolding reject_order rejected_orders
  reject_order-IsTidy meta flags message rejection =
      let u = rejected_orders-IsSound env core req meta flags message rejection v ok in
      closed-IsTidy req.order_id
        (create_order core.orders (env.clock 1) req.order_id req meta flags none) _
        (update_order-IsChangeOf _ req.order_id _) u.stored
        (create_order-IsTidy core.orders (env.clock 1) req.order_id req meta flags none w)

  send_order-IsTidy :
      (meta : ResolvedOrderMeta) (r : ReservationStore) (p : PositionStore)
      → IsTidy (send_order env core req meta r p).0.orders
  unfolding send_order
  send_order-IsTidy meta r p =
      going-IsTidy req.order_id (create_order core.orders (env.clock 2) req.order_id req meta _ _) _
        (modify_live-IsChangeOf _ req.order_id _)
        (ap is_ended (send_order_live env core req meta r p))
        (create_order-IsTidy core.orders (env.clock 2) req.order_id req meta _ _ w)

  after_checks-IsTidy :
      (meta : ResolvedOrderMeta) (o : PreTrade) → IsTidy (after_checks env core req meta o).0.orders
  unfolding after_checks
  after_checks-IsTidy meta (refused message) = reject_order-IsTidy meta _ message _
  after_checks-IsTidy meta (passed r p) = send_order-IsTidy meta r p

  check_and_send-IsTidy :
      (meta : ResolvedOrderMeta) → IsTidy (check_and_send env core req meta).0.orders
  unfolding check_and_send
  check_and_send-IsTidy meta =
      elim (Bool-cases (core.risk_check_enabled && is_oversized req.qty meta.max_order_size)) [
        | inl large ↦ rw large (reject_order-IsTidy meta _ _ _)
        | inr small ↦ rw small (after_checks-IsTidy meta (pre_trade core req meta))
      ]

after_resolution-IsTidy :
    (env : Env) (core : OmsCore) (req : OrderRequest)
    → IsSoundCore core
    → IsPlaceable core req
    → IsTidy core.orders
    → (o : Resolved) → IsTidy (after_resolution env core req o).0.orders
unfolding after_resolution intern_source
after_resolution-IsTidy env core req v ok w (unresolved message) =
    reject_order-IsTidy env core req v ok w _ _ message _
after_resolution-IsTidy env core req v ok w (resolved meta) =
    let (interned, with_source) = intern_source core req meta in
    check_and_send-IsTidy env interned req v
      (record { fresh = ok.fresh; price = ok.price; qty = ok.qty }) w with_source

pub process_order-IsTidy :
    (env : Env) (core : OmsCore) (req : OrderRequest)
    → IsSoundCore core
    → IsPlaceable core req
    → IsTidy core.orders
    → IsTidy (process_order env core req).0.orders
unfolding process_order
process_order-IsTidy env core req v ok w =
    elim (Bool-cases (
      not (validate_order_request env.is_blank req)
      || contains req.account_id core.panic_accounts)) [
        | inl refuse ↦ rw refuse w
        | inr accept ↦ rw accept (after_resolution-IsTidy env core req v ok w _)
      ]
