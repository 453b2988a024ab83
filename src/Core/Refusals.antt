-- ===== src/Core/Refusals.antt =====
-- What an order that is not sent leaves behind.
use zkbot.Prelude.{
  int_eq, ==_refl, ◌≡◌, refl, ◌⊎◌, inl, inr, false, not, ◌&&◌, ◌||◌, contains, List, [], ◌∷◌,
  Bool-cases, arith,
}
use zkbot.Orders.Types.{OrderRequest, ResolvedOrderMeta, OrderAccountingFlags, Rejection}
use zkbot.Orders.Lifecycle.{mark_closed_keeps}
use zkbot.Core.Types.{Env, Message, OmsCore, OmsAction, publish_exec}
use zkbot.Core.Requests.{Resolved, resolved, unresolved, validate_order_request, resolve_order_meta}
use zkbot.Core.Placing.{
  PreTrade, passed, refused, pre_trade, is_oversized, rejected_orders, reject_order, send_order,
  after_checks, intern_source, check_and_send, after_resolution, process_order,
}
use zkbot.Core.PlacingKeeps.{IsSoundCore, IsPlaceable, rejected_orders-IsSound}
use zkbot.Core.Accepts.{sends_order}

-- Nothing is held or moved; and either nothing happened, or the order was rejected: all that is
-- published is its execution message, and it is not open.
abbrev pub IsRefusal : OmsCore → OrderRequest → OmsCore × List OmsAction → Type 0
IsRefusal core req (after, actions) =
    (after.reservations ≡ core.reservations)
    × (after.positions ≡ core.positions)
    × (after.balances ≡ core.balances)
    × (((actions ≡ []) × (after.orders ≡ core.orders))
        ⊎ ((actions ≡ publish_exec req.order_id ∷ [])
            × (contains req.order_id after.orders.open_order_ids ≡ false)))

module _ (env : Env) (core : OmsCore) (req : OrderRequest) (v : IsSoundCore core)
    (ok : IsPlaceable core req) where
  reject_order-IsRefusal :
      (meta : ResolvedOrderMeta) (flags : OrderAccountingFlags) (message : Message)
      (rejection : Rejection)
      → IsRefusal core req (reject_order env core req meta flags message rejection)
  unfolding reject_order
  reject_order-IsRefusal meta flags message rejection =
      let u = rejected_orders-IsSound env core req meta flags message rejection v ok in
      (
        refl,
        refl,
        refl,
        inr (
          refl,
          ground (
            arith,
            (mark_closed_keeps (rejected_orders env core req meta flags message rejection)
                req.order_id req.order_id u.stored).0,
            ==_refl req.order_id,
          ),
        ),
      )

  after_checks-IsRefusal :
      (meta : ResolvedOrderMeta) (o : PreTrade)
      → sends_order (after_checks env core req meta o).1 ≡ false
      → IsRefusal core req (after_checks env core req meta o)
  unfolding after_checks send_order
  after_checks-IsRefusal meta (refused message) h = reject_order-IsRefusal meta _ message _
  after_checks-IsRefusal meta (passed r p) h = ground arith

  check_and_send-IsRefusal :
      (meta : ResolvedOrderMeta)
      → sends_order (check_and_send env core req meta).1 ≡ false
      → IsRefusal core req (check_and_send env core req meta)
  unfolding check_and_send
  check_and_send-IsRefusal meta =
      elim (Bool-cases (core.risk_check_enabled && is_oversized req.qty meta.max_order_size)) [
        | inl large ↦ rw large (λ h. reject_order-IsRefusal meta _ _ _)
        | inr small ↦ rw small (after_checks-IsRefusal meta (pre_trade core req meta))
      ]

after_resolution-IsRefusal :
    (env : Env) (core : OmsCore) (req : OrderRequest)
    → IsSoundCore core
    → IsPlaceable core req
    → (o : Resolved) → sends_order (after_resolution env core req o).1 ≡ false
    → IsRefusal core req (after_resolution env core req o)
unfolding after_resolution intern_source
after_resolution-IsRefusal env core req v ok (unresolved message) h =
    reject_order-IsRefusal env core req v ok _ _ message _
after_resolution-IsRefusal env core req v ok (resolved meta) h =
    let (interned, with_source) = intern_source core req meta in
    check_and_send-IsRefusal env interned req v
      (record { fresh = ok.fresh; price = ok.price; qty = ok.qty }) with_source h

-- In a sound core, a request with a fresh id whose order is not sent to a gateway changes no
-- reservation, no position and no balance. Either nothing happens at all, with no change of an
-- order, or one update with the execution message is published and the order is not open.
pub process_order-IsRefusal :
    (env : Env) (core : OmsCore) (req : OrderRequest)
    → IsSoundCore core
    → IsPlaceable core req
    → sends_order (process_order env core req).1 ≡ false
    → IsRefusal core req (process_order env core req)
unfolding process_order
process_order-IsRefusal env core req v ok =
    elim (Bool-cases (
      not (validate_order_request env.is_blank req)
      || contains req.account_id core.panic_accounts)) [
        | inl refuse ↦ rw refuse (λ h. (refl, refl, refl, inl (refl, refl)))
        | inr accept ↦
            rw accept
              (after_resolution-IsRefusal env core req v ok (resolve_order_meta core.metadata req))
      ]
