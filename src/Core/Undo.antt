-- ===== src/Core/Undo.antt =====
-- An order whose gateway could not send it gives back what was held for it.
use zkbot.Prelude.{
  ℕ, ℤ, int_eq, nat_eq, pair_eq, ◌≡◌, refl, inl, inr, true, not, ◌&&◌, ◌||◌, none, some, String,
  lookup, contains, lookup-insert_self, Bool-cases, if◌then◌else◌, arith,
}
use zkbot.Orders.Types.{LiveOrder, OrderRequest, ResolvedOrderMeta}
use zkbot.Orders.Store.{create_order, open_order, put_order, modify_live, new_live}
use zkbot.Reservation
use zkbot.Reservation.{ReservationStore, ReserveKind, reserve, release, total_reserved}
use zkbot.Reservation.Effects.{release-reserve}
use zkbot.Position.{PositionStore}
use zkbot.Core.Types.{Env, OmsCore}
use zkbot.Core.Requests.{
  Resolved, resolved, unresolved, scaled, build_gw_request, resolve_order_meta,
  validate_order_request,
}
use zkbot.Core.Placing.{
  PreTrade, passed, refused, flags_of, pre_trade, is_oversized, reject_order, send_order,
  after_checks, intern_source, check_and_send, after_resolution, process_order,
}
use zkbot.Core.Failures.{fail_placing, process_gateway_send_failed}
use zkbot.Core.Sound.{fresh_unheld}
use zkbot.Core.PlacingKeeps.{IsSoundCore, IsPlaceable, AllPassed, pre_trade-All}
use zkbot.Core.Accepts.{sends_order}

-- Every total is what it was.
abbrev pub SameTotals : ReservationStore → ReservationStore → Type 0
SameTotals r s =
    (account_id : ℤ) (target_id : ℕ)
    → total_reserved s account_id target_id ≡ total_reserved r account_id target_id

release_unheld :
    (r : ReservationStore) (id : ℤ) → lookup id r.reservations ≡ none → release r id ≡ r
unfolding release
release_unheld r id e = rw (e, release) refl

reserve_fresh :
    (r : ReservationStore) (id account_id : ℤ) (kind : ReserveKind) (target_id : ℕ) (qty : ℤ)
    → lookup id r.reservations ≡ none
    → (reserve r id account_id kind target_id qty).1 ≡ Reservation.ok
unfolding reserve
reserve_fresh r id account_id kind target_id qty e = rw (e, reserve) refl

-- The order as it is sent: with the scaled price and quantity.
abbrev pub sent_order : Env → OmsCore → OrderRequest → ResolvedOrderMeta → LiveOrder
sent_order env core req meta =
    let ts = if core.orders.use_time_emulation then req.timestamp else env.clock 2 in
    record (new_live req.order_id req meta (flags_of req meta) ts) {
      price = scaled meta.price_precision req.price;
      qty = scaled meta.qty_precision req.qty;
    }

pub send_order_live :
    (env : Env) (core : OmsCore) (req : OrderRequest) (meta : ResolvedOrderMeta)
    (r : ReservationStore) (p : PositionStore)
    → lookup req.order_id (send_order env core req meta r p).0.orders.live
      ≡ some (sent_order env core req meta)
unfolding send_order create_order open_order put_order modify_live build_gw_request
send_order_live env core req meta r p =
    let ts = if core.orders.use_time_emulation then req.timestamp else env.clock 2 in
    let created = new_live req.order_id req meta (flags_of req meta) ts in
    rw (lookup-insert_self req.order_id created core.orders.live, modify_live)
      (lookup-insert_self req.order_id (sent_order env core req meta) _)

send_order_reservations :
    (env : Env) (core : OmsCore) (req : OrderRequest) (meta : ResolvedOrderMeta)
    (r : ReservationStore) (p : PositionStore)
    → (send_order env core req meta r p).0.reservations ≡ r
unfolding send_order
send_order_reservations env core req meta r p = refl

module _ (env late : Env) (core : OmsCore) (req : OrderRequest) (error_msg : String) where
  after_checks-undone :
      (meta : ResolvedOrderMeta) (o : PreTrade)
      → AllPassed (λ r. SameTotals core.reservations (release r req.order_id)) o
      → sends_order (after_checks env core req meta o).1 ≡ true
      → SameTotals core.reservations
          (process_gateway_send_failed late
            (after_checks env core req meta o).0
            req.order_id
            error_msg).0.reservations
  unfolding after_checks reject_order process_gateway_send_failed fail_placing
  after_checks-undone meta (refused message) h sent = ground arith
  after_checks-undone meta (passed r p) h sent =
      rw
        (
          send_order_live env core req meta r p,
          process_gateway_send_failed,
          send_order_reservations env core req meta r p,
        )
        h

  check_and_send-undone :
      (meta : ResolvedOrderMeta)
      → AllPassed
          (λ r. SameTotals core.reservations (release r req.order_id))
          (pre_trade core req meta)
      → sends_order (check_and_send env core req meta).1 ≡ true
      → SameTotals core.reservations
          (process_gateway_send_failed late
            (check_and_send env core req meta).0
            req.order_id
            error_msg).0.reservations
  unfolding check_and_send reject_order
  check_and_send-undone meta h =
      elim (Bool-cases (core.risk_check_enabled && is_oversized req.qty meta.max_order_size)) [
        | inl large ↦ rw large (λ sent. ground arith)
        | inr small ↦ rw small (after_checks-undone meta (pre_trade core req meta) h)
      ]

  released_same :
      IsSoundCore core
      → IsPlaceable core req
      → (meta : ResolvedOrderMeta)
      → AllPassed
          (λ r. SameTotals core.reservations (release r req.order_id))
          (pre_trade core req meta)
  released_same v ok =
      let id = req.order_id in
      let r = core.reservations in
      let free = fresh_unheld core.orders r id v ok.fresh in
      pre_trade-All core req (λ r'. SameTotals r (release r' id))
        (rw (release_unheld r id free) (λ a t. refl))
        (λ kind target qty h a t.
          ((release-reserve r id req.account_id kind target qty v.consistent h
              (reserve_fresh r id req.account_id kind target qty free)).0
            a t).1)
        ok.price ok.qty

after_resolution-undone :
    (env late : Env) (core : OmsCore) (req : OrderRequest) (error_msg : String)
    → IsSoundCore core
    → IsPlaceable core req
    → (o : Resolved) → sends_order (after_resolution env core req o).1 ≡ true
    → SameTotals core.reservations
        (process_gateway_send_failed late
          (after_resolution env core req o).0
          req.order_id
          error_msg).0.reservations
unfolding after_resolution intern_source reject_order
after_resolution-undone env late core req error_msg v ok (unresolved message) sent = ground arith
after_resolution-undone env late core req error_msg v ok (resolved meta) sent =
    let (interned, with_source) = intern_source core req meta in
    check_and_send-undone env late interned req error_msg with_source
      (released_same env late interned req error_msg v
        (record { fresh = ok.fresh; price = ok.price; qty = ok.qty }) with_source)
      sent

-- In a sound core, when an order with a fresh id was sent to its gateway and the gateway reports
-- that it could not send it, every total of the reservations is what it was before the order.
pub send_failed-process_order :
    (env late : Env) (core : OmsCore) (req : OrderRequest) (error_msg : String)
    → IsSoundCore core
    → IsPlaceable core req
    → sends_order (process_order env core req).1 ≡ true
    → let failed =
        process_gateway_send_failed late (process_order env core req).0 req.order_id error_msg in
      (account_id : ℤ) (target_id : ℕ)
      → total_reserved failed.0.reservations account_id target_id
        ≡ total_reserved core.reservations account_id target_id
unfolding process_order
send_failed-process_order env late core req error_msg v ok =
    elim (Bool-cases (
      not (validate_order_request env.is_blank req)
      || contains req.account_id core.panic_accounts)) [
        | inl refuse ↦ rw refuse (λ sent. ground arith)
        | inr accept ↦ rw accept (
            after_resolution-undone env late core req error_msg v ok
              (resolve_order_meta core.metadata req))
      ]
