-- ===== src/Core/PlacingKeeps.antt =====
-- Placing an order keeps the orders and the holds sound.
use zkbot.Prelude.{
  ℕ, ℤ, pos, negsuc, ◌≤ℤ◌, *ℤ-nonneg, ltb_ℤ, int_eq, string_eq, ◌≡◌, refl, inl, inr, Bool, true,
  String, false, not, ◌&&◌, ◌||◌, Option, none, some, contains, contains-set_insert, Bool-cases,
  ==_refl, arith,
}
use zkbot.Orders.Types.{
  LiveOrder, OrderDetailLog, OrderRequest, ResolvedOrderMeta, OrderAccountingFlags, Rejection,
  SendOrderRequest, ExecType,
}
use zkbot.Orders.Report.{apply_oms_error, is_placing}
use zkbot.Orders.Store.{OrderStore, create_order, open_order, put_order}
use zkbot.Orders.Invariant.{IsFresh}
use zkbot.Reservation
use zkbot.Reservation.{
  ReservationStore, ReserveKind, reserve, cash_asset, inventory_instrument, check_available,
}
use zkbot.Position
use zkbot.Position.{PositionStore, check_and_freeze}
use zkbot.Core.Types.{reserve_unit, Env, Message, OmsCore}
use zkbot.Core.Requests.{
  Resolved, resolved, unresolved, scaled, round_to_precision, floor_to, validate_order_request,
  build_gw_request,
}
use zkbot.Core.Placing.{
  PreTrade, passed, refused, cash_held, position_held, cost_of, flags_of, time_of, is_oversized,
  rejected_orders, reject_order, intern_source, hold_cash, hold_position, pre_trade, send_order,
  after_checks, check_and_send, after_resolution, process_order, is_buy,
}
use zkbot.Core.Edits.{IsSameOrder, refl-IsSameOrder, update_order-IsEdit, modify_live-IsEdit}
use zkbot.Core.Sound.{
  IsSound, edit-IsSound, create-IsSound, close-IsSound, reserve-IsSound, fresh_unheld,
}

pub apply_oms_error-IsSameOrder :
    (l : LiveOrder) (d : OrderDetailLog) (message : String) (ts : ℤ) (kind : ExecType)
    (rejection : Rejection)
    → IsSameOrder l (apply_oms_error l d message ts kind rejection).0
unfolding apply_oms_error
apply_oms_error-IsSameOrder l d message ts kind rejection = elim (Bool-cases (is_placing kind)) [
  | inl e ↦ rw e (record { same_id = refl; same_account = refl; same_price = λ h. h })
  | inr e ↦ rw e (refl-IsSameOrder l)
]

abbrev pub IsSoundCore : OmsCore → Type 0
IsSoundCore core = IsSound core.orders core.reservations

-- An order that the core can place soundly: the id is fresh, and the price and the quantity are not
-- negative.
pub record IsPlaceable (core : OmsCore) (req : OrderRequest) : Type 0 where
  pub fresh : IsFresh core.orders req.order_id
  pub price : pos 0 ≤ℤ req.price
  pub qty : pos 0 ≤ℤ req.qty

pub rejected_orders-IsSound :
    (env : Env) (core : OmsCore) (req : OrderRequest) (meta : ResolvedOrderMeta)
    (flags : OrderAccountingFlags) (message : Message) (rejection : Rejection)
    → IsSoundCore core
    → IsPlaceable core req
    → IsSound (rejected_orders env core req meta flags message rejection) core.reservations
unfolding rejected_orders
rejected_orders-IsSound env core req meta flags message rejection v ok =
    let id = req.order_id in
    let created = create_order core.orders (env.clock 1) id req meta flags none in
    edit-IsSound created _ core.reservations
      (update_order-IsEdit _ id created (λ l d. apply_oms_error-IsSameOrder l d _ _ _ _))
      (create-IsSound core.orders core.reservations v (env.clock 1) id req meta flags none ok.fresh
        ok.price)

reject_order-IsSound :
    (env : Env) (core : OmsCore) (req : OrderRequest) (meta : ResolvedOrderMeta)
    (flags : OrderAccountingFlags) (message : Message) (rejection : Rejection)
    → IsSoundCore core
    → IsPlaceable core req
    → IsSoundCore (reject_order env core req meta flags message rejection).0
unfolding reject_order
reject_order-IsSound env core req meta flags message rejection v ok =
    close-IsSound _ core.reservations
      (rejected_orders-IsSound env core req meta flags message rejection v ok) req.order_id
      (fresh_unheld core.orders core.reservations req.order_id v ok.fresh)

-- What holds of the reservations of an order that passed its checks.
abbrev pub AllPassed : (ReservationStore → Type 0) → PreTrade → Type 0
AllPassed Holds (passed r p) = Holds r
AllPassed Holds (refused message) = Unit

-- What holds of the reservations as they were, and after any hold for the order, holds after the
-- checks.
module _ (core : OmsCore) (req : OrderRequest) (Holds : ReservationStore → Type 0)
    (as_before : Holds core.reservations)
    (with_hold : (kind : ReserveKind) (target_id : ℕ) (qty : ℤ)
      → pos 0 ≤ℤ qty
      → Holds (reserve core.reservations req.order_id req.account_id kind target_id qty).0)
    (price : pos 0 ≤ℤ req.price) (qty : pos 0 ≤ℤ req.qty) where
  cash_held-All :
      (fund_id : ℕ) (result : Reservation.Result)
      → AllPassed Holds (cash_held core req fund_id result)
  unfolding cash_held
  cash_held-All fund_id (Reservation.err e) = tt
  cash_held-All fund_id Reservation.ok =
      with_hold cash_asset fund_id (cost_of req) (*ℤ-nonneg req.qty req.price qty price)

  hold_cash-All :
      (balance_check : Bool) (fund : Option ℕ)
      → AllPassed Holds (hold_cash core req balance_check fund)
  unfolding hold_cash
  hold_cash-All check none = as_before
  hold_cash-All false (some fund_id) = as_before
  hold_cash-All true (some fund_id) = cash_held-All fund_id _

  position_held-All :
      (pos_id : ℕ) (froze : PositionStore × Position.FreezeResult)
      → AllPassed Holds (position_held core req pos_id froze)
  unfolding position_held
  position_held-All pos_id (p, Position.not_enough_available) = tt
  position_held-All pos_id (p, Position.ok) =
      with_hold inventory_instrument pos_id (reserve_unit req.qty)
        (*ℤ-nonneg req.qty (pos 1000000000) qty (omega arith))

  hold_position-All : (position : Option ℕ) → AllPassed Holds (hold_position core req position)
  unfolding hold_position
  hold_position-All none = as_before
  hold_position-All (some pos_id) = position_held-All pos_id _

  pub pre_trade-All : (meta : ResolvedOrderMeta) → AllPassed Holds (pre_trade core req meta)
  unfolding pre_trade
  pre_trade-All meta = elim (Bool-cases (meta.bookkeeping_balance && not meta.use_margin)) [
    | inr off ↦ rw off as_before
    | inl on ↦ elim (Bool-cases (is_buy req)) [
      | inl buy ↦ rw (on, buy) (hold_cash-All meta.balance_check meta.fund_asset_id)
      | inr sell ↦ rw (on, sell) (hold_position-All meta.pos_instrument_id)
    ]
  ]

scaled-nonneg : (precision val : ℤ) → pos 0 ≤ℤ val → pos 0 ≤ℤ scaled precision val
unfolding scaled round_to_precision floor_to
scaled-nonneg precision (negsuc n) h = omega arith
scaled-nonneg precision (pos n) h = elim (Bool-cases (ltb_ℤ (pos 0) precision)) [
  | inl e ↦ rw e (omega arith)
  | inr e ↦ rw e (omega arith)
]

create_order-opens :
    (s : OrderStore) (now : ℤ) (req : OrderRequest) (meta : ResolvedOrderMeta)
    (flags : OrderAccountingFlags) (gw_req : Option SendOrderRequest)
    → contains req.order_id (create_order s now req.order_id req meta flags gw_req).open_order_ids
      ≡ true
unfolding create_order open_order put_order
create_order-opens s now req meta flags gw_req =
    ground
      (arith, contains-set_insert req.order_id req.order_id s.open_order_ids, ==_refl req.order_id)

module _ (env : Env) (core : OmsCore) (req : OrderRequest) (v : IsSoundCore core)
    (ok : IsPlaceable core req) where
  after_checks-IsSound :
      (meta : ResolvedOrderMeta) (o : PreTrade)
      → ((t : OrderStore)
          → IsSound t core.reservations
          → contains req.order_id t.open_order_ids ≡ true
          → AllPassed (IsSound t) o)
      → IsSoundCore (after_checks env core req meta o).0
  unfolding after_checks send_order scaled build_gw_request
  after_checks-IsSound meta (refused message) h =
      reject_order-IsSound env core req meta _ message _ v ok
  after_checks-IsSound meta (passed r p) h =
      let created =
        create_order core.orders (env.clock 2) req.order_id req meta (flags_of req meta) (
          some
            (build_gw_request core.metadata req meta (time_of core req.timestamp (env.clock 1)))) in
      let sound =
        create-IsSound core.orders core.reservations v (env.clock 2) req.order_id req meta
          (flags_of req meta) _ ok.fresh ok.price in
      edit-IsSound created _ r
        (modify_live-IsEdit _ req.order_id created (λ l. record {
          same_id = refl;
          same_account = refl;
          same_price = λ _. scaled-nonneg meta.price_precision req.price ok.price;
        }))
        (h created sound (create_order-opens core.orders (env.clock 2) req meta _ _))

  check_and_send-IsSound :
      (meta : ResolvedOrderMeta) → IsSoundCore (check_and_send env core req meta).0
  unfolding check_and_send
  check_and_send-IsSound meta =
      elim (Bool-cases (core.risk_check_enabled && is_oversized req.qty meta.max_order_size)) [
        | inl large ↦ rw large (reject_order-IsSound env core req meta _ _ _ v ok)
        | inr small ↦ rw small (
            after_checks-IsSound meta (pre_trade core req meta) (λ t u opened.
              pre_trade-All core req (IsSound t) u
                (λ kind target qty h.
                  reserve-IsSound t core.reservations u req.order_id req.account_id kind target qty
                    opened h)
                ok.price ok.qty meta))
      ]

after_resolution-IsSound :
    (env : Env) (core : OmsCore) (req : OrderRequest)
    → IsSoundCore core
    → IsPlaceable core req
    → (o : Resolved) → IsSoundCore (after_resolution env core req o).0
unfolding after_resolution intern_source
after_resolution-IsSound env core req v ok (unresolved message) =
    reject_order-IsSound env core req _ _ message _ v ok
after_resolution-IsSound env core req v ok (resolved meta) =
    let (interned, with_source) = intern_source core req meta in
    check_and_send-IsSound env interned req v
      (record { fresh = ok.fresh; price = ok.price; qty = ok.qty }) with_source

pub process_order-IsSound :
    (env : Env) (core : OmsCore) (req : OrderRequest)
    → IsSoundCore core
    → IsPlaceable core req
    → IsSoundCore (process_order env core req).0
unfolding process_order
process_order-IsSound env core req v ok =
    elim (Bool-cases (
      not (validate_order_request env.is_blank req)
      || contains req.account_id core.panic_accounts)) [
        | inl refuse ↦ rw refuse v
        | inr accept ↦ rw accept (after_resolution-IsSound env core req v ok _)
      ]
