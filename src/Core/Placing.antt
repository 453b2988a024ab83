-- ===== src/Core/Placing.antt =====
-- `process_order` of oms_core_v2.rs: an order is validated, resolved, checked against the limits, the
-- balance or the position, and sent to its gateway, or it is rejected and closed.
use zkbot.Prelude.{
  ℕ, ℤ, pos, ◌*ℤ◌, ltb_ℤ, int_beq, ◌==◌, int_eq, string_eq, Bool, false, not, ◌&&◌, ◌||◌, Option,
  none, some, lookup, contains, List, [], ◌∷◌, if◌then◌else◌,
}
use zkbot.Intern.{InternTable, intern}
use zkbot.Orders.Types.{
  OrderRequest, ResolvedOrderMeta, OrderAccountingFlags, default_flags, LiveOrder, OrderDetailLog,
  Rejection, exec_placing_order,
}
use zkbot.Orders.Report.{apply_oms_error}
use zkbot.Orders.Store.{OrderStore, create_order, put_order, modify_live}
use zkbot.Orders.Closing.{mark_closed}
use zkbot.Reservation
use zkbot.Reservation.{ReservationStore, cash_asset, inventory_instrument, reserve, check_available}
use zkbot.Position
use zkbot.Position.{PositionStore, check_and_freeze}
use zkbot.Balance.{BalanceStore, get_balance}
use zkbot.Core.Types.{
  reserve_unit, Env, Message, exceeds_max_size, not_enough_balance, not_enough_position, OmsCore,
  OmsAction, send_order_to_gw, persist_order, publish_exec, internal_error, invalid_state, bs_buy,
}
use zkbot.Core.Requests.{
  validate_order_request, Resolved, resolve_order_meta, resolved, unresolved, build_gw_request,
}

-- A change of both parts of an order through `get_live_and_detail_mut(id).unwrap()`. Where the
-- source would panic, for want of the order, nothing changes; a well-formed store has both parts
-- of each order that the callers have looked up.
unfoldable pub update_order :
    (LiveOrder → OrderDetailLog → LiveOrder × OrderDetailLog) → ℤ → OrderStore → OrderStore
unfolding put_order
update_order f order_id s = elim (lookup order_id s.live) [
  | none ↦ s
  | some live ↦ elim (lookup order_id s.detail) [
    | none ↦ s
    | some detail ↦ put_order s order_id (f live detail).0 (f live detail).1
  ]
]

abbrev pub is_buy : OrderRequest → Bool
is_buy req = int_beq req.buy_sell_type bs_buy

-- The time of a request: its own under time emulation, else a reading of the clock.
abbrev pub time_of : OmsCore → ℤ → ℤ → ℤ
time_of core requested now = if core.use_time_emulation then requested else now

abbrev pub flags_of : OrderRequest → ResolvedOrderMeta → OrderAccountingFlags
flags_of req meta = record {
  bookkeeping_balance = meta.bookkeeping_balance;
  balance_check = meta.balance_check;
  use_margin = meta.use_margin;
  is_buy = is_buy req;
  fund_asset_id = meta.fund_asset_id;
  pos_instrument_id = meta.pos_instrument_id;
}

-- What stands for the resolution that failed.
abbrev pub stub_meta : ℤ → ResolvedOrderMeta
stub_meta account_id = record {
  account_id = account_id;
  gw_id = 0;
  instrument_id = 0;
  instrument_exch_sym = 0;
  exch_account_sym = 0;
  source_sym = 0;
  fund_asset_id = none;
  pos_instrument_id = none;
  bookkeeping_balance = false;
  balance_check = false;
  use_margin = false;
  max_order_size = none;
  qty_precision = pos 0;
  price_precision = pos 0;
}

-- The orders with the order of the request, created and rejected.
unfoldable pub rejected_orders :
    Env
    → OmsCore
    → OrderRequest
    → ResolvedOrderMeta
    → OrderAccountingFlags
    → Message
    → Rejection
    → OrderStore
unfolding update_order
rejected_orders env core req meta flags message rejection =
    let ts = time_of core req.timestamp (env.clock 0) in
    update_order (λ l d. apply_oms_error l d (env.text message) ts exec_placing_order rejection)
      req.order_id (create_order core.orders (env.clock 1) req.order_id req meta flags none)

-- The end of every check that fails: the order is created, rejected and closed, and published.
unfoldable pub reject_order :
    Env
    → OmsCore
    → OrderRequest
    → ResolvedOrderMeta
    → OrderAccountingFlags
    → Message
    → Rejection
    → OmsCore × List OmsAction
unfolding rejected_orders
reject_order env core req meta flags message rejection = (
  record core {
    orders = mark_closed (rejected_orders env core req meta flags message rejection) req.order_id;
  },
  publish_exec req.order_id ∷ [],
)

-- The strings with the source of the request, and its symbol; an empty source changes neither.
unfoldable pub source_sym_of : InternTable → OrderRequest → ℕ → InternTable × ℕ
source_sym_of strings req sym =
    if req.source_id == "" then (strings, sym) else intern strings req.source_id

unfoldable pub intern_source :
    OmsCore → OrderRequest → ResolvedOrderMeta → OmsCore × ResolvedOrderMeta
intern_source core req meta =
    let (strings, source_sym) = source_sym_of core.metadata.strings req meta.source_sym in
    (
      record core { metadata = record core.metadata { strings = strings } },
      record meta { source_sym = source_sym },
    )

-- Whether the order is larger than its instrument allows.
unfoldable pub is_oversized : ℤ → Option ℤ → Bool
is_oversized qty none = false
is_oversized qty (some max_size) = ltb_ℤ max_size qty

abbrev pub max_or_zero : Option ℤ → ℤ
max_or_zero none = pos 0
max_or_zero (some max_size) = max_size

-- The outcome of the checks of balance and position: the stores with what they hold for the order.
pub data PreTrade : Type 0 where
  passed : ReservationStore → PositionStore → PreTrade
  refused : Message → PreTrade

-- The balance that the exchange reports as available, in the unit of the reservation store.
unfoldable pub avail_value : BalanceStore → ℤ → ℕ → ℤ
avail_value balances account_id fund_id = elim (get_balance balances account_id fund_id) [
  | none ↦ pos 0
  | some b ↦ reserve_unit b.balance_state.avail_qty
]

abbrev pub cost_of : OrderRequest → ℤ
cost_of req = req.qty *ℤ req.price

-- The cash is reserved if the check let it through. The result of `reserve` is dropped.
unfoldable pub cash_held : OmsCore → OrderRequest → ℕ → Reservation.Result → PreTrade
cash_held core req fund_id (Reservation.err e) = refused not_enough_balance
cash_held core req fund_id Reservation.ok =
    passed
      (reserve core.reservations req.order_id req.account_id cash_asset fund_id (cost_of req)).0
      core.positions

unfoldable pub hold_cash : OmsCore → OrderRequest → Bool → Option ℕ → PreTrade
unfolding avail_value cash_held
hold_cash core req balance_check none = passed core.reservations core.positions
hold_cash core req balance_check (some fund_id) =
    if balance_check
    then cash_held core req fund_id (
        check_available core.reservations req.account_id fund_id (cost_of req)
          (avail_value core.balances req.account_id fund_id))
    else passed core.reservations core.positions

-- The position is reserved if it could be frozen. The result of `reserve` is dropped.
unfoldable pub position_held :
    OmsCore → OrderRequest → ℕ → PositionStore × Position.FreezeResult → PreTrade
position_held core req pos_id (froze, Position.not_enough_available) = refused not_enough_position
position_held core req pos_id (froze, Position.ok) =
    passed
      (reserve core.reservations req.order_id req.account_id inventory_instrument pos_id
        (reserve_unit req.qty)).0
      froze

-- A sell is taken from a long position.
unfoldable pub hold_position : OmsCore → OrderRequest → Option ℕ → PreTrade
unfolding position_held
hold_position core req none = passed core.reservations core.positions
hold_position core req (some pos_id) =
    position_held core req pos_id
      (check_and_freeze core.positions req.account_id pos_id req.qty false)

unfoldable pub pre_trade : OmsCore → OrderRequest → ResolvedOrderMeta → PreTrade
unfolding hold_cash hold_position
pre_trade core req meta =
    if meta.bookkeeping_balance && not meta.use_margin
    then if is_buy req
      then hold_cash core req meta.balance_check meta.fund_asset_id
      else hold_position core req meta.pos_instrument_id
    else passed core.reservations core.positions

-- An order that passed every check is created with the scaled price and quantity, and sent.
unfoldable pub send_order :
    Env
    → OmsCore
    → OrderRequest
    → ResolvedOrderMeta
    → ReservationStore
    → PositionStore
    → OmsCore × List OmsAction
unfolding modify_live
send_order env core req meta reservations positions =
    let ts = time_of core req.timestamp (env.clock 0) in
    let gw_req =
      build_gw_request core.metadata req meta (time_of core req.timestamp (env.clock 1)) in
    let created =
      create_order core.orders (env.clock 2) req.order_id req meta (flags_of req meta)
        (some gw_req) in
    (
      record core {
        orders = record created {
          live =
              modify_live (λ l. record l { price = gw_req.scaled_price; qty = gw_req.scaled_qty })
                req.order_id created.live;
        };
        reservations = reservations;
        positions = positions;
      },
      persist_order req.order_id false false ∷ send_order_to_gw meta.gw_id req.order_id ts ∷ [],
    )

-- The order after the checks of balance and position.
unfoldable pub after_checks :
    Env → OmsCore → OrderRequest → ResolvedOrderMeta → PreTrade → OmsCore × List OmsAction
after_checks env core req meta (refused message) =
    reject_order env core req meta (flags_of req meta) message invalid_state
after_checks env core req meta (passed reservations positions) =
    send_order env core req meta reservations positions

-- The checks from the risk limit on, for an order that is resolved.
unfoldable pub check_and_send :
    Env → OmsCore → OrderRequest → ResolvedOrderMeta → OmsCore × List OmsAction
unfolding is_oversized pre_trade after_checks
check_and_send env core req meta =
    if core.risk_check_enabled && is_oversized req.qty meta.max_order_size
    then reject_order env core req meta default_flags
        (exceeds_max_size req.qty (max_or_zero meta.max_order_size)) invalid_state
    else after_checks env core req meta (pre_trade core req meta)

-- The order after its resolution.
unfoldable pub after_resolution : Env → OmsCore → OrderRequest → Resolved → OmsCore × List OmsAction
unfolding intern_source check_and_send
after_resolution env core req (unresolved message) =
    reject_order env core req (stub_meta req.account_id) default_flags message internal_error
after_resolution env core req (resolved meta) =
    check_and_send env (intern_source core req meta).0 req (intern_source core req meta).1

unfoldable pub process_order : Env → OmsCore → OrderRequest → OmsCore × List OmsAction
unfolding after_resolution
process_order env core req =
    if not (validate_order_request env.is_blank req) || contains req.account_id core.panic_accounts
    then (core, [])
    else after_resolution env core req (resolve_order_meta core.metadata req)
