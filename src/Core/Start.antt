-- ===== src/Core/Start.antt =====
-- `OmsCoreV2::init_state` and `convert_v1_order` of oms_core_v2.rs: the start from saved orders,
-- positions and balances, whose records (`OmsOrder`, `OmsManagedPosition`) are those of models.rs.
use zkbot.Prelude.{
  ℕ, ◌%◌, ◌-◌, u32_mod, ℤ, pos, negsuc, int_eq, nat_eq, pair_eq, string_eq, ◌==◌, Bool, Option,
  none, some, is_none, String, lookup, insert, unwrap_or, List, [], ◌∷◌, ◌&&◌, if◌then◌else◌,
}
use zkbot.Intern.{InternTable, intern, lookup_id}
use zkbot.Orders.Types.{
  OrderStatus, OrderRequest, SendOrderRequest, CancelOrderRequest, Trade, ExecMessage, Fee,
  LiveOrder, OrderDetailLog, default_flags, is_in_terminal_state,
}
use zkbot.Orders.Store.{init_order}
use zkbot.Position.{ReconcileStatus, ManagedPosition, PositionStore, position_key}
use zkbot.Balance.{ExchBalanceSnapshot, BalanceStore, set_balance, set_unknown_balance}
use zkbot.Metadata.{MetadataTables, and_then, resolve_instrument, route, asset_id_of}
use zkbot.Core.Types.{OmsCore}

-- What the conversion reads of the published order.
pub record SavedOrderState : Type 0 where
  pub gw_key : String
  pub instrument : String
  pub source_id : String
  pub order_status : OrderStatus
  pub buy_sell_type : ℤ
  pub open_close_type : ℤ
  pub price : ℤ
  pub qty : ℤ
  pub filled_qty : ℤ
  pub filled_avg_price : ℤ
  pub snapshot_version : ℤ
  pub created_at : ℤ
  pub updated_at : ℤ
  pub error_msg : String

pub record OmsOrder : Type 0 where
  pub is_from_external : Bool
  pub order_id : ℤ
  pub account_id : ℤ
  pub exch_order_ref : Option String
  pub oms_req : Option OrderRequest
  pub gw_req : Option SendOrderRequest
  pub cancel_req : Option CancelOrderRequest
  pub order_state : SavedOrderState
  pub trades : List Trade
  pub acc_trades_filled_qty : ℤ
  pub acc_trades_value : ℤ
  pub order_inferred_trades : List Trade
  pub exec_msgs : List ExecMessage
  pub fees : List Fee
  pub cancel_attempts : ℕ

pub record OmsManagedPosition : Type 0 where
  pub account_id : ℤ
  pub instrument_code : String
  pub symbol_exch : Option String
  pub instrument_type : ℤ
  pub is_short : Bool
  pub qty_total : ℤ
  pub qty_frozen : ℤ
  pub qty_available : ℤ
  pub last_local_update_ts : ℤ
  pub last_exch_sync_ts : ℤ
  pub reconcile_status : ReconcileStatus
  pub last_exch_qty : ℤ
  pub first_diverged_ts : ℤ
  pub divergence_count : ℕ

-- `as u32`
abbrev pub to_u32 : ℤ → ℕ
to_u32 (pos n) = n % u32_mod
to_u32 (negsuc n) = u32_mod - 1 - n % u32_mod

abbrev pub instrument_id_of : MetadataTables → String → ℕ
instrument_id_of m code = elim (resolve_instrument m code) [ none ↦ 0 | some i ↦ i.instrument_id ]

abbrev pub exch_account_sym_of : MetadataTables → ℤ → ℕ
exch_account_sym_of m account_id = elim (route m account_id) [
  | none ↦ 0
  | some r ↦ r.exch_account_sym
]

-- The symbol of the source, 0 for an empty one.
unfoldable pub saved_source_sym : InternTable → String → InternTable × ℕ
saved_source_sym strings source_id =
    if source_id == "" then (strings, 0) else intern strings source_id

unfoldable pub saved_ref_id : InternTable → Option String → InternTable × Option ℕ
saved_ref_id strings none = (strings, none)
saved_ref_id strings (some exch_ref) =
    let (strings1, id) = intern strings exch_ref in (strings1, some id)

-- An order that has ended gets the time of its last update as the time of its end.
unfoldable pub backfilled : LiveOrder → LiveOrder
backfilled live =
    if is_in_terminal_state live && is_none live.terminal_at
    then record live { terminal_at = some live.updated_at }
    else live

abbrev pub saved_live : MetadataTables → ℕ → Option ℕ → OmsOrder → LiveOrder
saved_live m source_sym exch_ref_id v1 = record {
  order_id = v1.order_id;
  account_id = v1.account_id;
  instrument_id = instrument_id_of m v1.order_state.instrument;
  gw_id =
      unwrap_or
        (and_then (lookup_id m.strings v1.order_state.gw_key) (λ sym. lookup sym m.gw_by_key)) 0;
  route_exch_account_sym = exch_account_sym_of m v1.account_id;
  source_sym = source_sym;
  order_status = v1.order_state.order_status;
  buy_sell_type = v1.order_state.buy_sell_type;
  open_close_type = v1.order_state.open_close_type;
  order_type = pos 0;
  tif_type = pos 0;
  price = v1.order_state.price;
  qty = v1.order_state.qty;
  filled_qty = v1.order_state.filled_qty;
  filled_avg_price = v1.order_state.filled_avg_price;
  acc_trades_filled_qty = v1.acc_trades_filled_qty;
  acc_trades_value = v1.acc_trades_value;
  exch_order_ref_id = exch_ref_id;
  snapshot_version = to_u32 v1.order_state.snapshot_version;
  created_at = v1.order_state.created_at;
  updated_at = v1.order_state.updated_at;
  is_external = v1.is_from_external;
  cancel_attempts = v1.cancel_attempts;
  accounting_flags = default_flags;
  error_msg = v1.order_state.error_msg;
  terminal_at = none;
}

abbrev pub saved_detail : OmsOrder → OrderDetailLog
saved_detail v1 = record {
  order_id = v1.order_id;
  original_req = v1.oms_req;
  last_gw_req = v1.gw_req;
  cancel_req = v1.cancel_req;
  trades = v1.trades;
  inferred_trades = v1.order_inferred_trades;
  exec_msgs = v1.exec_msgs;
  fees = v1.fees;
}

-- The core after the interning, with the order and its log.
unfoldable pub convert_v1_order : OmsCore → OmsOrder → OmsCore × (LiveOrder × OrderDetailLog)
unfolding saved_source_sym saved_ref_id backfilled
convert_v1_order core v1 =
    let (strings, source_sym) = saved_source_sym core.metadata.strings v1.order_state.source_id in
    let (dyn_strings, exch_ref_id) = saved_ref_id core.orders.dyn_strings v1.exch_order_ref in
    (
      record core {
        metadata = record core.metadata { strings = strings };
        orders = record core.orders { dyn_strings = dyn_strings };
      },
      (backfilled (saved_live core.metadata source_sym exch_ref_id v1), saved_detail v1),
    )

unfoldable pub init_orders : OmsCore → List OmsOrder → OmsCore
unfolding convert_v1_order
init_orders core [] = core
init_orders core (v1 ∷ orders) =
    let (interned, (live, detail)) = convert_v1_order core v1 in
    init_orders (record interned { orders = init_order interned.orders live detail }) orders

abbrev pub saved_position : ℕ → OmsManagedPosition → ManagedPosition
saved_position instrument_id p = record {
  account_id = p.account_id;
  instrument_id = instrument_id;
  instrument_type = p.instrument_type;
  is_short = p.is_short;
  qty_total = p.qty_total;
  qty_frozen = p.qty_frozen;
  qty_available = p.qty_available;
  last_local_update_ts = p.last_local_update_ts;
  last_exch_sync_ts = p.last_exch_sync_ts;
  reconcile_status = p.reconcile_status;
  last_exch_qty = p.last_exch_qty;
  first_diverged_ts = p.first_diverged_ts;
  divergence_count = p.divergence_count;
}

-- A position of an instrument that is not known is dropped.
unfoldable pub init_saved_position :
    MetadataTables → PositionStore → OmsManagedPosition → PositionStore
init_saved_position m s p = elim (resolve_instrument m p.instrument_code) [
  | none ↦ s
  | some i ↦ record s {
    managed =
        insert (position_key p.account_id i.instrument_id) (saved_position i.instrument_id p)
          s.managed;
  }
]

unfoldable pub init_saved_positions :
    MetadataTables → PositionStore → List OmsManagedPosition → PositionStore
unfolding init_saved_position
init_saved_positions m s [] = s
init_saved_positions m s (p ∷ ps) = init_saved_positions m (init_saved_position m s p) ps

unfoldable pub init_saved_balance :
    MetadataTables → BalanceStore → ExchBalanceSnapshot → BalanceStore
init_saved_balance m s snap = elim (asset_id_of m snap.asset) [
  | none ↦ set_unknown_balance s snap.account_id snap.asset snap
  | some asset_id ↦ set_balance s snap.account_id asset_id snap
]

unfoldable pub init_saved_balances :
    MetadataTables → BalanceStore → List ExchBalanceSnapshot → BalanceStore
unfolding init_saved_balance
init_saved_balances m s [] = s
init_saved_balances m s (snap ∷ snaps) = init_saved_balances m (init_saved_balance m s snap) snaps

unfoldable pub init_state :
    OmsCore → List OmsOrder → List OmsManagedPosition → List ExchBalanceSnapshot → OmsCore
unfolding init_orders init_saved_positions init_saved_balances
init_state core warm_orders positions balances =
    let started = init_orders core warm_orders in
    record started {
      positions = init_saved_positions started.metadata started.positions positions;
      balances = init_saved_balances started.metadata started.balances balances;
    }
