-- ===== src/Core/Requests.antt =====
-- What a request passes before it reaches the stores: rust/crates/zk-oms-rs/src/validation.rs, the
-- resolution of an order to its route and instrument, and the request that the gateway gets.
use zkbot.Prelude.{
  ℕ, ◌+◌, ◌-◌, ◌*◌, ◌/◌, ◌^◌, ℤ, pos, negsuc, pos_part, neg_ℤ, ltb_ℤ, int_beq, Bool, true, false,
  not, ◌&&◌, Option, none, some, String, unwrap_or, if◌then◌else◌,
}
use zkbot.Orders.Types.{OrderRequest, SendOrderRequest, ResolvedOrderMeta}
use zkbot.Metadata.{
  MetadataTables, InstrumentMeta, RouteMeta, TradingMeta, route, resolve_instrument, trading,
  str_resolve,
}
use zkbot.Core.Types.{
  Message, no_route, unknown_instrument, OrderCancelRequest, spot_instrument_type,
}

-- The order of the checks does not matter, since no caller reads the text of the error. Every
-- quantity and price here is finite.
unfoldable pub validate_order_request : (String → Bool) → OrderRequest → Bool
validate_order_request is_blank req =
    ltb_ℤ (pos 0) req.order_id
    && (ltb_ℤ (pos 0) req.account_id
        && (not (is_blank req.instrument_code) && ltb_ℤ (pos 0) req.qty))

unfoldable pub validate_cancel_request : OrderCancelRequest → Bool
validate_cancel_request req = ltb_ℤ (pos 0) req.order_id

-- `default_trading_meta()`; the ratio 1.0 in units of 10^-9.
abbrev pub default_trading_meta : TradingMeta
default_trading_meta = record {
  instrument_id = 0;
  bookkeeping_balance = false;
  balance_check = false;
  use_margin = false;
  margin_ratio = pos 1000000000;
  max_order_size = none;
  publish_balance_on_trade = true;
  publish_balance_on_book = false;
  publish_balance_on_cancel = false;
}

pub data Resolved : Type 0 where
  resolved : ResolvedOrderMeta → Resolved
  unresolved : Message → Resolved

-- `settlement_asset_id.or(quote_asset_id)`
abbrev pub or_else : Option ℕ → Option ℕ → Option ℕ
or_else (some x) o = some x
or_else none o = o

unfoldable pub fund_of : InstrumentMeta → Option ℕ
fund_of i =
    if int_beq i.instrument_type spot_instrument_type
    then i.quote_asset_id
    else or_else i.settlement_asset_id i.quote_asset_id

unfoldable pub position_of : InstrumentMeta → Option ℕ
position_of i =
    if int_beq i.instrument_type spot_instrument_type
    then i.base_asset_sym
    else some i.instrument_code_sym

unfoldable pub resolved_meta :
    OrderRequest → RouteMeta → InstrumentMeta → TradingMeta → ResolvedOrderMeta
resolved_meta req r i tc = record {
  account_id = req.account_id;
  gw_id = r.gw_id;
  instrument_id = i.instrument_id;
  instrument_exch_sym = i.instrument_exch_sym;
  exch_account_sym = r.exch_account_sym;
  source_sym = 0;
  fund_asset_id = fund_of i;
  pos_instrument_id = position_of i;
  bookkeeping_balance = tc.bookkeeping_balance;
  balance_check = tc.balance_check;
  use_margin = tc.use_margin;
  max_order_size = tc.max_order_size;
  qty_precision = i.qty_precision;
  price_precision = i.price_precision;
}

unfoldable pub resolve_order_meta : MetadataTables → OrderRequest → Resolved
resolve_order_meta m req = elim (route m req.account_id) [
  | none ↦ unresolved (no_route req.account_id)
  | some r ↦ elim (resolve_instrument m req.instrument_code) [
    | none ↦ unresolved (unknown_instrument req.instrument_code)
    | some i ↦
        resolved
          (resolved_meta req r i (unwrap_or (trading m i.instrument_id) default_trading_meta))
  ]
]

-- `round_to_precision` of utils.rs, for a positive precision: the floor to a multiple of
-- 10^-precision. From nine decimal places on nothing is cut.
unfoldable pub floor_to : ℕ → ℤ → ℤ
floor_to unit (pos n) = pos (n / unit * unit)
floor_to unit (negsuc n) = neg_ℤ (pos ((n / unit + 1) * unit))

unfoldable pub round_to_precision : ℤ → ℕ → ℤ
round_to_precision val precision = floor_to (10 ^ (9 - precision)) val

-- The rounding is skipped for a precision that is not positive.
unfoldable pub scaled : ℤ → ℤ → ℤ
scaled precision val =
    if ltb_ℤ (pos 0) precision then round_to_precision val (pos_part precision) else val

-- `ts` is the time of the request or the clock's, as the core's caller chooses it.
unfoldable pub build_gw_request :
    MetadataTables → OrderRequest → ResolvedOrderMeta → ℤ → SendOrderRequest
build_gw_request m req meta ts = record {
  correlation_id = req.order_id;
  exch_account_id = str_resolve m meta.exch_account_sym;
  instrument = str_resolve m meta.instrument_exch_sym;
  buysell_type = req.buy_sell_type;
  openclose_type = req.open_close_type;
  order_type = req.order_type;
  scaled_price = scaled meta.price_precision req.price;
  scaled_qty = scaled meta.qty_precision req.qty;
  timestamp = ts;
  time_inforce_type = req.time_inforce_type;
  exch_specific_params = req.extra_properties;
}
