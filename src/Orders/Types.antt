-- ===== src/Orders/Types.antt =====
-- The records of models_v2.rs, and what order_store_v2.rs uses of the protobuf messages.
-- An i32 field that holds the code of a protobuf enum is the enum; the codes of enums that are only
-- copied stay numbers. Quantities and prices are integers in units of 10^-9, and their products
-- in units of 10^-18.
use zkbot.Prelude.{ℕ, ℤ, Bool, false, true, Option, none, String, List}

pub data OrderStatus : Type 0 where
  unspecified pending booked partially_filled filled cancelled rejected : OrderStatus

pub data ExchangeOrderStatus : Type 0 where
  exch_unspecified exch_booked exch_partial_filled exch_filled exch_cancelled exch_rejected
        exch_expired :
      ExchangeOrderStatus

pub data ExecType : Type 0 where
  exec_unspecified exec_cancel exec_placing_order : ExecType

pub record Rejection : Type 0 where
  pub source : ℤ
  pub recoverable : Bool
  pub reason : ℤ
  pub error_code : ℤ
  pub error_message : String

-- `format!("{}_{}", order_id, n)` is `pseudo order_id n`.
pub data TradeId : Type 0 where
  exch_trade_id : String → TradeId
  pseudo : ℤ → ℕ → TradeId

-- The protobuf field `fees` is left at its default by this code and is left out.
pub record Trade : Type 0 where
  pub order_id : ℤ
  pub ext_order_ref : String
  pub ext_trade_id : TradeId
  pub filled_qty : ℤ
  pub filled_price : ℤ
  pub filled_ts : ℤ
  pub buy_sell_type : ℤ
  pub instrument : String
  pub account_id : ℤ
  pub fill_type : ℤ
  pub exch_pnl : ℤ

pub record ExecMessage : Type 0 where
  pub order_id : ℤ
  pub timestamp : ℤ
  pub exec_type : ExecType
  pub exec_success : Bool
  pub error_msg : String
  pub rejection_info : Option Rejection

pub record Fee : Type 0 where
  pub order_id : ℤ
  pub fee_amount : ℤ
  pub fee_symbol : String
  pub fee_ts : ℤ
  pub fee_type : ℤ

-- `ExtraData`: keys and values that are passed on to the gateway unread.
abbrev pub ExtraData : Type 0
ExtraData = List (String × String)

-- The fields of an order request that the order manager reads.
pub record OrderRequest : Type 0 where
  pub order_id : ℤ
  pub account_id : ℤ
  pub instrument_code : String
  pub buy_sell_type : ℤ
  pub open_close_type : ℤ
  pub order_type : ℤ
  pub price : ℤ
  pub qty : ℤ
  pub source_id : String
  pub timestamp : ℤ
  pub time_inforce_type : ℤ
  pub extra_properties : Option ExtraData

pub record SendOrderRequest : Type 0 where
  pub correlation_id : ℤ
  pub exch_account_id : String
  pub instrument : String
  pub buysell_type : ℤ
  pub openclose_type : ℤ
  pub order_type : ℤ
  pub scaled_price : ℤ
  pub scaled_qty : ℤ
  pub timestamp : ℤ
  pub time_inforce_type : ℤ
  pub exch_specific_params : Option ExtraData

pub record CancelOrderRequest : Type 0 where
  pub order_id : ℤ
  pub exch_order_ref : String
  pub timestamp : ℤ

pub record OrderAccountingFlags : Type 0 where
  pub bookkeeping_balance : Bool
  pub balance_check : Bool
  pub use_margin : Bool
  pub is_buy : Bool
  pub fund_asset_id : Option ℕ
  pub pos_instrument_id : Option ℕ

-- `OrderAccountingFlags::default()`
abbrev pub default_flags : OrderAccountingFlags
default_flags = record {
  bookkeeping_balance = false;
  balance_check = false;
  use_margin = false;
  is_buy = false;
  fund_asset_id = none;
  pos_instrument_id = none;
}

pub record LiveOrder : Type 0 where
  pub order_id : ℤ
  pub account_id : ℤ
  pub instrument_id : ℕ
  pub gw_id : ℕ
  pub route_exch_account_sym : ℕ
  pub source_sym : ℕ
  pub order_status : OrderStatus
  pub buy_sell_type : ℤ
  pub open_close_type : ℤ
  pub order_type : ℤ
  pub tif_type : ℤ
  pub price : ℤ
  pub qty : ℤ
  pub filled_qty : ℤ
  pub filled_avg_price : ℤ
  pub acc_trades_filled_qty : ℤ
  pub acc_trades_value : ℤ
  pub exch_order_ref_id : Option ℕ
  pub snapshot_version : ℕ
  pub created_at : ℤ
  pub updated_at : ℤ
  pub is_external : Bool
  pub cancel_attempts : ℕ
  pub accounting_flags : OrderAccountingFlags
  pub error_msg : String
  pub terminal_at : Option ℤ

abbrev pub is_terminal : OrderStatus → Bool
is_terminal filled = true
is_terminal cancelled = true
is_terminal rejected = true
is_terminal _ = false

abbrev pub is_in_terminal_state : LiveOrder → Bool
is_in_terminal_state l = is_terminal l.order_status

pub record OrderDetailLog : Type 0 where
  pub order_id : ℤ
  pub original_req : Option OrderRequest
  pub last_gw_req : Option SendOrderRequest
  pub cancel_req : Option CancelOrderRequest
  pub trades : List Trade
  pub inferred_trades : List Trade
  pub exec_msgs : List ExecMessage
  pub fees : List Fee

pub record ResolvedOrderMeta : Type 0 where
  pub account_id : ℤ
  pub gw_id : ℕ
  pub instrument_id : ℕ
  pub instrument_exch_sym : ℕ
  pub exch_account_sym : ℕ
  pub source_sym : ℕ
  pub fund_asset_id : Option ℕ
  pub pos_instrument_id : Option ℕ
  pub bookkeeping_balance : Bool
  pub balance_check : Bool
  pub use_margin : Bool
  pub max_order_size : Option ℤ
  pub qty_precision : ℤ
  pub price_precision : ℤ
