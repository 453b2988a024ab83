-- ===== src/Sim/Orders.antt =====
-- rust/crates/zk-sim-core/src/models.rs, with the protobuf messages that the simulator reads and
-- writes (the fields that it leaves at their default are left out).
-- Quantities and prices are f64 in the source and exact here, in units of 10^-9. A fresh UUID
-- (`next_id`) is an argument.
use zkbot.Prelude.{ℤ, Bool, String, List}

-- `ExchSendOrderRequest`
pub record OrderRequest : Type 0 where
  pub correlation_id : ℤ
  pub instrument : String
  pub buysell_type : ℤ
  pub scaled_price : ℤ
  pub scaled_qty : ℤ
  pub timestamp : ℤ

pub record SimOrder : Type 0 where
  pub req : OrderRequest
  pub exch_order_id : String
  pub filled_qty : ℤ
  pub remaining_qty : ℤ
  pub update_ts : ℤ

pub record MatchResult : Type 0 where
  pub trigger_ts : ℤ
  pub qty : ℤ
  pub price : ℤ
  pub delay_ms : ℤ
  pub ioc_cancel : Bool

pub record PriceLevel : Type 0 where
  pub price : ℤ
  pub qty : ℤ

pub record TickData : Type 0 where
  pub instrument_code : String
  pub original_timestamp : ℤ
  pub sell_price_levels : List PriceLevel
  pub buy_price_levels : List PriceLevel

pub data ExchangeOrderStatus : Type 0 where
  status_booked status_filled status_cancelled : ExchangeOrderStatus

-- An entry of an order report, by its kind.
pub data ReportEntry : Type 0 where
  rejected_entry : ReportEntry
  linkage_entry : ℤ → String → ReportEntry
  -- the trade id, the quantity, the price, the time, the instrument and the side
  trade_entry : String → ℤ → ℤ → ℤ → String → ℤ → ReportEntry
  -- the status, the filled and the unfilled quantity
  state_entry : ExchangeOrderStatus → ℤ → ℤ → ReportEntry

pub record OrderReport : Type 0 where
  pub order_id : ℤ
  pub exch_order_ref : String
  pub update_timestamp : ℤ
  pub order_report_entries : List ReportEntry

pub record SimResult : Type 0 where
  pub ts_ms : ℤ
  pub order_report : OrderReport
