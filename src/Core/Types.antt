-- ===== src/Core/Types.antt =====
-- `OmsCoreV2`, its messages (models.rs, `OmsMessage`) and its actions (models_v2.rs, `OmsActionV2`).
-- `retry_state`, which the core never reads or writes, is left out.
use zkbot.Prelude.{ℕ, ℤ, pos, ◌*ℤ◌, Bool, true, false, String, HashMap, HashSet, List}
use zkbot.Metadata.{MetadataTables}
use zkbot.Balance.{BalanceStore}
use zkbot.Orders.Types.{OrderRequest, Rejection}
use zkbot.Orders.Store.{OrderStore}
use zkbot.Orders.Entries.{ReportEntry}
use zkbot.Reservation.{ReservationStore}
use zkbot.Position.{PositionStore}

-- The core calls the reservation store in units of 10^-18, that of a price times a quantity: cash and
-- inventory share its totals, so that a quantity, which counts 10^-9, is brought to that unit.
abbrev pub reserve_unit : ℤ → ℤ
reserve_unit qty = qty *ℤ pos 1000000000

-- The messages that `format!` makes, by the data in them.
pub data Message : Type 0 where
  no_route : ℤ → Message
  unknown_instrument : String → Message
  exceeds_max_size : ℤ → ℤ → Message
  not_enough_balance not_enough_position cannot_cancel_terminal gateway_rejected : Message
  send_failed cancel_send_failed external_source : String → Message
  gateway_error : ℤ → String → Message

-- What the core takes from outside: the readings of the clock (`gen_timestamp_ms`) while it handles
-- one message, the next number of the id counter (`gen_order_id`), the text of a message, the
-- quotient of two f64, and whether a string is empty once it is trimmed.
pub record Env : Type 0 where
  pub clock : ℕ → ℤ
  pub next_order_id : ℤ
  pub text : Message → String
  pub div : ℤ → ℤ → ℤ
  pub is_blank : String → Bool

pub record OrderCancelRequest : Type 0 where
  pub order_id : ℤ
  pub timestamp : ℤ

-- `exchange` is the key of the gateway.
pub record OrderReport : Type 0 where
  pub exch_order_ref : String
  pub order_id : ℤ
  pub exchange : String
  pub order_report_entries : List ReportEntry
  pub account_id : ℤ
  pub update_timestamp : ℤ

-- An entry of a balance update.
pub record PositionReport : Type 0 where
  pub instrument_code : String
  pub instrument_type : ℤ
  pub long_short_type : ℤ
  pub exch_account_code : String
  pub qty : ℤ
  pub avail_qty : ℤ
  pub update_timestamp : ℤ
  pub message_raw : String

pub data OmsMessage : Type 0 where
  place_order : OrderRequest → OmsMessage
  batch_place_orders : List OrderRequest → OmsMessage
  cancel_order : OrderCancelRequest → OmsMessage
  batch_cancel_orders : List OrderCancelRequest → OmsMessage
  gateway_order_report : OrderReport → OmsMessage
  balance_update : List PositionReport → OmsMessage
  panic dont_panic : ℤ → OmsMessage
  cleanup : ℤ → OmsMessage
  reload_config position_recheck : OmsMessage
  recheck_order recheck_cancel : OmsMessage
  -- order_id, gw_id, error_msg
  gateway_send_failed gateway_cancel_send_failed : ℤ → ℕ → String → OmsMessage

pub record UpdateParts : Type 0 where
  pub include_last_trade : Bool
  pub include_last_fee : Bool
  pub include_exec_message : Bool
  pub include_inferred_trade : Bool

-- The two batch actions of the source, which the core never makes, are left out.
pub data OmsAction : Type 0 where
  -- gw_id, order_id, order_created_at
  send_order_to_gw : ℕ → ℤ → ℤ → OmsAction
  -- gw_id, order_id
  send_cancel_to_gw : ℕ → ℤ → OmsAction
  publish_order_update : ℤ → UpdateParts → OmsAction
  publish_balance_update publish_position_update : ℤ → OmsAction
  -- order_id, set_expire, set_closed
  persist_order : ℤ → Bool → Bool → OmsAction
  -- account_id and the id of the asset or the instrument
  persist_balance persist_position : ℤ → ℕ → OmsAction

pub record OmsCore : Type 0 where
  pub metadata : MetadataTables
  pub orders : OrderStore
  pub reservations : ReservationStore
  pub positions : PositionStore
  pub balances : BalanceStore
  pub pending_reports : HashMap (ℕ × ℕ) (List OrderReport)
  pub panic_accounts : HashSet ℤ
  pub use_time_emulation : Bool
  pub risk_check_enabled : Bool
  pub handle_external_orders : Bool

-- `Rejection { source: OmsReject, reason, ..Default::default() }`
abbrev pub oms_reject : ℤ → Rejection
oms_reject reason = record {
  source = pos 3;
  recoverable = false;
  reason = reason;
  error_code = pos 0;
  error_message = "";
}

-- REJ_REASON_OMS_INTERNAL_ERROR
abbrev pub internal_error : Rejection
internal_error = oms_reject (pos 3)

-- REJ_REASON_OMS_INVALID_STATE
abbrev pub invalid_state : Rejection
invalid_state = oms_reject (pos 8)

-- An order update with the last execution message and nothing else.
abbrev pub publish_exec : ℤ → OmsAction
publish_exec order_id = publish_order_update order_id (record {
  include_last_trade = false;
  include_last_fee = false;
  include_exec_message = true;
  include_inferred_trade = false;
})

-- BS_BUY
abbrev pub bs_buy : ℤ
bs_buy = pos 1

-- SPOT_INSTRUMENT_TYPE
abbrev pub spot_instrument_type : ℤ
spot_instrument_type = pos 1

-- LS_SHORT
abbrev pub ls_short : ℤ
ls_short = pos 2
