-- ===== src/Orders/Entries.antt =====
-- `infer_state_from_trades` of order_store_v2.rs: the state entry that a report without one gets
-- from its trades. An entry is of the type of its payload; all others are `other_entry`.
use zkbot.Prelude.{
  ℤ, pos, ◌+ℤ◌, ◌-ℤ◌, ◌*ℤ◌, ltb_ℤ, abs_ℤ, int_beq, Bool, true, false, not, ◌||◌, Option, none, some,
  String, List, [], ◌∷◌, if◌then◌else◌,
}
use zkbot.Orders.Types.{
  ExchangeOrderStatus, exch_filled, exch_partial_filled, LiveOrder, Rejection, is_in_terminal_state,
}

pub record StateReport : Type 0 where
  pub exch_order_status : ExchangeOrderStatus
  pub filled_qty : ℤ
  pub unfilled_qty : ℤ
  pub avg_price : ℤ

pub record TradeReport : Type 0 where
  pub exch_trade_id : String
  pub filled_qty : ℤ
  pub filled_price : ℤ
  pub fill_type : ℤ
  pub exch_pnl : ℤ

pub record FeeReport : Type 0 where
  pub fee_qty : ℤ
  pub fee_symbol : String
  pub fee_type : ℤ

pub data ExchExecType : Type 0 where
  exch_exec_rejected exch_exec_cancel_reject exch_exec_other : ExchExecType

pub record ExecReport : Type 0 where
  pub exec_type : ExchExecType
  pub exec_message : String
  -- the code and the message of `error_info`
  pub error_info : Option (ℤ × String)
  pub rejection_info : Option Rejection

-- A linkage carries the exchange's reference.
pub data ReportEntry : Type 0 where
  state_entry : StateReport → ReportEntry
  trade_entry : TradeReport → ReportEntry
  linkage_entry : String → ReportEntry
  fee_entry : FeeReport → ReportEntry
  exec_entry : ExecReport → ReportEntry
  other_entry : ReportEntry

unfoldable pub has_state : List ReportEntry → Bool
has_state [] = false
has_state (state_entry r ∷ es) = true
has_state (_ ∷ es) = has_state es

unfoldable pub has_trade : List ReportEntry → Bool
has_trade [] = false
has_trade (trade_entry t ∷ es) = true
has_trade (_ ∷ es) = has_trade es

-- The sums of the loop over the entries.
unfoldable pub new_qty : List ReportEntry → ℤ
new_qty [] = pos 0
new_qty (trade_entry t ∷ es) = t.filled_qty +ℤ new_qty es
new_qty (_ ∷ es) = new_qty es

unfoldable pub new_value : List ReportEntry → ℤ
new_value [] = pos 0
new_value (trade_entry t ∷ es) = t.filled_qty *ℤ t.filled_price +ℤ new_value es
new_value (_ ∷ es) = new_value es

-- The state entry for a total filled quantity; 1e-8 is 10 units.
abbrev pub inferred_state : (ℤ → ℤ → ℤ) → LiveOrder → ℤ → ℤ → StateReport
inferred_state div live total_qty value = record {
  exch_order_status =
      if ltb_ℤ (abs_ℤ (total_qty -ℤ live.qty)) (pos 10) then exch_filled else exch_partial_filled;
  filled_qty = total_qty;
  unfilled_qty = live.qty -ℤ total_qty;
  avg_price = if int_beq total_qty (pos 0) then pos 0 else div value total_qty;
}

unfoldable pub infer_state_from_trades :
    (ℤ → ℤ → ℤ) → List ReportEntry → LiveOrder → Option StateReport
infer_state_from_trades div entries live =
    let total_qty = new_qty entries +ℤ live.acc_trades_filled_qty in
    if is_in_terminal_state live || has_state entries || not (has_trade entries)
    then none
    else if ltb_ℤ live.qty total_qty
    then none
    else some (inferred_state div live total_qty (live.acc_trades_value +ℤ new_value entries))
