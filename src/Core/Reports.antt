-- ===== src/Core/Reports.antt =====
-- `process_report_for_order` of oms_core_v2.rs: the entries of a report are applied to an order, then
-- the fills move the position and the hold, and an order that has ended is closed.
use zkbot.Prelude.{
  ℕ, ltb, ℤ, pos, ◌-ℤ◌, int_beq, ◌==◌, int_eq, string_eq, Bool, true, false, not, ◌||◌, Option,
  none, some, unwrap_or, String, lookup, List, [], ◌∷◌, length, if◌then◌else◌,
}
use zkbot.Orders.Types.{
  LiveOrder, Trade, exch_trade_id, Rejection, ExecType, exec_cancel, exec_placing_order,
}
use zkbot.Orders.Report.{apply_state_report, apply_trade_report, apply_fee_report, apply_oms_error}
use zkbot.Orders.Store.{OrderStore, register_exch_ref}
use zkbot.Orders.Closing.{apply_linkage_promotion}
use zkbot.Orders.Entries.{
  ReportEntry, StateReport, TradeReport, FeeReport, ExecReport, ExchExecType, exch_exec_rejected,
  exch_exec_cancel_reject, exch_exec_other, state_entry, trade_entry, linkage_entry, fee_entry,
  exec_entry, other_entry,
}
use zkbot.Metadata.{MetadataTables, instrument, str_resolve}
use zkbot.Core.Types.{Env, gateway_error, gateway_rejected}
use zkbot.Core.Placing.{update_order}
use zkbot.Core.Failures.{exch_ref_text}

-- What the loop over the entries has done so far.
pub record Progress : Type 0 where
  pub orders : OrderStore
  pub original_order_updated : Bool
  pub new_trade : Bool
  pub new_oms_trade : Bool
  pub new_fee : Bool
  pub new_exec_msg : Bool

-- The filled quantity that a state report gives for an order.
unfoldable pub filled_of : StateReport → ℤ → Option ℤ
filled_of r qty =
    if not (int_beq r.filled_qty (pos 0))
    then some r.filled_qty
    else if not (int_beq r.unfilled_qty (pos 0))
    then some (qty -ℤ r.unfilled_qty)
    else none

abbrev pub inferred_count : OrderStore → ℤ → ℕ
inferred_count s order_id = elim (lookup order_id s.detail) [
  | none ↦ 0
  | some d ↦ length d.inferred_trades
]

abbrev pub trade_count : OrderStore → ℤ → ℕ
trade_count s order_id = elim (lookup order_id s.detail) [ none ↦ 0 | some d ↦ length d.trades ]

unfoldable pub instrument_code_of : MetadataTables → LiveOrder → String
instrument_code_of m live = elim (instrument m live.instrument_id) [
  | none ↦ ""
  | some i ↦ str_resolve m i.instrument_code_sym
]

unfoldable pub trade_of : MetadataTables → OrderStore → LiveOrder → TradeReport → ℤ → Trade
unfolding instrument_code_of
trade_of m s live r ts = record {
  order_id = live.order_id;
  ext_order_ref = exch_ref_text s live;
  ext_trade_id = exch_trade_id r.exch_trade_id;
  filled_qty = r.filled_qty;
  filled_price = r.filled_price;
  filled_ts = ts;
  buy_sell_type = live.buy_sell_type;
  instrument = instrument_code_of m live;
  account_id = live.account_id;
  fill_type = r.fill_type;
  exch_pnl = r.exch_pnl;
}

unfoldable pub oms_exec_type : ExchExecType → Option ExecType
oms_exec_type exch_exec_rejected = some exec_placing_order
oms_exec_type exch_exec_cancel_reject = some exec_cancel
oms_exec_type exch_exec_other = none

-- `Rejection::default()`
abbrev pub default_rejection : Rejection
default_rejection = record {
  source = pos 0;
  recoverable = false;
  reason = pos 0;
  error_code = pos 0;
  error_message = "";
}

unfoldable pub exec_error_text : Env → ExecReport → String
exec_error_text env r =
    let rejection = unwrap_or r.rejection_info default_rejection in
    elim r.error_info [
      | some info ↦ env.text (gateway_error info.0 info.1)
      | none ↦
          if not (rejection.error_message == "")
          then rejection.error_message
          else if not (r.exec_message == "")
          then r.exec_message
          else env.text gateway_rejected
    ]

-- One entry. `alone` says that it is the only one and that no state was inferred.
module _ (env : Env) (metadata : MetadataTables) (order_id : ℤ) (gw_id : ℕ) (ts : ℤ)
    (alone : Bool) where
  unfoldable pub linkage_step : String → Progress → Progress
  linkage_step exch_ref p =
      let linked = register_exch_ref p.orders order_id gw_id exch_ref in
      if alone
      then record p {
        orders = apply_linkage_promotion linked order_id;
        original_order_updated = true;
      }
      else record p { orders = linked }

  unfoldable pub state_step : StateReport → Progress → Progress
  unfolding update_order
  state_step r p =
      let orders =
        update_order
          (λ l d.
            apply_state_report env.div l d (filled_of r l.qty) r.avg_price r.exch_order_status ts)
          order_id p.orders in
      record p {
        orders = orders;
        original_order_updated = true;
        new_oms_trade =
            p.new_oms_trade
            || ltb (inferred_count p.orders order_id) (inferred_count orders order_id);
      }

  unfoldable pub trade_step : TradeReport → Progress → Progress
  unfolding update_order
  trade_step r p = record p {
    orders =
        update_order (λ l d. apply_trade_report l d (trade_of metadata p.orders l r ts)) order_id
          p.orders;
    new_trade = true;
    original_order_updated = true;
  }

  unfoldable pub exec_step : ExecReport → Progress → Progress
  unfolding update_order
  exec_step r p = elim (oms_exec_type r.exec_type) [
    | none ↦ p
    | some exec_type ↦ record p {
      orders =
          update_order
            (λ l d.
              apply_oms_error l d (exec_error_text env r) ts exec_type
                (unwrap_or r.rejection_info default_rejection))
            order_id p.orders;
      new_exec_msg = true;
      original_order_updated = true;
    }
  ]

  unfoldable pub fee_step : FeeReport → Progress → Progress
  unfolding update_order
  fee_step r p = record p {
    orders =
        update_order
          (λ l d. (
            l,
            apply_fee_report d (record {
              order_id = l.order_id;
              fee_amount = r.fee_qty;
              fee_symbol = r.fee_symbol;
              fee_ts = ts;
              fee_type = r.fee_type;
            }),
          ))
          order_id p.orders;
    new_fee = true;
    original_order_updated = true;
  }

  unfoldable pub entry_step : ReportEntry → Progress → Progress
  unfolding linkage_step state_step trade_step exec_step fee_step
  entry_step (linkage_entry exch_ref) p = linkage_step exch_ref p
  entry_step (state_entry r) p = state_step r p
  entry_step (trade_entry r) p = trade_step r p
  entry_step (exec_entry r) p = exec_step r p
  entry_step (fee_entry r) p = fee_step r p
  entry_step other_entry p = p

  unfoldable pub apply_entries : List ReportEntry → Progress → Progress
  unfolding entry_step
  apply_entries [] p = p
  apply_entries (e ∷ es) p = apply_entries es (entry_step e p)
