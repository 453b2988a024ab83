-- ===== src/Core/Settle.antt =====
-- The second half of `process_report_for_order` of oms_core_v2.rs: the order is finalised, its new
-- fills settled, and an order that has ended is closed; and `process_order_report`, which finds the
-- order of a report.
use zkbot.Prelude.{
  ℕ, ◌+◌, ◌%◌, u32_mod, ℤ, pos, ◌*ℤ◌, neg_ℤ, leb_ℤ, int_beq, nat_beq, int_eq, nat_eq, pair_eq,
  string_eq, Bool, true, false, not, ◌&&◌, ◌||◌, Option, none, some, is_none, lookup, List, [], ◌∷◌,
  ◌++◌, length, map, drop, if◌then◌else◌,
}
use zkbot.Orders.Types.{LiveOrder, Trade, is_in_terminal_state}
use zkbot.Orders.Store.{OrderStore, modify_live}
use zkbot.Orders.Closing.{mark_closed}
use zkbot.Orders.Entries.{ReportEntry, StateReport, state_entry, infer_state_from_trades}
use zkbot.Reservation.{ReservationStore, release, release_partial}
use zkbot.Position.{PositionStore, PositionDelta, apply_delta}
use zkbot.Core.Types.{
  reserve_unit, Env, OmsCore, OmsAction, OrderReport, publish_order_update, publish_position_update,
  persist_order, persist_position, bs_buy,
}
use zkbot.Core.Failures.{unfreeze_rest}
use zkbot.Core.Reports.{Progress, trade_count, inferred_count, apply_entries}

-- The average price of an order that ended with trades and without one, and the time at which it
-- ended, kept once it is set.
unfoldable pub finalise : (ℤ → ℤ → ℤ) → LiveOrder → LiveOrder
finalise div l = record l {
  snapshot_version = (l.snapshot_version + 1) % u32_mod;
  filled_avg_price =
      if is_in_terminal_state l
        && (int_beq l.filled_avg_price (pos 0) && not (int_beq l.acc_trades_filled_qty (pos 0)))
      then div l.acc_trades_value l.acc_trades_filled_qty
      else l.filled_avg_price;
  terminal_at =
      if is_in_terminal_state l && is_none l.terminal_at then some l.updated_at else l.terminal_at;
}

-- `detail.trades[trades_before..]` and the same for the inferred trades.
unfoldable pub new_fills : OrderStore → ℤ → ℕ → ℕ → List ℤ
new_fills s order_id trades_before inferred_before = elim (lookup order_id s.detail) [
  | none ↦ []
  | some d ↦
      map (λ (t : Trade). t.filled_qty)
        (drop trades_before d.trades ++ drop inferred_before d.inferred_trades)
]

-- What the fills move: the reservations, the positions, and whether a position changed.
pub record Settled : Type 0 where
  pub reservations : ReservationStore
  pub positions : PositionStore
  pub position_changed : Bool

unfoldable pub fill_delta : LiveOrder → ℕ → ℤ → PositionDelta
fill_delta live pos_id fill =
    let is_buy = int_beq live.buy_sell_type bs_buy in
    let sell_was_frozen = not is_buy && live.accounting_flags.balance_check in
    record {
      account_id = live.account_id;
      instrument_id = pos_id;
      is_short = not is_buy;
      avail_change = if is_buy then fill else pos 0;
      frozen_change = if sell_was_frozen then neg_ℤ fill else pos 0;
      total_change = if is_buy then fill else neg_ℤ fill;
    }

-- A buy gives back the cash at the price of the order, a sell the quantity.
unfoldable pub release_amount : LiveOrder → ℤ → ℤ
release_amount live fill =
    if live.accounting_flags.is_buy then fill *ℤ live.price else reserve_unit fill

unfoldable pub move_position : LiveOrder → ℤ → ℤ → Settled → Settled
unfolding fill_delta
move_position live ts fill s = elim live.accounting_flags.pos_instrument_id [
  | none ↦ s
  | some pos_id ↦ record s {
    positions = apply_delta s.positions (fill_delta live pos_id fill) ts;
    position_changed = true;
  }
]

unfoldable pub settle_fill : ℤ → LiveOrder → ℤ → ℤ → Settled → Settled
unfolding move_position release_amount
settle_fill order_id live ts fill s =
    if leb_ℤ fill (pos 0)
    then s
    else (let moved = move_position live ts fill s in
        record moved {
          reservations = release_partial moved.reservations order_id (release_amount live fill);
        })

unfoldable pub settle_fills : ℤ → LiveOrder → ℤ → List ℤ → Settled → Settled
unfolding settle_fill
settle_fills order_id live ts [] s = s
settle_fills order_id live ts (fill ∷ fills) s =
    settle_fills order_id live ts fills (settle_fill order_id live ts fill s)

unfoldable pub position_actions : LiveOrder → Bool → List OmsAction
position_actions live changed = elim live.accounting_flags.pos_instrument_id [
  | none ↦ []
  | some pos_id ↦
      if changed
      then persist_position live.account_id pos_id ∷ publish_position_update live.account_id ∷ []
      else []
]

-- An order in a final state is closed and its holds are given back.
unfoldable pub close_if_ended : OmsCore → ℤ → LiveOrder → Settled → OmsCore × List OmsAction
unfolding unfreeze_rest
close_if_ended core order_id live s =
    if is_in_terminal_state live
    then (
      record core {
        reservations = release s.reservations order_id;
        positions =
            unfreeze_rest core.orders live.accounting_flags live.account_id order_id s.positions;
        orders = mark_closed core.orders order_id;
      },
      persist_order order_id true true ∷ [],
    )
    else (
      record core { reservations = s.reservations; positions = s.positions },
      persist_order order_id false false ∷ [],
    )

abbrev pub unsettled : OmsCore → Settled
unsettled core = record {
  reservations = core.reservations;
  positions = core.positions;
  position_changed = false;
}

unfoldable pub settle : ℤ → LiveOrder → ℤ → Progress → ℕ → ℕ → OmsCore → Settled
unfolding new_fills settle_fills
settle order_id live ts p trades_before inferred_before core =
    if p.new_trade || p.new_oms_trade
    then settle_fills order_id live ts
        (new_fills core.orders order_id trades_before inferred_before) (unsettled core)
    else unsettled core

-- What follows the loop, for the order as it is after `finalise`.
unfoldable pub finish : OmsCore → ℤ → LiveOrder → ℤ → Progress → ℕ → ℕ → OmsCore × List OmsAction
unfolding settle position_actions close_if_ended
finish core order_id live ts p trades_before inferred_before =
    let s = settle order_id live ts p trades_before inferred_before core in
    let (closed, persists) = close_if_ended core order_id live s in
    (
      closed,
      publish_order_update order_id (record {
        include_last_trade = p.new_trade;
        include_last_fee = p.new_fee;
        include_exec_message = p.new_exec_msg;
        include_inferred_trade = p.new_oms_trade;
      })
            ∷ position_actions live s.position_changed
          ++ persists,
    )

abbrev pub extra_entries : Option StateReport → List ReportEntry
extra_entries none = []
extra_entries (some r) = state_entry r ∷ []

abbrev pub start : OrderStore → Progress
start s = record {
  orders = s;
  original_order_updated = false;
  new_trade = false;
  new_oms_trade = false;
  new_fee = false;
  new_exec_msg = false;
}

-- Whether the report has one entry and no state was inferred.
unfoldable pub is_alone : OrderReport → Option StateReport → Bool
is_alone report extra = nat_beq (length report.order_report_entries) 1 && is_none extra

-- What the loop over the entries, the inferred one last, makes of the orders.
unfoldable pub entries_progress : Env → OmsCore → LiveOrder → ℤ → ℕ → OrderReport → Progress
unfolding modify_live apply_entries infer_state_from_trades is_alone
entries_progress env core live order_id gw_id report =
    let ts = report.update_timestamp in
    let extra = infer_state_from_trades env.div report.order_report_entries live in
    let stamped = record core.orders {
      live = modify_live (λ l. record l { updated_at = ts }) order_id core.orders.live;
    } in
    apply_entries env core.metadata order_id gw_id ts (is_alone report extra)
      (report.order_report_entries ++ extra_entries extra) (start stamped)

unfoldable pub finish_report : Env → OmsCore → ℤ → ℤ → Progress → ℕ → ℕ → OmsCore × List OmsAction
unfolding modify_live finish
finish_report env core order_id ts p trades_before inferred_before =
    let orders = record p.orders { live = modify_live (finalise env.div) order_id p.orders.live } in
    let updated = record core { orders = orders } in
    elim (lookup order_id orders.live) [
      | none ↦ (updated, [])
      | some live ↦ finish updated order_id live ts p trades_before inferred_before
    ]

unfoldable pub process_report_for_order :
    Env → OmsCore → ℤ → ℕ → OrderReport → OmsCore × List OmsAction
unfolding entries_progress finish_report
process_report_for_order env core order_id gw_id report = elim (lookup order_id core.orders.live) [
  | none ↦ (core, [])
  | some live ↦
      let p = entries_progress env core live order_id gw_id report in
      if not p.original_order_updated
      then (record core { orders = p.orders }, [])
      else finish_report env core order_id report.update_timestamp p
          (trade_count core.orders order_id) (inferred_count core.orders order_id)
]
