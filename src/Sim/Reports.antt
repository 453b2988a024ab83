-- ===== src/Sim/Reports.antt =====
-- The report builders of rust/crates/zk-sim-core/src/simulator.rs, and the application of a match.
use zkbot.Prelude.{
  ℕ, suc, ℤ, pos, ◌+ℤ◌, ◌-ℤ◌, leb_ℤ, max_ℤ, Bool, String, List, [], ◌∷◌, ◌++◌, if◌then◌else◌,
}
use zkbot.Sim.Orders.{
  SimOrder, MatchResult, ExchangeOrderStatus, status_booked, status_filled, status_cancelled,
  ReportEntry, rejected_entry, linkage_entry, trade_entry, state_entry, OrderReport, SimResult,
}

abbrev pub make_rejected_report : ℤ → String → ℤ → OrderReport
make_rejected_report order_id exch_id ts = record {
  order_id = order_id;
  exch_order_ref = exch_id;
  update_timestamp = ts;
  order_report_entries = rejected_entry ∷ [];
}

abbrev pub make_state_entry_with_status : SimOrder → ExchangeOrderStatus → ReportEntry
make_state_entry_with_status order status = state_entry status order.filled_qty order.remaining_qty

abbrev pub make_state_entry : SimOrder → ReportEntry
make_state_entry order =
    make_state_entry_with_status order
      (if leb_ℤ order.remaining_qty (pos 0) then status_filled else status_booked)

abbrev pub make_state_entry_cancelled : SimOrder → ReportEntry
make_state_entry_cancelled order = make_state_entry_with_status order status_cancelled

abbrev pub linkage_of : SimOrder → ReportEntry
linkage_of order = linkage_entry order.req.correlation_id order.exch_order_id

abbrev pub report_of : SimOrder → ℤ → List ReportEntry → OrderReport
report_of order ts entries = record {
  order_id = order.req.correlation_id;
  exch_order_ref = order.exch_order_id;
  update_timestamp = ts;
  order_report_entries = entries;
}

abbrev pub make_booked_report : SimOrder → ℤ → SimResult
make_booked_report order ts = record {
  ts_ms = ts;
  order_report = report_of order ts (linkage_of order ∷ make_state_entry order ∷ []);
}

abbrev pub make_cancelled_report : SimOrder → ℤ → OrderReport
make_cancelled_report order ts = report_of order ts (make_state_entry_cancelled order ∷ [])

abbrev pub match_ts : SimOrder → MatchResult → ℤ
match_ts order m = max_ℤ (m.trigger_ts +ℤ m.delay_ms) (order.update_ts +ℤ pos 1)

-- The order after a match.
abbrev pub matched : SimOrder → MatchResult → SimOrder
matched order m = record order {
  filled_qty = order.filled_qty +ℤ m.qty;
  remaining_qty = order.remaining_qty -ℤ m.qty;
  update_ts = match_ts order m;
}

abbrev pub trade_of : SimOrder → MatchResult → String → ReportEntry
trade_of order m trade_id =
    trade_entry trade_id m.qty m.price (match_ts order m) order.req.instrument
      order.req.buysell_type

-- `trade_id` is what `next_id` gives.
unfoldable pub apply_match : SimOrder → MatchResult → Bool → String → SimOrder × SimResult
apply_match order m add_linkage trade_id =
    let order' = matched order m in
    (
      order',
      record {
        ts_ms = match_ts order m;
        order_report = report_of order (match_ts order m) (
            (if add_linkage then linkage_of order ∷ [] else [])
            ++ (trade_of order m trade_id ∷ make_state_entry order' ∷ []));
      },
    )

-- `for m in matches { apply_match; if remaining_qty <= 0 { break } }`. The trade ids are those that
-- `next_id` gives from its n-th call on.
unfoldable pub apply_matches :
    (ℕ → String) → SimOrder → List MatchResult → Bool → ℕ → SimOrder × List SimResult
apply_matches uuid order [] add_linkage n = (order, [])
apply_matches uuid order (m ∷ ms) add_linkage n =
    let (order', result) = apply_match order m add_linkage (uuid n) in
    let (rest, results) =
      apply_matches uuid (apply_match order m add_linkage (uuid n)).0 ms add_linkage (suc n) in
    if leb_ℤ order'.remaining_qty (pos 0) then (order', result ∷ []) else (rest, result ∷ results)
