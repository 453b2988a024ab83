-- ===== src/Orders/Fills.antt =====
-- What the reports of an order add up to: its trade totals, and the trades that are inferred.
use zkbot.Prelude.{
  ℤ, pos, ◌+ℤ◌, ◌-ℤ◌, ◌*ℤ◌, ◌≤ℤ◌, ltb_ℤ, ◌≡◌, inl, inr, Option, List, [], ◌∷◌, ◌++◌, arith,
  int_laws, Bool-cases,
}
use zkbot.Orders.Types.{ExchangeOrderStatus, Trade, LiveOrder, OrderDetailLog}
use zkbot.Orders.Report.{
  reported_filled, reported_avg, fill_tolerance, inferred_trade, apply_state_report,
  apply_trade_report, apply_exec_report, apply_fee_report, apply_oms_error,
}
use zkbot.Orders.Status.{
  OrderEvent, state_report, trade_report, exec_report, fee_report, oms_error, step, run,
  reported_filled-le,
}

unfoldable pub total_qty : List Trade → ℤ
total_qty [] = pos 0
total_qty (t ∷ ts) = t.filled_qty +ℤ total_qty ts

unfoldable pub total_value : List Trade → ℤ
total_value [] = pos 0
total_value (t ∷ ts) = t.filled_qty *ℤ t.filled_price +ℤ total_value ts

total_qty-push :
    (ts : List Trade) (t : Trade) → total_qty (ts ++ (t ∷ [])) ≡ total_qty ts +ℤ t.filled_qty
unfolding total_qty
total_qty-push [] t = omega int_laws
total_qty-push (x ∷ ts) t = omega (int_laws, total_qty-push ts t)

total_value-push :
    (ts : List Trade) (t : Trade)
    → total_value (ts ++ (t ∷ [])) ≡ total_value ts +ℤ t.filled_qty *ℤ t.filled_price
unfolding total_value
total_value-push [] t = omega int_laws
total_value-push (x ∷ ts) t = omega (int_laws, total_value-push ts t)

-- The books of an order: its accumulated quantity and value are those of its trades, and the
-- trades inferred for it stay within its filled quantity.
pub record IsBooked (o : LiveOrder × OrderDetailLog) : Type 0 where
  pub trades_qty : o.0.acc_trades_filled_qty ≡ total_qty o.1.trades
  pub trades_value : o.0.acc_trades_value ≡ total_value o.1.trades
  pub inferred_qty : total_qty o.1.inferred_trades ≤ℤ o.0.filled_qty

module _ (div : ℤ → ℤ → ℤ) where
  state_report-inferred :
      (l : LiveOrder) (d : OrderDetailLog) (fq : Option ℤ) (avg : ℤ) (status : ExchangeOrderStatus)
      (ts : ℤ)
      → total_qty d.inferred_trades ≤ℤ l.filled_qty
      → let o = apply_state_report div l d fq avg status ts in
        total_qty o.1.inferred_trades ≤ℤ o.0.filled_qty
  unfolding apply_state_report inferred_trade
  state_report-inferred l d fq avg status ts h =
      let grows = reported_filled-le fq l.filled_qty in
      let new_filled = reported_filled fq l.filled_qty in
      let t = inferred_trade div l d new_filled (reported_avg avg l.filled_avg_price) ts in
      elim (Bool-cases (ltb_ℤ fill_tolerance (new_filled -ℤ l.filled_qty))) [
        | inl e ↦ rw e (omega (int_laws, total_qty-push d.inferred_trades t))
        | inr e ↦ rw e (omega (int_laws, grows))
      ]

  state_report-trades :
      (l : LiveOrder) (d : OrderDetailLog) (fq : Option ℤ) (avg : ℤ) (status : ExchangeOrderStatus)
      (ts : ℤ)
      → l.acc_trades_filled_qty ≡ total_qty d.trades
      → let o = apply_state_report div l d fq avg status ts in
        o.0.acc_trades_filled_qty ≡ total_qty o.1.trades
  unfolding apply_state_report
  state_report-trades l d fq avg status ts h = ground arith

  state_report-value :
      (l : LiveOrder) (d : OrderDetailLog) (fq : Option ℤ) (avg : ℤ) (status : ExchangeOrderStatus)
      (ts : ℤ)
      → l.acc_trades_value ≡ total_value d.trades
      → let o = apply_state_report div l d fq avg status ts in
        o.0.acc_trades_value ≡ total_value o.1.trades
  unfolding apply_state_report
  state_report-value l d fq avg status ts h = ground arith

  step-IsBooked :
      (o : LiveOrder × OrderDetailLog) (e : OrderEvent) → IsBooked o → IsBooked (step div o e)
  unfolding step apply_trade_report apply_exec_report apply_fee_report apply_oms_error
  step-IsBooked (l, d) (state_report fq avg status ts) b = record {
    trades_qty = state_report-trades l d fq avg status ts b.trades_qty;
    trades_value = state_report-value l d fq avg status ts b.trades_value;
    inferred_qty = state_report-inferred l d fq avg status ts b.inferred_qty;
  }
  step-IsBooked (l, d) (trade_report t) b = record {
    trades_qty = omega (int_laws, b, total_qty-push d.trades t);
    trades_value = omega (int_laws, b, total_value-push d.trades t);
    inferred_qty = b.inferred_qty;
  }
  step-IsBooked (l, d) (exec_report m) b = ground arith
  step-IsBooked (l, d) (fee_report f) b = record {
    trades_qty = b.trades_qty;
    trades_value = b.trades_value;
    inferred_qty = b.inferred_qty;
  }
  step-IsBooked (l, d) (oms_error msg ts kind rej) b = ground arith

  -- Through any sequence of reports, the accumulated trade quantity and trade value of an order
  -- stay the sums over the trades logged for it, and the trades inferred for it never add up to
  -- more than its filled quantity.
  pub run-IsBooked :
      (o : LiveOrder × OrderDetailLog) (es : List OrderEvent) → IsBooked o → IsBooked (run div o es)
  unfolding run
  run-IsBooked o [] b = b
  run-IsBooked o (e ∷ es) b = run-IsBooked (step div o e) es (step-IsBooked o e b)
