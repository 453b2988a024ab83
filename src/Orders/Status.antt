-- ===== src/Orders/Status.antt =====
-- What any sequence of reports leaves of an order's status, its times and its filled quantity.
use zkbot.Prelude.{
  ℤ, ◌≤ℤ◌, ◌≡◌, refl, ◌∙◌, true, false, Option, none, some, String, List, [], ◌∷◌, arith,
}
use zkbot.Orders.Types.{
  ExchangeOrderStatus, ExecType, Rejection, Trade, ExecMessage, Fee, LiveOrder, OrderDetailLog,
}
use zkbot.Orders.Report.{
  can_update_status, is_cancelled_or_filled, is_placing, reported_filled, apply_state_report,
  apply_trade_report, apply_exec_report, apply_fee_report, apply_oms_error,
}

-- The calls that report processing makes on one order.
pub data OrderEvent : Type 0 where
  state_report : Option ℤ → ℤ → ExchangeOrderStatus → ℤ → OrderEvent
  trade_report : Trade → OrderEvent
  exec_report : ExecMessage → OrderEvent
  fee_report : Fee → OrderEvent
  oms_error : String → ℤ → ExecType → Rejection → OrderEvent

module _ (div : ℤ → ℤ → ℤ) where
  unfoldable pub step : LiveOrder × OrderDetailLog → OrderEvent → LiveOrder × OrderDetailLog
  step (l, d) (state_report fq avg status ts) = apply_state_report div l d fq avg status ts
  step (l, d) (trade_report t) = apply_trade_report l d t
  step (l, d) (exec_report m) = apply_exec_report l d m
  step (l, d) (fee_report f) = (l, apply_fee_report d f)
  step (l, d) (oms_error msg ts kind rej) = apply_oms_error l d msg ts kind rej

  unfoldable pub run : LiveOrder × OrderDetailLog → List OrderEvent → LiveOrder × OrderDetailLog
  run o [] = o
  run o (e ∷ es) = run (step o e) es

-- No event of the list rejects the placing of the order.
abbrev pub NoPlacingReject : List OrderEvent → Type 0
NoPlacingReject [] = Unit {0}
NoPlacingReject (exec_report m ∷ es) = (is_placing m.exec_type ≡ false) × NoPlacingReject es
NoPlacingReject (oms_error msg ts kind rej ∷ es) = (is_placing kind ≡ false) × NoPlacingReject es
NoPlacingReject (_ ∷ es) = NoPlacingReject es

pub reported_filled-le : (fq : Option ℤ) (orig : ℤ) → orig ≤ℤ reported_filled fq orig
unfolding reported_filled
reported_filled-le none orig = omega arith
reported_filled-le (some fq) orig = ground arith

module _ (div : ℤ → ℤ → ℤ) where
  filled_qty-step :
      (o : LiveOrder × OrderDetailLog) (e : OrderEvent)
      → o.0.filled_qty ≤ℤ (step div o e).0.filled_qty
  unfolding step apply_state_report apply_trade_report apply_exec_report apply_oms_error
  filled_qty-step (l, d) (state_report fq avg status ts) = reported_filled-le fq l.filled_qty
  filled_qty-step (l, d) (trade_report t) = omega arith
  filled_qty-step (l, d) (exec_report m) = ground arith
  filled_qty-step (l, d) (fee_report f) = omega arith
  filled_qty-step (l, d) (oms_error msg ts kind rej) = ground arith

  -- No sequence of reports lowers the filled quantity of an order.
  filled_qty-run :
      (o : LiveOrder × OrderDetailLog) (es : List OrderEvent)
      → o.0.filled_qty ≤ℤ (run div o es).0.filled_qty
  unfolding run
  filled_qty-run o [] = omega arith
  filled_qty-run o (e ∷ es) = omega (arith, filled_qty-step o e, filled_qty-run (step div o e) es)

  terminal_at-step :
      (o : LiveOrder × OrderDetailLog) (e : OrderEvent) (t : ℤ)
      → o.0.terminal_at ≡ some t
      → (step div o e).0.terminal_at ≡ some t
  unfolding step apply_state_report apply_trade_report apply_exec_report apply_oms_error
  terminal_at-step (l, d) (state_report fq avg status ts) t h = h
  terminal_at-step (l, d) (trade_report x) t h = h
  terminal_at-step (l, d) (exec_report m) t h = ground arith
  terminal_at-step (l, d) (fee_report f) t h = h
  terminal_at-step (l, d) (oms_error msg ts kind rej) t h = ground arith

  -- Once an order has the time at which it became terminal, no sequence of reports changes it.
  pub terminal_at-run :
      (o : LiveOrder × OrderDetailLog) (es : List OrderEvent) (t : ℤ)
      → o.0.terminal_at ≡ some t
      → (run div o es).0.terminal_at ≡ some t
  unfolding run
  terminal_at-run o [] t h = h
  terminal_at-run o (e ∷ es) t h = terminal_at-run (step div o e) es t (terminal_at-step o e t h)

  state_report-final :
      (l : LiveOrder) (d : OrderDetailLog) (fq : Option ℤ) (avg : ℤ) (status : ExchangeOrderStatus)
      (ts : ℤ)
      → is_cancelled_or_filled l.order_status ≡ true
      → (apply_state_report div l d fq avg status ts).0.order_status ≡ l.order_status
  unfolding apply_state_report can_update_status
  state_report-final l d fq avg status ts h = ground arith

  -- An order that is filled or cancelled keeps that status through any sequence of reports in
  -- which nothing rejects the placing of the order.
  pub order_status-run :
      (o : LiveOrder × OrderDetailLog) (es : List OrderEvent)
      → is_cancelled_or_filled o.0.order_status ≡ true
      → NoPlacingReject es
      → (run div o es).0.order_status ≡ o.0.order_status
  unfolding run step apply_trade_report apply_exec_report apply_oms_error
  order_status-run o [] h n = refl
  order_status-run (l, d) (state_report fq avg status ts ∷ es) h n =
      let same = state_report-final l d fq avg status ts h in
      order_status-run (apply_state_report div l d fq avg status ts) es (rw same h) n ∙ same
  order_status-run (l, d) (trade_report t ∷ es) h n =
      order_status-run (apply_trade_report l d t) es h n
  order_status-run (l, d) (exec_report m ∷ es) h n =
      let same : (apply_exec_report l d m).0.order_status ≡ l.order_status = rw n.0 refl in
      order_status-run (apply_exec_report l d m) es (rw same h) n.1 ∙ same
  order_status-run (l, d) (fee_report f ∷ es) h n =
      order_status-run (l, apply_fee_report d f) es h n
  order_status-run (l, d) (oms_error msg ts kind rej ∷ es) h n =
      let same : (apply_oms_error l d msg ts kind rej).0.order_status ≡ l.order_status =
        rw n.0 refl in
      order_status-run (apply_oms_error l d msg ts kind rej) es (rw same h) n.1 ∙ same
