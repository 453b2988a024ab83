-- ===== src/Core/EndedKeeps.antt =====
-- Reports, failures and cancels leave no order open that is in a final state.
use zkbot.Prelude.{
  ℕ, ℤ, int_eq, string_eq, ◌==◌, ==_iff, ◌≡◌, refl, sym, ◌∙◌, ap, subst, inl, inr, Bool, false,
  Option, none, some, String, lookup, contains, Bool-cases, Option-cases, List, ◌++◌, arith,
}
use zkbot.Orders.Types.{
  LiveOrder, exec_placing_order, OrderStatus, is_terminal, is_in_terminal_state,
}
use zkbot.Orders.Store.{OrderStore, modify_live}
use zkbot.Orders.Entries.{infer_state_from_trades}
use zkbot.Core.Types.{Env, send_failed, OmsCore, OrderReport, OrderCancelRequest}
use zkbot.Core.Failures.{
  fail_order, fail_placing, process_gateway_send_failed, process_gateway_cancel_send_failed,
  process_cancel,
}
use zkbot.Core.Reports.{Progress}
use zkbot.Core.Settle.{
  finalise, close_if_ended, settle, finish, entries_progress, finish_report,
  process_report_for_order, is_alone, extra_entries, Settled,
}
use zkbot.Orders.Invariant.{IsWellFormed}
use zkbot.Core.Edits.{IsEdit}
use zkbot.Core.Sound.{edit-IsSound}
use zkbot.Core.PlacingKeeps.{IsSoundCore}
use zkbot.Core.ReportKeeps.{entries_progress-IsEdit, finalised-IsSound}
use zkbot.Core.FailureKeeps.{fail_order-IsEdit}
use zkbot.Core.Cancels.{status_of, process_cancel_lem, process_gateway_cancel_send_failed_lem}
use zkbot.Core.Ended.{
  is_ended, IsTidy, IsChangeOf, trans-IsChangeOf, update_order-IsChangeOf, modify_live-IsChangeOf,
  modify_live_ended, closed-IsTidy, going-IsTidy,
}
use zkbot.Core.EndedEntries.{Tracks, apply_entries-Tracks}

abbrev ended_status : Option OrderStatus → Bool
ended_status none = false
ended_status (some status) = is_terminal status

is_ended_status : (o : Option LiveOrder) → is_ended o ≡ ended_status (status_of o)
is_ended_status none = refl
is_ended_status (some l) = refl

module _ (env : Env) (core : OmsCore) (v : IsSoundCore core) (w : IsTidy core.orders) where
  same-IsTidy :
      (t : OrderStore)
      → t.open_order_ids ≡ core.orders.open_order_ids
      → ((j : ℤ) → is_ended (lookup j t.live) ≡ is_ended (lookup j core.orders.live))
      → IsTidy t
  same-IsTidy t opened same = record {
    going = λ j h. same j ∙ w.going j (ap (λ (x : List ℤ). contains j x) (sym opened) ∙ h);
  }

  -- After the loop: what it changed, and whether it may have ended the order.
  entries_progress-Tracks :
      (live : LiveOrder) (order_id : ℤ) (gw_id : ℕ) (report : OrderReport)
      → IsChangeOf order_id core.orders
          (entries_progress env core live order_id gw_id report).orders
        × Tracks order_id core.orders (entries_progress env core live order_id gw_id report)
  unfolding entries_progress
  entries_progress-Tracks live order_id gw_id report =
      let ts = report.update_timestamp in
      let extra = infer_state_from_trades env.div report.order_report_entries live in
      apply_entries-Tracks env core.metadata order_id gw_id ts (is_alone report extra) core.orders
        (report.order_report_entries ++ extra_entries extra) _
        (
          modify_live-IsChangeOf (λ l. record l { updated_at = ts }) order_id core.orders,
          inr (modify_live_ended _ order_id order_id core.orders.live (λ l. refl)),
        )

  close_if_ended-IsTidy :
      (t : OmsCore) (order_id : ℤ) (live : LiveOrder) (s : Settled)
      → IsChangeOf order_id core.orders t.orders
      → IsWellFormed t.orders
      → lookup order_id t.orders.live ≡ some live
      → IsTidy (close_if_ended t order_id live s).0.orders
  unfolding close_if_ended
  close_if_ended-IsTidy t order_id live s f u at = elim (Bool-cases (is_in_terminal_state live)) [
    | inl ended ↦ rw ended (closed-IsTidy order_id core.orders t.orders f u w)
    | inr going ↦ rw going (going-IsTidy order_id core.orders t.orders f (ap is_ended at ∙ going) w)
  ]

  finish-IsTidy :
      (t : OmsCore) (order_id : ℤ) (live : LiveOrder) (ts : ℤ) (p : Progress) (n m : ℕ)
      → IsChangeOf order_id core.orders t.orders
      → IsWellFormed t.orders
      → lookup order_id t.orders.live ≡ some live
      → IsTidy (finish t order_id live ts p n m).0.orders
  unfolding finish
  finish-IsTidy t order_id live ts p n m =
      close_if_ended-IsTidy t order_id live (settle order_id live ts p n m t)

  idle-IsTidy :
      (order_id : ℤ) (p : Progress)
      → IsChangeOf order_id core.orders p.orders
      → Tracks order_id core.orders p
      → p.original_order_updated ≡ false
      → IsTidy p.orders
  idle-IsTidy order_id p f (inl updated) idle = ground (arith, updated, idle)
  idle-IsTidy order_id p f (inr same) idle = same-IsTidy p.orders f.opened (λ j.
      elim (Bool-cases (order_id == j)) [
        | inl here ↦
            subst
              (λ (k : ℤ). is_ended (lookup k p.orders.live) ≡ is_ended (lookup k core.orders.live))
              ((==_iff order_id j).0 here) same
        | inr ne ↦ ap is_ended (f.others j ne)
      ])

  finish_report-IsTidy :
      (order_id ts : ℤ) (p : Progress) (n m : ℕ) (old : LiveOrder)
      → lookup order_id core.orders.live ≡ some old
      → IsEdit core.orders p.orders
      → IsChangeOf order_id core.orders p.orders
      → IsTidy (finish_report env core order_id ts p n m).0.orders
  unfolding finish_report
  finish_report-IsTidy order_id ts p n m old was f g =
      let finalised : OrderStore = record p.orders {
        live = modify_live (finalise env.div) order_id p.orders.live;
      } in
      let u = finalised-IsSound env core v order_id p f in
      let h =
        trans-IsChangeOf order_id core.orders p.orders _ g
          (modify_live-IsChangeOf (finalise env.div) order_id p.orders) in
      elim (Option-cases
        (lookup order_id (modify_live (finalise env.div) order_id p.orders.live))) [
          | inl e ↦ rw (e, finish_report) (going-IsTidy order_id core.orders _ h (ap is_ended e) w)
          | inr (live, e) ↦
              rw (e, finish_report)
                (finish-IsTidy (record core { orders = finalised }) order_id live ts p n m h
                  u.stored e)
        ]

  pub process_report_for_order-IsTidy :
      (order_id : ℤ) (gw_id : ℕ) (report : OrderReport)
      → IsTidy (process_report_for_order env core order_id gw_id report).0.orders
  unfolding process_report_for_order
  process_report_for_order-IsTidy order_id gw_id report =
      elim (Option-cases (lookup order_id core.orders.live)) [
        | inl e ↦ rw (e, process_report_for_order) w
        | inr (live, e) ↦
            let f = entries_progress-IsEdit env core v live order_id gw_id report in
            let g = entries_progress-Tracks live order_id gw_id report in
            let p = entries_progress env core live order_id gw_id report in
            elim (Bool-cases p.original_order_updated) [
              | inr idle ↦
                  rw (e, idle, process_report_for_order) (idle-IsTidy order_id p g.0 g.1 idle)
              | inl moved ↦
                  rw (e, moved, process_report_for_order)
                    (finish_report-IsTidy order_id report.update_timestamp p _ _ live e f g.0)
            ]
      ]

  fail_placing-IsTidy :
      (live : LiveOrder) (order_id : ℤ) (error_msg : String)
      → IsTidy (fail_placing env core live order_id error_msg).0.orders
  unfolding fail_placing fail_order
  fail_placing-IsTidy live order_id error_msg =
      let f =
        fail_order-IsEdit env core.orders order_id (send_failed error_msg) (env.clock 0)
          exec_placing_order in
      closed-IsTidy order_id core.orders _ (update_order-IsChangeOf _ order_id core.orders)
        (edit-IsSound core.orders _ core.reservations f v).stored w

  pub process_gateway_send_failed-IsTidy :
      (order_id : ℤ) (error_msg : String)
      → IsTidy (process_gateway_send_failed env core order_id error_msg).0.orders
  unfolding process_gateway_send_failed
  process_gateway_send_failed-IsTidy order_id error_msg =
      elim (Option-cases (lookup order_id core.orders.live)) [
        | inl e ↦ rw (e, process_gateway_send_failed) w
        | inr (live, e) ↦ elim (Bool-cases (is_in_terminal_state live)) [
          | inl ended ↦ rw (e, ended, process_gateway_send_failed) w
          | inr going ↦
              rw (e, going, process_gateway_send_failed)
                (fail_placing-IsTidy live order_id error_msg)
        ]
      ]

  pub process_gateway_cancel_send_failed-IsTidy :
      (order_id : ℤ) (error_msg : String)
      → IsTidy (process_gateway_cancel_send_failed env core order_id error_msg).0.orders
  process_gateway_cancel_send_failed-IsTidy order_id error_msg =
      let kept = process_gateway_cancel_send_failed_lem env core order_id error_msg in
      same-IsTidy _ kept.1 (λ j. ap is_ended (kept.0 j))

  pub process_cancel-IsTidy :
      (req : OrderCancelRequest) → IsTidy (process_cancel env core req).0.orders
  process_cancel-IsTidy req =
      let kept = (process_cancel_lem env core req).1 in
      same-IsTidy _ kept.1
        (λ j. is_ended_status _ ∙ ap ended_status (kept.0 j) ∙ sym (is_ended_status _))
