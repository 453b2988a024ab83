-- ===== src/Core/Leaks.antt =====
-- No order that has ended is open or has a hold, in any core that messages reach.
use zkbot.Prelude.{
  ℕ, ℤ, int_eq, nat_eq, pair_eq, string_eq, ◌==◌, ◌≡◌, inl, inr, Bool, true, false, not, ◌&&◌, none,
  some, lookup, lookup-insert, contains, Bool-cases, Option-cases, List, [], ◌∷◌, arith,
}
use zkbot.Intern.{intern}
use zkbot.Orders.Types.{LiveOrder, OrderRequest, is_in_terminal_state}
use zkbot.Orders.Store.{resolve_order_id, put_order}
use zkbot.Orders.Closing.{create_external_order, external_live}
use zkbot.Orders.Invariant.{IsFresh}
use zkbot.Metadata.{MetadataTables}
use zkbot.Core.Types.{
  Env, external_source, OmsCore, OrderReport, OrderCancelRequest, PositionReport, OmsMessage,
  place_order, batch_place_orders, cancel_order, batch_cancel_orders, gateway_order_report,
  balance_update, panic, dont_panic, cleanup, reload_config, position_recheck, recheck_order,
  recheck_cancel, gateway_send_failed, gateway_cancel_send_failed,
}
use zkbot.Core.Placing.{process_order}
use zkbot.Core.Failures.{process_cancel}
use zkbot.Core.Incoming.{
  known_external, adopt_external, keep_report, report_of_unknown, process_order_report, gw_of,
  process_balance_update, account_of,
}
use zkbot.Core.Messages.{new, later, process_orders, process_cancels, process_message}
use zkbot.Core.PlacingKeeps.{IsSoundCore, process_order-IsSound}
use zkbot.Core.FailureKeeps.{process_cancel-IsSound}
use zkbot.Core.Reachable.{
  AllPlaceable, Admissible, Reach, here, next, adopt_external-IsSound, new-IsSound, Reach-IsSound,
}
use zkbot.Core.Ended.{IsTidy}
use zkbot.Core.EndedPlacing.{process_order-IsTidy}
use zkbot.Core.EndedKeeps.{
  process_report_for_order-IsTidy, process_gateway_send_failed-IsTidy,
  process_gateway_cancel_send_failed-IsTidy, process_cancel-IsTidy,
}

process_orders-IsTidy :
    (env : Env) (core : OmsCore) (reqs : List OrderRequest)
    → IsSoundCore core
    → AllPlaceable env core reqs
    → IsTidy core.orders
    → IsTidy (process_orders env core reqs).0.orders
unfolding process_orders
process_orders-IsTidy env core [] v ok w = w
process_orders-IsTidy env core (req ∷ reqs) v ok w =
    process_orders-IsTidy (later env) (process_order env core req).0 reqs
      (process_order-IsSound env core req v ok.0) ok.1 (process_order-IsTidy env core req v ok.0 w)

process_cancels-IsTidy :
    (env : Env) (core : OmsCore) (reqs : List OrderCancelRequest)
    → IsSoundCore core
    → IsTidy core.orders
    → IsTidy (process_cancels env core reqs).0.orders
unfolding process_cancels
process_cancels-IsTidy env core [] v w = w
process_cancels-IsTidy env core (req ∷ reqs) v w =
    process_cancels-IsTidy (later env) (process_cancel env core req).0 reqs
      (process_cancel-IsSound env core v req) (process_cancel-IsTidy env core v w req)

module _ (env : Env) (core : OmsCore) (v : IsSoundCore core) (w : IsTidy core.orders) where
  adopt_external-IsTidy :
      (gw_id : ℕ) (report : OrderReport) → IsTidy (adopt_external env core gw_id report).orders
  unfolding adopt_external create_external_order put_order
  adopt_external-IsTidy gw_id report = record {
    going = λ j h.
        let adopted =
          external_live env.next_order_id gw_id
            (intern core.orders.dyn_strings report.exch_order_ref).1 report.account_id
            report.update_timestamp
            (intern core.metadata.strings (env.text (external_source report.exchange))).1 in
        ground (arith, lookup-insert env.next_order_id j adopted core.orders.live, w.going j, h);
  }

  keep_report-IsTidy :
      (gw_id : ℕ) (report : OrderReport) → IsTidy (keep_report core gw_id report).orders
  unfolding keep_report
  keep_report-IsTidy gw_id report = elim (Bool-cases (report.exch_order_ref == "")) [
    | inl e ↦ rw e w
    | inr e ↦ rw e (record { going = w.going })
  ]

  report_of_unknown-IsTidy :
      IsFresh core.orders env.next_order_id
      → (gw_id : ℕ) (report : OrderReport)
      → IsTidy (report_of_unknown env core gw_id report).0.orders
  unfolding report_of_unknown
  report_of_unknown-IsTidy fresh gw_id report =
      elim (Bool-cases (core.handle_external_orders && not (report.exch_order_ref == ""))) [
        | inr e ↦ rw e (keep_report-IsTidy gw_id report)
        | inl e ↦ elim (Option-cases (known_external core.orders gw_id report.exch_order_ref)) [
          | inl h ↦
              rw (e, h, report_of_unknown)
                (process_report_for_order-IsTidy env (adopt_external env core gw_id report)
                  (adopt_external-IsSound env core v fresh gw_id report)
                  (adopt_external-IsTidy gw_id report) env.next_order_id gw_id report)
          | inr (order_id, h) ↦
              rw (e, h, report_of_unknown)
                (process_report_for_order-IsTidy env core v w order_id gw_id report)
        ]
      ]

  process_order_report-IsTidy :
      IsFresh core.orders env.next_order_id
      → (report : OrderReport) → IsTidy (process_order_report env core report).0.orders
  unfolding process_order_report
  process_order_report-IsTidy fresh report =
      elim (Option-cases (gw_of core.metadata report.exchange)) [
        | inl e ↦ rw (e, process_order_report) w
        | inr (gw_id, e) ↦
            elim (Option-cases
              (resolve_order_id core.orders report.order_id gw_id report.exch_order_ref)) [
                | inl h ↦
                    rw (e, h, process_order_report) (report_of_unknown-IsTidy fresh gw_id report)
                | inr (order_id, h) ↦
                    rw (e, h, process_order_report)
                      (process_report_for_order-IsTidy env core v w order_id gw_id report)
              ]
      ]

  process_balance_update-IsTidy :
      (entries : List PositionReport) → IsTidy (process_balance_update env core entries).0.orders
  unfolding process_balance_update
  process_balance_update-IsTidy [] = w
  process_balance_update-IsTidy (first ∷ rest) =
      elim (Option-cases (account_of core first.exch_account_code)) [
        | inl e ↦ rw (e, process_balance_update) w
        | inr (account_id, e) ↦ rw (e, process_balance_update) w
      ]

process_message-IsTidy :
    (env : Env) (core : OmsCore) (message : OmsMessage)
    → IsSoundCore core
    → IsTidy core.orders
    → Admissible env core message
    → IsTidy (process_message env core message).0.orders
unfolding process_message
process_message-IsTidy env core (place_order req) v w ok = process_order-IsTidy env core req v ok w
process_message-IsTidy env core (batch_place_orders reqs) v w ok =
    process_orders-IsTidy env core reqs v ok w
process_message-IsTidy env core (cancel_order req) v w ok = process_cancel-IsTidy env core v w req
process_message-IsTidy env core (batch_cancel_orders reqs) v w ok =
    process_cancels-IsTidy env core reqs v w
process_message-IsTidy env core (gateway_order_report report) v w ok =
    process_order_report-IsTidy env core v w ok report
process_message-IsTidy env core (balance_update entries) v w ok =
    process_balance_update-IsTidy env core v w entries
process_message-IsTidy env core (panic account_id) v w ok = w
process_message-IsTidy env core (dont_panic account_id) v w ok = w
process_message-IsTidy env core (cleanup ts_ms) v w ok = w
process_message-IsTidy env core reload_config v w ok = w
process_message-IsTidy env core position_recheck v w ok = w
process_message-IsTidy env core recheck_order v w ok = w
process_message-IsTidy env core recheck_cancel v w ok = w
process_message-IsTidy env core (gateway_send_failed order_id gw_id error_msg) v w ok =
    process_gateway_send_failed-IsTidy env core v w order_id error_msg
process_message-IsTidy env core (gateway_cancel_send_failed order_id gw_id error_msg) v w ok =
    process_gateway_cancel_send_failed-IsTidy env core v w order_id error_msg

Reach-IsTidy :
    {core t : OmsCore} → IsSoundCore core → IsTidy core.orders → Reach core t → IsTidy t.orders
Reach-IsTidy v w here = w
Reach-IsTidy v w (next env message r ok) =
    process_message-IsTidy env _ message (Reach-IsSound v r) (Reach-IsTidy v w r) ok

new-IsTidy :
    (metadata : MetadataTables) (emulate risk external : Bool) (limit : ℕ)
    → IsTidy (new metadata emulate risk external limit).orders
unfolding new contains
new-IsTidy metadata emulate risk external limit = record { going = λ id h. ground arith }

-- In every core that messages reach from a new one, with orders placed under ids that the store
-- neither holds nor has among its closed ones, with prices and quantities that are not negative,
-- and such an id from the id counter, an order in a final state is not open and holds nothing.
pub Reach-new-unheld :
    (metadata : MetadataTables) (emulate risk external : Bool) (limit : ℕ) (t : OmsCore)
    → Reach (new metadata emulate risk external limit) t
    → (id : ℤ) (l : LiveOrder) → lookup id t.orders.live ≡ some l
    → is_in_terminal_state l ≡ true
    → (contains id t.orders.open_order_ids ≡ false) × (lookup id t.reservations.reservations ≡ none)
Reach-new-unheld metadata emulate risk external limit t r id l e ended =
    let sound = new-IsSound metadata emulate risk external limit in
    let v = Reach-IsSound sound r in
    let w = Reach-IsTidy sound (new-IsTidy metadata emulate risk external limit) r in
    let shut : contains id t.orders.open_order_ids ≡ false = ground (arith, w.going id, e, ended) in
    (shut, ground (arith, v.held_open id, shut))
