-- ===== src/Core/Reachable.antt =====
-- Every core that messages reach from a new one is sound.
use zkbot.Prelude.{
  ℕ, ℤ, int_eq, string_eq, ◌==◌, ◌≡◌, ◌⊎◌, inl, inr, nat_eq, pair_eq, Bool, true, false, not, ◌&&◌,
  is_some, lookup, contains, lookup-insert, List, [], ◌∷◌, Bool-cases, Option-cases, arith,
}
use zkbot.Intern.{intern}
use zkbot.Orders.Types.{OrderRequest}
use zkbot.Orders.Store.{resolve_order_id, put_order}
use zkbot.Orders.Closing.{create_external_order, external_live}
use zkbot.Orders.Invariant.{IsWellFormed, IsFresh}
use zkbot.Orders.Keeps.{new-IsWellFormed, create_external_order-IsWellFormed}
use zkbot.Reservation.{total_reserved}
use zkbot.Reservation.Laws.{new-IsConsistent}
use zkbot.Reservation.Totals.{held}
use zkbot.Metadata.{MetadataTables}
use zkbot.Core.Types.{
  Env, external_source, OmsCore, OrderReport, OrderCancelRequest, PositionReport, OmsMessage,
  place_order, batch_place_orders, cancel_order, batch_cancel_orders, gateway_order_report,
  balance_update, panic, dont_panic, cleanup, reload_config, position_recheck, recheck_order,
  recheck_cancel, gateway_send_failed, gateway_cancel_send_failed,
}
use zkbot.Core.Placing.{process_order}
use zkbot.Core.Failures.{process_cancel}
use zkbot.Core.Incoming.{
  known_external, adopt_external, keep_report, report_of_unknown, process_order_report, gw_of,
  process_balance_update, account_of,
}
use zkbot.Core.Messages.{new, later, process_orders, process_cancels, process_message}
use zkbot.Core.PlacingKeeps.{IsSoundCore, IsPlaceable, process_order-IsSound}
use zkbot.Core.ReportKeeps.{process_report_for_order-IsSound}
use zkbot.Core.FailureKeeps.{
  process_gateway_send_failed-IsSound, process_gateway_cancel_send_failed-IsSound,
  process_cancel-IsSound,
}

-- What the core relies on: an order is placed under an id that its store neither holds nor has
-- closed lately, with a price and a quantity that are not negative, in a batch each in the state
-- that the ones before it leave; and the id counter gives such an id.
abbrev pub AllPlaceable : Env → OmsCore → List OrderRequest → Type 0
AllPlaceable env core [] = Unit
AllPlaceable env core (req ∷ reqs) =
    IsPlaceable core req × AllPlaceable (later env) (process_order env core req).0 reqs

abbrev pub Admissible : Env → OmsCore → OmsMessage → Type 0
Admissible env core (place_order req) = IsPlaceable core req
Admissible env core (batch_place_orders reqs) = AllPlaceable env core reqs
Admissible env core (gateway_order_report report) = IsFresh core.orders env.next_order_id
Admissible env core _ = Unit

pub data Reach (core : OmsCore) : OmsCore → Type 0 where
  here : Reach core core
  next :
      {mid : OmsCore} (env : Env) (message : OmsMessage)
      → Reach core mid
      → Admissible env mid message
      → Reach core (process_message env mid message).0

process_orders-IsSound :
    (env : Env) (core : OmsCore) (reqs : List OrderRequest)
    → IsSoundCore core
    → AllPlaceable env core reqs
    → IsSoundCore (process_orders env core reqs).0
unfolding process_orders
process_orders-IsSound env core [] v ok = v
process_orders-IsSound env core (req ∷ reqs) v ok =
    process_orders-IsSound (later env) (process_order env core req).0 reqs
      (process_order-IsSound env core req v ok.0) ok.1

process_cancels-IsSound :
    (env : Env) (core : OmsCore) (reqs : List OrderCancelRequest)
    → IsSoundCore core
    → IsSoundCore (process_cancels env core reqs).0
unfolding process_cancels
process_cancels-IsSound env core [] v = v
process_cancels-IsSound env core (req ∷ reqs) v =
    process_cancels-IsSound (later env) (process_cancel env core req).0 reqs
      (process_cancel-IsSound env core v req)

module _ (env : Env) (core : OmsCore) (v : IsSoundCore core)
    (fresh : IsFresh core.orders env.next_order_id) where
  pub adopt_external-IsSound :
      (gw_id : ℕ) (report : OrderReport) → IsSoundCore (adopt_external env core gw_id report)
  unfolding adopt_external create_external_order put_order
  adopt_external-IsSound gw_id report = record {
    stored =
        create_external_order-IsWellFormed core.orders env.next_order_id gw_id _ _ _ _ fresh
          v.stored;
    priced = λ id l e.
        let adopted =
          external_live env.next_order_id gw_id
            (intern core.orders.dyn_strings report.exch_order_ref).1 report.account_id
            report.update_timestamp
            (intern core.metadata.strings (env.text (external_source report.exchange))).1 in
        ground
          (arith, lookup-insert env.next_order_id id adopted core.orders.live, v.priced id l, e);
    consistent = v.consistent;
    held_open = v.held_open;
  }

  keep_report-IsSound :
      (gw_id : ℕ) (report : OrderReport) → IsSoundCore (keep_report core gw_id report)
  unfolding keep_report
  keep_report-IsSound gw_id report = elim (Bool-cases (report.exch_order_ref == "")) [
    | inl e ↦ rw e v
    | inr e ↦ rw e (record {
      stored = record {
        logged = v.stored.logged;
        own_id = v.stored.own_id;
        open_live = v.stored.open_live;
        closed_shut = v.stored.closed_shut;
        bounded = v.stored.bounded;
        indexed = v.stored.indexed;
      };
      priced = v.priced;
      consistent = v.consistent;
      held_open = v.held_open;
    })
  ]

  report_of_unknown-IsSound :
      (gw_id : ℕ) (report : OrderReport) → IsSoundCore (report_of_unknown env core gw_id report).0
  unfolding report_of_unknown
  report_of_unknown-IsSound gw_id report =
      elim (Bool-cases (core.handle_external_orders && not (report.exch_order_ref == ""))) [
        | inr e ↦ rw e (keep_report-IsSound gw_id report)
        | inl e ↦ elim (Option-cases (known_external core.orders gw_id report.exch_order_ref)) [
          | inl h ↦
              rw (e, h, report_of_unknown)
                (process_report_for_order-IsSound env _ (adopt_external-IsSound gw_id report)
                  env.next_order_id gw_id report)
          | inr (order_id, h) ↦
              rw (e, h, report_of_unknown)
                (process_report_for_order-IsSound env core v order_id gw_id report)
        ]
      ]

  process_order_report-IsSound :
      (report : OrderReport) → IsSoundCore (process_order_report env core report).0
  unfolding process_order_report
  process_order_report-IsSound report = elim (Option-cases (gw_of core.metadata report.exchange)) [
    | inl e ↦ rw (e, process_order_report) v
    | inr (gw_id, e) ↦
        elim (Option-cases
          (resolve_order_id core.orders report.order_id gw_id report.exch_order_ref)) [
            | inl h ↦ rw (e, h, process_order_report) (report_of_unknown-IsSound gw_id report)
            | inr (order_id, h) ↦
                rw (e, h, process_order_report)
                  (process_report_for_order-IsSound env core v order_id gw_id report)
          ]
  ]

process_balance_update-IsSound :
    (env : Env) (core : OmsCore) (entries : List PositionReport)
    → IsSoundCore core
    → IsSoundCore (process_balance_update env core entries).0
unfolding process_balance_update
process_balance_update-IsSound env core [] v = v
process_balance_update-IsSound env core (first ∷ rest) v =
    elim (Option-cases (account_of core first.exch_account_code)) [
      | inl e ↦ rw (e, process_balance_update) v
      | inr (account_id, e) ↦ rw (e, process_balance_update) v
    ]

process_message-IsSound :
    (env : Env) (core : OmsCore) (message : OmsMessage)
    → IsSoundCore core
    → Admissible env core message
    → IsSoundCore (process_message env core message).0
unfolding process_message
process_message-IsSound env core (place_order req) v ok = process_order-IsSound env core req v ok
process_message-IsSound env core (batch_place_orders reqs) v ok =
    process_orders-IsSound env core reqs v ok
process_message-IsSound env core (cancel_order req) v ok = process_cancel-IsSound env core v req
process_message-IsSound env core (batch_cancel_orders reqs) v ok =
    process_cancels-IsSound env core reqs v
process_message-IsSound env core (gateway_order_report report) v ok =
    process_order_report-IsSound env core v ok report
process_message-IsSound env core (balance_update entries) v ok =
    process_balance_update-IsSound env core entries v
process_message-IsSound env core (panic account_id) v ok = v
process_message-IsSound env core (dont_panic account_id) v ok = v
process_message-IsSound env core (cleanup ts_ms) v ok = v
process_message-IsSound env core reload_config v ok = v
process_message-IsSound env core position_recheck v ok = v
process_message-IsSound env core recheck_order v ok = v
process_message-IsSound env core recheck_cancel v ok = v
process_message-IsSound env core (gateway_send_failed order_id gw_id error_msg) v ok =
    process_gateway_send_failed-IsSound env core v order_id error_msg
process_message-IsSound env core (gateway_cancel_send_failed order_id gw_id error_msg) v ok =
    process_gateway_cancel_send_failed-IsSound env core v order_id error_msg

pub new-IsSound :
    (metadata : MetadataTables) (emulate risk external : Bool) (limit : ℕ)
    → IsSoundCore (new metadata emulate risk external limit)
unfolding new lookup
new-IsSound metadata emulate risk external limit = record {
  stored = new-IsWellFormed limit emulate;
  priced = λ id l e. ground arith;
  consistent = new-IsConsistent;
  held_open = λ id e. ground arith;
}

pub Reach-IsSound : {core t : OmsCore} → IsSoundCore core → Reach core t → IsSoundCore t
Reach-IsSound v here = v
Reach-IsSound v (next env message r ok) =
    process_message-IsSound env _ message (Reach-IsSound v r) ok

-- In every core that messages reach from a new one, where an order is only placed under an id that
-- the store neither holds nor has among its closed ones, with a price and a quantity that are not
-- negative, and the id counter gives such an id to an external order: the order store is well
-- formed, the total that is reserved on an account and a target is the sum of the holds on it, and
-- every order that has a hold is open, and live.
pub Reach-new-IsSound :
    (metadata : MetadataTables) (emulate risk external : Bool) (limit : ℕ) (t : OmsCore)
    → Reach (new metadata emulate risk external limit) t
    → IsWellFormed t.orders
      × ((account_id : ℤ) (target_id : ℕ)
          → total_reserved t.reservations account_id target_id
            ≡ held (account_id, target_id) t.reservations.reservations)
      × ((id : ℤ)
          → (is_some (lookup id t.reservations.reservations) ≡ false)
            ⊎ ((contains id t.orders.open_order_ids ≡ true)
                × (is_some (lookup id t.orders.live) ≡ true)))
unfolding total_reserved
Reach-new-IsSound metadata emulate risk external limit t r =
    let v = Reach-IsSound (new-IsSound metadata emulate risk external limit) r in
    (
      v.stored,
      λ a i. v.consistent.totals (a, i),
      λ id. elim (Bool-cases (is_some (lookup id t.reservations.reservations))) [
        | inr free ↦ inl free
        | inl held ↦ let opened = v.held_open id held in inr (opened, v.stored.open_live id opened)
      ],
    )
