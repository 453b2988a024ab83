-- ===== src/Core/PanicKeeps.antt =====
-- No handler of oms_core_v2.rs but the one of its message changes the accounts in panic.
use zkbot.Prelude.{
  ℕ, ℤ, int_eq, nat_eq, pair_eq, string_eq, ◌==◌, ◌≡◌, refl, inl, inr, not, ◌&&◌, ◌||◌, String,
  lookup, contains, Bool-cases, Option-cases, List, [], ◌∷◌,
}
use zkbot.Orders.Types.{LiveOrder, OrderRequest, ResolvedOrderMeta, is_in_terminal_state}
use zkbot.Orders.Store.{resolve_order_id}
use zkbot.Core.Types.{Env, OmsCore, OrderReport, OrderCancelRequest, PositionReport}
use zkbot.Core.Requests.{
  Resolved, resolved, unresolved, resolve_order_meta, validate_order_request,
  validate_cancel_request,
}
use zkbot.Core.Placing.{
  PreTrade, passed, refused, pre_trade, is_oversized, reject_order, send_order, after_checks,
  intern_source, check_and_send, after_resolution, process_order,
}
use zkbot.Core.Failures.{
  fail_placing, process_gateway_send_failed, process_gateway_cancel_send_failed, cancel_live,
  send_cancel, process_cancel,
}
use zkbot.Core.Reports.{Progress}
use zkbot.Core.Settle.{
  close_if_ended, settle, finish, entries_progress, finish_report, process_report_for_order,
  finalise, Settled,
}
use zkbot.Orders.Store.{modify_live}
use zkbot.Core.Incoming.{
  known_external, adopt_external, keep_report, report_of_unknown, process_order_report, gw_of,
  process_balance_update, account_of,
}

-- Placing.
module _ (env : Env) (req : OrderRequest) where
  after_checks_panic :
      (core : OmsCore) (meta : ResolvedOrderMeta) (checked : PreTrade)
      → (after_checks env core req meta checked).0.panic_accounts ≡ core.panic_accounts
  unfolding after_checks reject_order send_order
  after_checks_panic core meta (refused message) = refl
  after_checks_panic core meta (passed reservations positions) = refl

  check_and_send_panic :
      (core : OmsCore) (meta : ResolvedOrderMeta)
      → (check_and_send env core req meta).0.panic_accounts ≡ core.panic_accounts
  unfolding check_and_send reject_order
  check_and_send_panic core meta =
      elim (Bool-cases (core.risk_check_enabled && is_oversized req.qty meta.max_order_size)) [
        | inl e ↦ rw e refl
        | inr e ↦ rw e (after_checks_panic core meta (pre_trade core req meta))
      ]

  after_resolution_panic :
      (core : OmsCore) (r : Resolved)
      → (after_resolution env core req r).0.panic_accounts ≡ core.panic_accounts
  unfolding after_resolution reject_order intern_source
  after_resolution_panic core (unresolved message) = refl
  after_resolution_panic core (resolved meta) =
      check_and_send_panic (intern_source core req meta).0 (intern_source core req meta).1

  pub process_order_panic :
      (core : OmsCore) → (process_order env core req).0.panic_accounts ≡ core.panic_accounts
  unfolding process_order
  process_order_panic core =
      elim (Bool-cases (
        not (validate_order_request env.is_blank req)
        || contains req.account_id core.panic_accounts)) [
          | inl e ↦ rw e refl
          | inr e ↦ rw e (after_resolution_panic core (resolve_order_meta core.metadata req))
        ]

-- Reports.
close_if_ended_panic :
    (core : OmsCore) (order_id : ℤ) (live : LiveOrder) (s : Settled)
    → (close_if_ended core order_id live s).0.panic_accounts ≡ core.panic_accounts
unfolding close_if_ended
close_if_ended_panic core order_id live s = elim (Bool-cases (is_in_terminal_state live)) [
  | inl e ↦ rw e refl
  | inr e ↦ rw e refl
]

finish_report_panic :
    (env : Env) (core : OmsCore) (order_id ts : ℤ) (p : Progress) (n m : ℕ)
    → (finish_report env core order_id ts p n m).0.panic_accounts ≡ core.panic_accounts
unfolding finish_report finish
finish_report_panic env core order_id ts p n m =
    let orders = record p.orders { live = modify_live (finalise env.div) order_id p.orders.live } in
    elim (Option-cases (lookup order_id orders.live)) [
      | inl e ↦ rw (e, finish_report) refl
      | inr (live, e) ↦
          rw (e, finish_report)
            (close_if_ended_panic (record core { orders = orders }) order_id live
              (settle order_id live ts p n m (record core { orders = orders })))
    ]

process_report_for_order_panic :
    (env : Env) (core : OmsCore) (order_id : ℤ) (gw_id : ℕ) (report : OrderReport)
    → (process_report_for_order env core order_id gw_id report).0.panic_accounts
      ≡ core.panic_accounts
unfolding process_report_for_order
process_report_for_order_panic env core order_id gw_id report =
    elim (Option-cases (lookup order_id core.orders.live)) [
      | inl e ↦ rw (e, process_report_for_order) refl
      | inr (live, e) ↦
          let p = entries_progress env core live order_id gw_id report in
          elim (Bool-cases p.original_order_updated) [
            | inr idle ↦ rw (e, idle, process_report_for_order) refl
            | inl moved ↦
                rw (e, moved, process_report_for_order)
                  (finish_report_panic env core order_id report.update_timestamp p _ _)
          ]
    ]

keep_report_panic :
    (core : OmsCore) (gw_id : ℕ) (report : OrderReport)
    → (keep_report core gw_id report).panic_accounts ≡ core.panic_accounts
unfolding keep_report
keep_report_panic core gw_id report = elim (Bool-cases (report.exch_order_ref == "")) [
  | inl e ↦ rw e refl
  | inr e ↦ rw e refl
]

report_of_unknown_panic :
    (env : Env) (core : OmsCore) (gw_id : ℕ) (report : OrderReport)
    → (report_of_unknown env core gw_id report).0.panic_accounts ≡ core.panic_accounts
unfolding report_of_unknown adopt_external
report_of_unknown_panic env core gw_id report =
    elim (Bool-cases (core.handle_external_orders && not (report.exch_order_ref == ""))) [
      | inr e ↦ rw e (keep_report_panic core gw_id report)
      | inl e ↦ elim (Option-cases (known_external core.orders gw_id report.exch_order_ref)) [
        | inl h ↦
            rw (e, h, report_of_unknown)
              (process_report_for_order_panic env (adopt_external env core gw_id report)
                env.next_order_id gw_id report)
        | inr (order_id, h) ↦
            rw (e, h, report_of_unknown)
              (process_report_for_order_panic env core order_id gw_id report)
      ]
    ]

pub process_order_report_panic :
    (env : Env) (core : OmsCore) (report : OrderReport)
    → (process_order_report env core report).0.panic_accounts ≡ core.panic_accounts
unfolding process_order_report
process_order_report_panic env core report =
    elim (Option-cases (gw_of core.metadata report.exchange)) [
      | inl e ↦ rw (e, process_order_report) refl
      | inr (gw_id, e) ↦
          elim (Option-cases
            (resolve_order_id core.orders report.order_id gw_id report.exch_order_ref)) [
              | inl h ↦
                  rw (e, h, process_order_report) (report_of_unknown_panic env core gw_id report)
              | inr (order_id, h) ↦
                  rw (e, h, process_order_report)
                    (process_report_for_order_panic env core order_id gw_id report)
            ]
    ]

pub process_balance_update_panic :
    (env : Env) (core : OmsCore) (entries : List PositionReport)
    → (process_balance_update env core entries).0.panic_accounts ≡ core.panic_accounts
unfolding process_balance_update
process_balance_update_panic env core [] = refl
process_balance_update_panic env core (first ∷ rest) =
    elim (Option-cases (account_of core first.exch_account_code)) [
      | inl e ↦ rw (e, process_balance_update) refl
      | inr (account_id, e) ↦ rw (e, process_balance_update) refl
    ]

-- Failures and cancellations.
module _ (env : Env) (core : OmsCore) where
  pub process_gateway_send_failed_panic :
      (order_id : ℤ) (error_msg : String)
      → (process_gateway_send_failed env core order_id error_msg).0.panic_accounts
        ≡ core.panic_accounts
  unfolding process_gateway_send_failed fail_placing
  process_gateway_send_failed_panic order_id error_msg =
      elim (Option-cases (lookup order_id core.orders.live)) [
        | inl e ↦ rw (e, process_gateway_send_failed) refl
        | inr (live, e) ↦ elim (Bool-cases (is_in_terminal_state live)) [
          | inl ended ↦ rw (e, ended, process_gateway_send_failed) refl
          | inr going ↦ rw (e, going, process_gateway_send_failed) refl
        ]
      ]

  pub process_gateway_cancel_send_failed_panic :
      (order_id : ℤ) (error_msg : String)
      → (process_gateway_cancel_send_failed env core order_id error_msg).0.panic_accounts
        ≡ core.panic_accounts
  unfolding process_gateway_cancel_send_failed
  process_gateway_cancel_send_failed_panic order_id error_msg =
      elim (Option-cases (lookup order_id core.orders.live)) [
        | inl e ↦ rw (e, process_gateway_cancel_send_failed) refl
        | inr (live, e) ↦ elim (Bool-cases (is_in_terminal_state live)) [
          | inl ended ↦ rw (e, ended, process_gateway_cancel_send_failed) refl
          | inr going ↦ rw (e, going, process_gateway_cancel_send_failed) refl
        ]
      ]

  cancel_live_panic :
      (live : LiveOrder) (req : OrderCancelRequest)
      → (cancel_live env core live req).0.panic_accounts ≡ core.panic_accounts
  unfolding cancel_live send_cancel
  cancel_live_panic live req = elim (Bool-cases live.is_external) [
    | inl external ↦ rw external refl
    | inr own ↦ elim (Bool-cases (is_in_terminal_state live)) [
      | inl ended ↦ rw (own, ended) refl
      | inr going ↦ rw (own, going) refl
    ]
  ]

  pub process_cancel_panic :
      (req : OrderCancelRequest)
      → (process_cancel env core req).0.panic_accounts ≡ core.panic_accounts
  unfolding process_cancel
  process_cancel_panic req = elim (Bool-cases (validate_cancel_request req)) [
    | inr bad ↦ rw bad refl
    | inl fine ↦ elim (Option-cases (lookup req.order_id core.orders.live)) [
      | inl e ↦ rw (fine, e, process_cancel) refl
      | inr (live, e) ↦ rw (fine, e, process_cancel) (cancel_live_panic live req)
    ]
  ]
