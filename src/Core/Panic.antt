-- ===== src/Core/Panic.antt =====
-- The accounts in panic, over any run of messages of oms_core_v2.rs.
use zkbot.Prelude.{
  ℤ, int_eq, ◌==◌, ◌≡◌, refl, ◌∙◌, ap, Bool, true, false, ◌||◌, contains, contains-set_insert,
  contains-set_remove, List, [], ◌∷◌, arith,
}
use zkbot.Orders.Types.{OrderRequest}
use zkbot.Core.Types.{
  Env, OmsCore, OrderCancelRequest, OmsMessage, place_order, batch_place_orders, cancel_order,
  batch_cancel_orders, gateway_order_report, balance_update, panic, dont_panic, cleanup,
  reload_config, position_recheck, recheck_order, recheck_cancel, gateway_send_failed,
  gateway_cancel_send_failed,
}
use zkbot.Core.Placing.{process_order}
use zkbot.Core.Failures.{process_cancel}
use zkbot.Core.Messages.{process_orders, process_cancels, process_message, later}
use zkbot.Core.PanicKeeps.{
  process_order_panic, process_order_report_panic, process_balance_update_panic,
  process_gateway_send_failed_panic, process_gateway_cancel_send_failed_panic, process_cancel_panic,
}

-- The core after a run of messages, each with what it reads from outside.
unfoldable pub run_messages : OmsCore → List (Env × OmsMessage) → OmsCore
run_messages core [] = core
run_messages core ((env, message) ∷ messages) =
    run_messages (process_message env core message).0 messages

-- Whether a message takes the account out of panic.
unfoldable pub lifts_panic : ℤ → OmsMessage → Bool
lifts_panic account_id (dont_panic lifted) = lifted == account_id
lifts_panic account_id (panic other) = false
lifts_panic account_id (place_order req) = false
lifts_panic account_id (batch_place_orders reqs) = false
lifts_panic account_id (cancel_order req) = false
lifts_panic account_id (batch_cancel_orders reqs) = false
lifts_panic account_id (gateway_order_report report) = false
lifts_panic account_id (balance_update entries) = false
lifts_panic account_id (cleanup ts_ms) = false
lifts_panic account_id reload_config = false
lifts_panic account_id position_recheck = false
lifts_panic account_id recheck_order = false
lifts_panic account_id recheck_cancel = false
lifts_panic account_id (gateway_send_failed order_id gw_id error_msg) = false
lifts_panic account_id (gateway_cancel_send_failed order_id gw_id error_msg) = false

unfoldable pub any_lifts_panic : ℤ → List (Env × OmsMessage) → Bool
any_lifts_panic account_id [] = false
any_lifts_panic account_id ((env, message) ∷ messages) =
    lifts_panic account_id message || any_lifts_panic account_id messages

process_orders_panic :
    (env : Env) (core : OmsCore) (reqs : List OrderRequest)
    → (process_orders env core reqs).0.panic_accounts ≡ core.panic_accounts
unfolding process_orders
process_orders_panic env core [] = refl
process_orders_panic env core (req ∷ reqs) =
    process_orders_panic (later env) (process_order env core req).0 reqs
    ∙ process_order_panic env req core

process_cancels_panic :
    (env : Env) (core : OmsCore) (reqs : List OrderCancelRequest)
    → (process_cancels env core reqs).0.panic_accounts ≡ core.panic_accounts
unfolding process_cancels
process_cancels_panic env core [] = refl
process_cancels_panic env core (req ∷ reqs) =
    process_cancels_panic (later env) (process_cancel env core req).0 reqs
    ∙ process_cancel_panic env core req

stays :
    {before after : List ℤ} (account_id : ℤ)
    → after ≡ before
    → contains account_id before ≡ true
    → contains account_id after ≡ true
stays account_id same h = ap (λ (x : List ℤ). contains account_id x) same ∙ h

process_message_panicked :
    (env : Env) (core : OmsCore) (account_id : ℤ) (message : OmsMessage)
    → lifts_panic account_id message ≡ false
    → contains account_id core.panic_accounts ≡ true
    → contains account_id (process_message env core message).0.panic_accounts ≡ true
unfolding process_message lifts_panic
process_message_panicked env core account_id (place_order req) l h =
    stays account_id (process_order_panic env req core) h
process_message_panicked env core account_id (batch_place_orders reqs) l h =
    stays account_id (process_orders_panic env core reqs) h
process_message_panicked env core account_id (cancel_order req) l h =
    stays account_id (process_cancel_panic env core req) h
process_message_panicked env core account_id (batch_cancel_orders reqs) l h =
    stays account_id (process_cancels_panic env core reqs) h
process_message_panicked env core account_id (gateway_order_report report) l h =
    stays account_id (process_order_report_panic env core report) h
process_message_panicked env core account_id (balance_update entries) l h =
    stays account_id (process_balance_update_panic env core entries) h
process_message_panicked env core account_id (panic other) l h =
    ground (arith, contains-set_insert other account_id core.panic_accounts, h)
process_message_panicked env core account_id (dont_panic lifted) l h =
    ground (arith, contains-set_remove lifted account_id core.panic_accounts, l, h)
process_message_panicked env core account_id (cleanup ts_ms) l h = h
process_message_panicked env core account_id reload_config l h = h
process_message_panicked env core account_id position_recheck l h = h
process_message_panicked env core account_id recheck_order l h = h
process_message_panicked env core account_id recheck_cancel l h = h
process_message_panicked env core account_id (gateway_send_failed order_id gw_id error_msg) l h =
    stays account_id (process_gateway_send_failed_panic env core order_id error_msg) h
process_message_panicked env core account_id (gateway_cancel_send_failed order_id gw_id error_msg) l
      h =
    stays account_id (process_gateway_cancel_send_failed_panic env core order_id error_msg) h

run_messages_panicked :
    (core : OmsCore) (account_id : ℤ) (messages : List (Env × OmsMessage))
    → any_lifts_panic account_id messages ≡ false
    → contains account_id core.panic_accounts ≡ true
    → contains account_id (run_messages core messages).panic_accounts ≡ true
unfolding run_messages any_lifts_panic
run_messages_panicked core account_id [] l h = h
run_messages_panicked core account_id ((env, message) ∷ messages) l h =
    run_messages_panicked (process_message env core message).0 account_id messages
      (ground (arith, l))
      (process_message_panicked env core account_id message (ground (arith, l)) h)

-- After a panic message of an account, and whatever messages follow, as long as none of them takes
-- the account out of panic, an order of the account changes nothing and makes no action.
pub process_order-run_messages :
    (env : Env) (core : OmsCore) (messages : List (Env × OmsMessage)) (now : Env)
    → (req : OrderRequest) → any_lifts_panic req.account_id messages ≡ false
    → process_order now (run_messages core ((env, panic req.account_id) ∷ messages)) req
      ≡ (run_messages core ((env, panic req.account_id) ∷ messages), [])
unfolding process_order process_message run_messages
process_order-run_messages env core messages now req l =
    let start = (process_message env core (panic req.account_id)).0 in
    let h : contains req.account_id (run_messages start messages).panic_accounts ≡ true =
      run_messages_panicked start req.account_id messages l
        (ground (arith, contains-set_insert req.account_id req.account_id core.panic_accounts)) in
    rw h (ground arith)
