-- ===== src/Core/Messages.antt =====
-- `OmsCoreV2::new` and `process_message` of oms_core_v2.rs.
use zkbot.Prelude.{
  ℕ, ◌+◌, ℤ, int_eq, nat_eq, Bool, HashMap, insert, set_insert, set_remove, List, [], ◌∷◌, ◌++◌,
  String,
}
use zkbot.Orders.Types.{OrderRequest}
use zkbot.Orders.Store
use zkbot.Reservation
use zkbot.Position
use zkbot.Balance
use zkbot.Balance.{init_account_reverse_map}
use zkbot.Metadata.{MetadataTables, RouteMeta}
use zkbot.Metadata.Build.{Confdata}
use zkbot.Metadata.Instruments.{rebuild_from_config}
use zkbot.Core.Types.{
  Env, OmsCore, OmsAction, OrderCancelRequest, OmsMessage, place_order, batch_place_orders,
  cancel_order, batch_cancel_orders, gateway_order_report, balance_update, panic, dont_panic,
  cleanup, reload_config, position_recheck, recheck_order, recheck_cancel, gateway_send_failed,
  gateway_cancel_send_failed,
}
use zkbot.Core.Placing.{process_order}
use zkbot.Core.Failures.{
  process_gateway_send_failed, process_gateway_cancel_send_failed, process_cancel,
}
use zkbot.Core.Incoming.{process_order_report, process_balance_update}

-- The accounts by the symbol of their exchange account; a later route overwrites an earlier one.
unfoldable pub reverse_map : HashMap ℤ RouteMeta → HashMap ℕ ℤ → HashMap ℕ ℤ
reverse_map [] m = m
reverse_map ((account_id, r) ∷ routes) m =
    reverse_map routes (insert r.exch_account_sym account_id m)

-- `metadata` is what `MetadataTables::from_confdata` builds from the configuration.
unfoldable pub new : MetadataTables → Bool → Bool → Bool → ℕ → OmsCore
unfolding reverse_map
new metadata use_time_emulation risk_check_enabled handle_external_orders max_cached_orders =
    record {
      metadata = metadata;
      orders = Store.new max_cached_orders use_time_emulation;
      reservations = Reservation.new;
      positions = Position.new;
      balances = init_account_reverse_map Balance.new (reverse_map metadata.route_by_account []);
      pending_reports = [];
      panic_accounts = [];
      use_time_emulation = use_time_emulation;
      risk_check_enabled = risk_check_enabled;
      handle_external_orders = handle_external_orders;
    }

-- `OmsCoreV2::reload_config`, which the service calls; the message of that name changes nothing.
unfoldable pub reload : (String → String) → OmsCore → Confdata → OmsCore
unfolding rebuild_from_config
reload upper core config = record core { metadata = rebuild_from_config upper core.metadata config }

-- The clock as it stands for the next request of a batch: a request reads it at most three times.
abbrev pub later : Env → Env
later env = record env { clock = λ i. env.clock (3 + i) }

-- The requests of a batch, one after the other, with the actions of all.
unfoldable pub process_orders : Env → OmsCore → List OrderRequest → OmsCore × List OmsAction
process_orders env core [] = (core, [])
process_orders env core (req ∷ reqs) =
    let (core1, actions) = process_order env core req in
    let (core2, more) = process_orders (later env) core1 reqs in (core2, actions ++ more)

unfoldable pub process_cancels : Env → OmsCore → List OrderCancelRequest → OmsCore × List OmsAction
process_cancels env core [] = (core, [])
process_cancels env core (req ∷ reqs) =
    let (core1, actions) = process_cancel env core req in
    let (core2, more) = process_cancels (later env) core1 reqs in (core2, actions ++ more)

-- The messages that the core leaves to the service around it, and the ones that are still to do in
-- the source, change nothing.
unfoldable pub process_message : Env → OmsCore → OmsMessage → OmsCore × List OmsAction
unfolding process_orders process_cancels
process_message env core (place_order req) = process_order env core req
process_message env core (batch_place_orders reqs) = process_orders env core reqs
process_message env core (cancel_order req) = process_cancel env core req
process_message env core (batch_cancel_orders reqs) = process_cancels env core reqs
process_message env core (gateway_order_report report) = process_order_report env core report
process_message env core (balance_update entries) = process_balance_update env core entries
process_message env core (panic account_id) =
    (record core { panic_accounts = set_insert account_id core.panic_accounts }, [])
process_message env core (dont_panic account_id) =
    (record core { panic_accounts = set_remove account_id core.panic_accounts }, [])
process_message env core (cleanup ts_ms) = (core, [])
process_message env core reload_config = (core, [])
process_message env core position_recheck = (core, [])
process_message env core recheck_order = (core, [])
process_message env core recheck_cancel = (core, [])
process_message env core (gateway_send_failed order_id gw_id error_msg) =
    process_gateway_send_failed env core order_id error_msg
process_message env core (gateway_cancel_send_failed order_id gw_id error_msg) =
    process_gateway_cancel_send_failed env core order_id error_msg
