-- ===== src/Core/Incoming.antt =====
-- `process_order_report` and `process_balance_update` of oms_core_v2.rs: a report finds its order,
-- adopts an external one or is kept; a balance update overwrites balances and positions.
use zkbot.Prelude.{
  ℕ, ℤ, pos, ◌-ℤ◌, int_beq, ◌==◌, int_eq, nat_eq, pair_eq, string_eq, Bool, true, false, not, ◌&&◌,
  ◌||◌, Option, none, some, unwrap_or, String, HashMap, lookup, insert, List, [], ◌∷◌, ◌++◌,
  if◌then◌else◌,
}
use zkbot.Intern.{intern, lookup_id}
use zkbot.Orders.Store.{OrderStore, ref_key, resolve_order_id}
use zkbot.Orders.Closing.{create_external_order}
use zkbot.Position.{
  PositionStore, position_key, get_or_create_position, set_position, update_reconcile_status,
}
use zkbot.Balance.{
  BalanceState, BalanceStore, resolve_account_id, get_or_create_balance, set_balance,
  set_unknown_balance, remove_unknown_balance,
}
use zkbot.Metadata.{
  MetadataTables, RouteMeta, and_then, asset_id_of, route, resolve_instrument_by_gw, str_resolve,
}
use zkbot.Core.Types.{
  Env, external_source, OmsCore, OmsAction, OrderReport, PositionReport, publish_balance_update,
  publish_position_update, persist_balance, persist_position, spot_instrument_type, ls_short,
}
use zkbot.Core.Settle.{process_report_for_order}

unfoldable pub gw_of : MetadataTables → String → Option ℕ
gw_of m gw_key = and_then (lookup_id m.strings gw_key) (λ sym. lookup sym m.gw_by_key)

-- The id of the external order that a gateway's reference already stands for.
unfoldable pub known_external : OrderStore → ℕ → String → Option ℤ
known_external s gw_id exch_ref =
    and_then (lookup_id s.dyn_strings exch_ref)
      (λ ref_id. lookup (ref_key gw_id ref_id) s.external_order_ids)

-- An external order is created under the next number of the id counter.
unfoldable pub adopt_external : Env → OmsCore → ℕ → OrderReport → OmsCore
adopt_external env core gw_id report =
    let (strings, source_sym) =
      intern core.metadata.strings (env.text (external_source report.exchange)) in
    record core {
      metadata = record core.metadata { strings = strings };
      orders =
          create_external_order core.orders env.next_order_id gw_id report.exch_order_ref
            report.account_id report.update_timestamp source_sym;
    }

-- A report that names a reference is kept with the others of that reference.
unfoldable pub keep_report : OmsCore → ℕ → OrderReport → OmsCore
keep_report core gw_id report =
    if report.exch_order_ref == ""
    then core
    else (let (dyn_strings, ref_id) = intern core.orders.dyn_strings report.exch_order_ref in
        let key = ref_key gw_id ref_id in
        record core {
          orders = record core.orders { dyn_strings = dyn_strings };
          pending_reports =
              insert key (unwrap_or (lookup key core.pending_reports) [] ++ (report ∷ []))
                core.pending_reports;
        })

-- A report whose order is not known.
unfoldable pub report_of_unknown : Env → OmsCore → ℕ → OrderReport → OmsCore × List OmsAction
unfolding known_external adopt_external keep_report
report_of_unknown env core gw_id report =
    if core.handle_external_orders && not (report.exch_order_ref == "")
    then elim (known_external core.orders gw_id report.exch_order_ref) [
      | some order_id ↦ process_report_for_order env core order_id gw_id report
      | none ↦
          process_report_for_order env (adopt_external env core gw_id report) env.next_order_id
            gw_id report
    ]
    else (keep_report core gw_id report, [])

unfoldable pub process_order_report : Env → OmsCore → OrderReport → OmsCore × List OmsAction
unfolding gw_of report_of_unknown
process_order_report env core report = elim (gw_of core.metadata report.exchange) [
  | none ↦ (core, [])
  | some gw_id ↦ elim (resolve_order_id core.orders report.order_id gw_id report.exch_order_ref) [
    | some order_id ↦ process_report_for_order env core order_id gw_id report
    | none ↦ report_of_unknown env core gw_id report
  ]
]

-- The account whose route has this exchange account; the source takes the first one of the map.
unfoldable pub account_of_route : MetadataTables → HashMap ℤ RouteMeta → String → Option ℤ
account_of_route m [] code = none
account_of_route m ((account_id, r) ∷ routes) code =
    if str_resolve m r.exch_account_sym == code
    then some account_id
    else account_of_route m routes code

unfoldable pub account_of : OmsCore → String → Option ℤ
unfolding account_of_route
account_of core code =
    elim (and_then (lookup_id core.metadata.strings code)
      (λ sym. resolve_account_id core.balances sym)) [
        | some account_id ↦ some account_id
        | none ↦ account_of_route core.metadata core.metadata.route_by_account code
      ]

abbrev pub is_spot : PositionReport → Bool
is_spot e = int_beq e.instrument_type spot_instrument_type

abbrev pub reported_balance : ℤ → PositionReport → ℤ → BalanceState
reported_balance account_id e ts = record {
  account_id = account_id;
  asset = e.instrument_code;
  total_qty = e.qty;
  frozen_qty = e.qty -ℤ e.avail_qty;
  avail_qty = e.avail_qty;
  sync_timestamp = ts;
  update_timestamp = e.update_timestamp;
  is_from_exch = true;
  exch_data_raw = e.message_raw;
}

-- A spot entry goes to the balances, under the asset's id or, where there is none, its name.
unfoldable pub balance_entry :
    MetadataTables → ℤ → ℤ → PositionReport → BalanceStore → BalanceStore × List OmsAction
balance_entry m account_id ts e s = elim (asset_id_of m e.instrument_code) [
  | some asset_id ↦
      let cleared = remove_unknown_balance s account_id e.instrument_code in
      let snap = get_or_create_balance cleared account_id asset_id in
      (
        set_balance cleared account_id asset_id (record snap {
          symbol_exch = some e.instrument_code;
          balance_state = reported_balance account_id e ts;
          exch_data_raw = e.message_raw;
          sync_ts = ts;
        }),
        persist_balance account_id asset_id ∷ [],
      )
  | none ↦ (
    set_unknown_balance s account_id e.instrument_code (record {
      account_id = account_id;
      asset = e.instrument_code;
      symbol_exch = some e.instrument_code;
      balance_state = reported_balance account_id e ts;
      exch_data_raw = e.message_raw;
      sync_ts = ts;
    }),
    [],
  )
]

unfoldable pub balance_entries :
    MetadataTables → ℤ → ℤ → List PositionReport → BalanceStore → BalanceStore × List OmsAction
unfolding balance_entry
balance_entries m account_id ts [] s = (s, [])
balance_entries m account_id ts (e ∷ es) s =
    let (s1, actions) = if is_spot e then balance_entry m account_id ts e s else (s, []) in
    let (s2, more) = balance_entries m account_id ts es s1 in (s2, actions ++ more)

-- The managed position takes the exchange's figures on the first synchronisation.
unfoldable pub seed_position : ℤ → ℕ → ℤ → PositionReport → PositionStore → PositionStore
seed_position account_id instrument_id ts e s =
    let is_short = int_beq e.long_short_type ls_short in
    let p = get_or_create_position s account_id instrument_id e.instrument_type is_short in
    let should_seed : Bool = elim (lookup (position_key account_id instrument_id) s.managed) [
      | none ↦ true
      | some known ↦ int_beq known.last_exch_sync_ts (pos 0)
    ] in
    if should_seed
    then set_position s account_id instrument_id (record p {
      qty_total = e.qty;
      qty_available = e.avail_qty;
      qty_frozen = e.qty -ℤ e.avail_qty;
      is_short = is_short;
      last_exch_sync_ts = ts;
    })
    else s

unfoldable pub position_entry :
    MetadataTables → ℤ → ℤ → PositionReport → PositionStore → PositionStore × List OmsAction
unfolding seed_position
position_entry m account_id ts e s =
    elim (and_then (route m account_id)
      (λ r. resolve_instrument_by_gw m r.gw_id e.instrument_code)) [
        | none ↦ (s, [])
        | some i ↦
            let reported = record s {
              exch = insert (position_key account_id i.instrument_id) e.qty s.exch;
            } in
            (
              update_reconcile_status (seed_position account_id i.instrument_id ts e reported)
                  account_id i.instrument_id ts,
              persist_position account_id i.instrument_id ∷ [],
            )
      ]

unfoldable pub position_entries :
    MetadataTables → ℤ → ℤ → List PositionReport → PositionStore → PositionStore × List OmsAction
unfolding position_entry
position_entries m account_id ts [] s = (s, [])
position_entries m account_id ts (e ∷ es) s =
    let (s1, actions) = if is_spot e then (s, []) else position_entry m account_id ts e s in
    let (s2, more) = position_entries m account_id ts es s1 in (s2, actions ++ more)

unfoldable pub any_spot : List PositionReport → Bool
any_spot [] = false
any_spot (e ∷ es) = is_spot e || any_spot es

unfoldable pub any_nonspot : List PositionReport → Bool
any_nonspot [] = false
any_nonspot (e ∷ es) = not (is_spot e) || any_nonspot es

-- The account of the first entry stands for all of them.
unfoldable pub process_balance_update :
    Env → OmsCore → List PositionReport → OmsCore × List OmsAction
unfolding account_of balance_entries position_entries any_spot any_nonspot
process_balance_update env core [] = (core, [])
process_balance_update env core (first ∷ rest) =
    let ts = env.clock 0 in
    let entries = first ∷ rest in
    elim (account_of core first.exch_account_code) [
      | none ↦ (core, [])
      | some account_id ↦
          let (balances, spot) =
            balance_entries core.metadata account_id ts entries core.balances in
          let (positions, nonspot) =
            position_entries core.metadata account_id ts entries core.positions in
          (
            record core { balances = balances; positions = positions },
            spot
                ++ (if any_spot entries then publish_balance_update account_id ∷ [] else [])
                ++ nonspot
                ++ (if any_nonspot entries then publish_position_update account_id ∷ [] else []),
          )
    ]
