-- ===== src/Core/Recovery.antt =====
-- What `init_state` of oms_core_v2.rs gives back of a saved order.
use zkbot.Prelude.{
  ℕ, ℤ, pos, int_beq, int_eq, nat_eq, string_eq, ◌==◌, ◌≡◌, refl, ◌∙◌, ap, subst, inl, inr, Bool,
  false, ◌&&◌, ◌||◌, Option, none, some, is_none, lookup, lookup-insert, lookup-insert_self,
  Bool-cases, List, [], ◌∷◌, ◌++◌, arith,
}
use zkbot.Orders.Types.{LiveOrder, OrderDetailLog, is_in_terminal_state}
use zkbot.Orders.Store.{OrderStore, init_order, open_order, put_order, link_ref}
use zkbot.Balance.{ExchBalanceSnapshot}
use zkbot.Core.Types.{OmsCore}
use zkbot.Core.Start.{
  OmsOrder, OmsManagedPosition, saved_source_sym, saved_ref_id, backfilled, saved_live,
  saved_detail, convert_v1_order, init_orders, init_state,
}

-- Whether an order of the list has the id.
unfoldable pub has_order : ℤ → List OmsOrder → Bool
has_order order_id [] = false
has_order order_id (v1 ∷ orders) = v1.order_id == order_id || has_order order_id orders

-- The store has the order under its id, with the state and the log that were saved.
pub record IsRestored (v1 : OmsOrder) (s : OrderStore) : Type 0 where
  pub live : LiveOrder
  pub found : lookup v1.order_id s.live ≡ some live
  pub order_status : live.order_status ≡ v1.order_state.order_status
  pub account_id : live.account_id ≡ v1.account_id
  pub price : live.price ≡ v1.order_state.price
  pub qty : live.qty ≡ v1.order_state.qty
  pub filled_qty : live.filled_qty ≡ v1.order_state.filled_qty
  pub filled_avg_price : live.filled_avg_price ≡ v1.order_state.filled_avg_price
  pub log : OrderDetailLog
  pub logged : lookup v1.order_id s.detail ≡ some log
  pub log_id : log.order_id ≡ v1.order_id
  pub original_req : log.original_req ≡ v1.oms_req
  pub last_gw_req : log.last_gw_req ≡ v1.gw_req
  pub cancel_req : log.cancel_req ≡ v1.cancel_req
  pub trades : log.trades ≡ v1.trades
  pub inferred_trades : log.inferred_trades ≡ v1.order_inferred_trades
  pub exec_msgs : log.exec_msgs ≡ v1.exec_msgs
  pub fees : log.fees ≡ v1.fees

link_ref_live :
    (s : OrderStore) (gw_id : ℕ) (ref_id : Option ℕ) (order_id : ℤ)
    → ((link_ref s gw_id ref_id order_id).live ≡ s.live)
      × ((link_ref s gw_id ref_id order_id).detail ≡ s.detail)
unfolding link_ref
link_ref_live s gw_id none order_id = (refl, refl)
link_ref_live s gw_id (some ref_id) order_id = (refl, refl)

init_order_others :
    (s : OrderStore) (live : LiveOrder) (detail : OrderDetailLog) (id : ℤ)
    → (live.order_id == id) ≡ false
    → (lookup id (init_order s live detail).live ≡ lookup id s.live)
      × (lookup id (init_order s live detail).detail ≡ lookup id s.detail)
unfolding init_order put_order open_order
init_order_others s live detail id other =
    let kept = link_ref_live s live.gw_id live.exch_order_ref_id live.order_id in
    let opened = open_order s live.account_id live.order_id in
    let kept' = link_ref_live opened live.gw_id live.exch_order_ref_id live.order_id in
    elim (Bool-cases (int_beq live.order_id (pos 0))) [
      | inl zero ↦ rw zero (refl, refl)
      | inr some_id ↦ elim (Bool-cases (is_in_terminal_state live)) [
        | inl ended ↦
            rw (some_id, ended)
              (
                lookup-insert live.order_id id live _ ∙ rw other (rw kept.0 refl),
                lookup-insert live.order_id id detail _ ∙ rw other (rw kept.1 refl),
              )
        | inr going ↦
            rw (some_id, going)
              (
                lookup-insert live.order_id id live _ ∙ rw other (rw kept'.0 refl),
                lookup-insert live.order_id id detail _ ∙ rw other (rw kept'.1 refl),
              )
      ]
    ]

init_order_self :
    (s : OrderStore) (live : LiveOrder) (detail : OrderDetailLog)
    → int_beq live.order_id (pos 0) ≡ false
    → (lookup live.order_id (init_order s live detail).live ≡ some live)
      × (lookup live.order_id (init_order s live detail).detail ≡ some detail)
unfolding init_order put_order
init_order_self s live detail some_id =
    rw some_id (lookup-insert_self live.order_id live _, lookup-insert_self live.order_id detail _)

backfilled_state :
    (l : LiveOrder)
    → ((backfilled l).order_id ≡ l.order_id)
      × ((backfilled l).order_status ≡ l.order_status)
      × ((backfilled l).account_id ≡ l.account_id)
      × ((backfilled l).price ≡ l.price)
      × ((backfilled l).qty ≡ l.qty)
      × ((backfilled l).filled_qty ≡ l.filled_qty)
      × ((backfilled l).filled_avg_price ≡ l.filled_avg_price)
unfolding backfilled
backfilled_state l = elim (Bool-cases (is_in_terminal_state l && is_none l.terminal_at)) [
  | inl e ↦ rw e (refl, refl, refl, refl, refl, refl, refl)
  | inr e ↦ rw e (refl, refl, refl, refl, refl, refl, refl)
]

init_orders-IsRestored :
    (core : OmsCore) (v1 : OmsOrder) (orders : List OmsOrder)
    → has_order v1.order_id orders ≡ false
    → IsRestored v1 core.orders
    → IsRestored v1 (init_orders core orders).orders
unfolding init_orders has_order convert_v1_order
init_orders-IsRestored core v1 [] none_left r = r
init_orders-IsRestored core v1 (w ∷ orders) none_left r =
    let converted = convert_v1_order core w in
    let kept = init_order_others converted.0.orders converted.1.0 converted.1.1 v1.order_id (
      ground (
        arith,
        none_left,
        (backfilled_state (
            saved_live core.metadata
              (saved_source_sym core.metadata.strings w.order_state.source_id).1
              (saved_ref_id core.orders.dyn_strings w.exch_order_ref).1 w)).0,
      )) in
    init_orders-IsRestored
      (record converted.0 { orders = init_order converted.0.orders converted.1.0 converted.1.1 }) v1
      orders (ground (arith, none_left))
      (record {
        live = r.live;
        found = kept.0 ∙ r.found;
        order_status = r.order_status;
        account_id = r.account_id;
        price = r.price;
        qty = r.qty;
        filled_qty = r.filled_qty;
        filled_avg_price = r.filled_avg_price;
        log = r.log;
        logged = kept.1 ∙ r.logged;
        log_id = r.log_id;
        original_req = r.original_req;
        last_gw_req = r.last_gw_req;
        cancel_req = r.cancel_req;
        trades = r.trades;
        inferred_trades = r.inferred_trades;
        exec_msgs = r.exec_msgs;
        fees = r.fees;
      })

first-IsRestored :
    (core : OmsCore) (v1 : OmsOrder)
    → int_beq v1.order_id (pos 0) ≡ false
    → IsRestored v1 (init_orders core (v1 ∷ [])).orders
unfolding init_orders convert_v1_order
first-IsRestored core v1 some_id =
    let (source, ref_id) : ℕ × Option ℕ = (
      (saved_source_sym core.metadata.strings v1.order_state.source_id).1,
      (saved_ref_id core.orders.dyn_strings v1.exch_order_ref).1,
    ) in
    let l = saved_live core.metadata source ref_id v1 in
    let same = backfilled_state l in
    let started = (init_orders core (v1 ∷ [])).orders in
    let put =
      init_order_self (convert_v1_order core v1).0.orders (backfilled l) (saved_detail v1)
        (ap (λ x. int_beq x (pos 0)) same.0 ∙ some_id) in
    record {
      live = backfilled l;
      found = subst (λ x. lookup x started.live ≡ some (backfilled l)) same.0 put.0;
      order_status = same.1;
      account_id = same.2;
      price = same.3;
      qty = same.4;
      filled_qty = same.5;
      filled_avg_price = same.6;
      log = saved_detail v1;
      logged = subst (λ x. lookup x started.detail ≡ some (saved_detail v1)) same.0 put.1;
      log_id = refl;
      original_req = refl;
      last_gw_req = refl;
      cancel_req = refl;
      trades = refl;
      inferred_trades = refl;
      exec_msgs = refl;
      fees = refl;
    }

init_orders-++ :
    (before : List OmsOrder) (core : OmsCore) (after : List OmsOrder)
    → init_orders core (before ++ after) ≡ init_orders (init_orders core before) after
unfolding init_orders convert_v1_order
init_orders-++ [] core after = refl
init_orders-++ (v1 ∷ before) core after = init_orders-++ before _ after

-- After a start, an order that was saved with an id other than 0 is in the store, with the status,
-- the account, the price and the quantities that were saved, and with a log whose requests, trades,
-- inferred trades, execution messages and fees are those that were saved, if no order that was saved
-- after it has the same id.
pub init_state-IsRestored :
    (core : OmsCore) (before : List OmsOrder) (v1 : OmsOrder) (after : List OmsOrder)
    → (positions : List OmsManagedPosition) (balances : List ExchBalanceSnapshot)
    → int_beq v1.order_id (pos 0) ≡ false
    → has_order v1.order_id after ≡ false
    → IsRestored v1 (init_state core (before ++ (v1 ∷ after)) positions balances).orders
unfolding init_state init_orders
init_state-IsRestored core before v1 after positions balances some_id last =
    rw (init_orders-++ before core (v1 ∷ after)) (
      init_orders-IsRestored (init_orders (init_orders core before) (v1 ∷ [])) v1 after last
        (first-IsRestored (init_orders core before) v1 some_id))
