-- ===== src/Sim/Core.antt =====
-- `SimulatorCore` of rust/crates/zk-sim-core/src/simulator.rs. The match policy and the source of
-- ids are parameters; `ids` counts the calls of `next_id`.
-- `on_tick` visits the orders of a hash map: the order of the visit is its argument `visit`.
use zkbot.Prelude.{
  ℕ, ◌+◌, suc, ℤ, pos, ◌+ℤ◌, leb_ℤ, ltb_ℤ, int_beq, int_eq, string_eq, ◌==◌, Bool, true, false, not,
  ◌&&◌, ◌||◌, String, Option, none, some, unwrap_or, HashMap, lookup, insert, List, [], ◌∷◌, ◌++◌,
  length, if◌then◌else◌,
}
use zkbot.Sim.Orders.{OrderRequest, SimOrder, MatchResult, TickData, SimResult}
use zkbot.Sim.Policy.{MatchPolicy}
use zkbot.Sim.Reports.{
  make_rejected_report, make_booked_report, make_cancelled_report, apply_match, apply_matches,
}

pub record SimulatorCore : Type 0 where
  pub order_cache : HashMap ℤ SimOrder
  pub orderbook_cache : HashMap String TickData
  pub exch_name : String
  pub ids : ℕ

abbrev pub new : String → SimulatorCore
new exch_name = record { order_cache = []; orderbook_cache = []; exch_name = exch_name; ids = 0 }

unfoldable pub validate : OrderRequest → Bool
validate req = ltb_ℤ (pos 0) req.scaled_qty && leb_ℤ (pos 0) req.scaled_price

abbrev pub sim_order : OrderRequest → String → ℤ → SimOrder
sim_order req exch_id ts = record {
  req = req;
  exch_order_id = exch_id;
  filled_qty = pos 0;
  remaining_qty = req.scaled_qty;
  update_ts = ts;
}

abbrev pub put_order : SimulatorCore → SimOrder → ℕ → SimulatorCore
put_order s order ids = record s {
  order_cache = insert order.req.correlation_id order s.order_cache;
  ids = ids;
}

-- What a forced match may answer instead of results.
pub data ForceError : Type 0 where
  not_found no_remaining invalid_fill_qty : ForceError

pub data ForceResult : Type 0 where
  forced : SimResult → ForceResult
  refused : ForceError → ForceResult

unfoldable pub update_orderbook : SimulatorCore → TickData → SimulatorCore
update_orderbook s tick = record s {
  orderbook_cache = insert tick.instrument_code tick s.orderbook_cache;
}

unfoldable pub on_cancel : SimulatorCore → ℤ → ℤ → SimulatorCore × List SimResult
on_cancel s order_id ts = elim (lookup order_id s.order_cache) [
  | none ↦ (s, [])
  | some order ↦
      let cancelled = record order { remaining_qty = pos 0; update_ts = ts +ℤ pos 1 } in
      if ltb_ℤ (pos 0) order.remaining_qty
      then (
        record s { order_cache = insert order_id cancelled s.order_cache },
        record { ts_ms = ts +ℤ pos 1; order_report = make_cancelled_report cancelled (ts +ℤ pos 1) }
            ∷ [],
      )
      else (s, [])
]

abbrev pub forced_match : ℤ → ℤ → ℤ → MatchResult
forced_match ts qty price = record {
  trigger_ts = ts;
  qty = qty;
  price = price;
  delay_ms = pos 0;
  ioc_cancel = false;
}

unfoldable pub clear_orders : SimulatorCore → SimulatorCore
clear_orders s = record s { order_cache = []; orderbook_cache = [] }

-- The ids of the orders that a tick may match.
unfoldable pub active_ids : String → HashMap ℤ SimOrder → List ℤ
active_ids sym [] = []
active_ids sym ((k, order) ∷ orders) =
    let rest = active_ids sym orders in
    if order.req.instrument == sym && ltb_ℤ (pos 0) order.remaining_qty
    then order.req.correlation_id ∷ rest
    else rest

module _ (policy : MatchPolicy) (uuid : ℕ → String) where
  unfoldable pub on_new_order_inner :
      SimulatorCore → OrderRequest → ℤ → Bool → SimulatorCore × List SimResult
  on_new_order_inner s req ts book_only =
      if not (validate req)
      then (
        record s { ids = suc s.ids },
        record {
          ts_ms = ts;
          order_report = make_rejected_report req.correlation_id (uuid s.ids) ts;
        }
            ∷ [],
      )
      else let order = sim_order req (uuid s.ids) ts in
        let matches =
          if book_only then [] else policy order (lookup req.instrument s.orderbook_cache) in
        let (order', results) = apply_matches uuid order matches true (suc s.ids) in
        (put_order s order' (suc s.ids + length results), make_booked_report order ts ∷ results)

  unfoldable pub on_new_order : SimulatorCore → OrderRequest → ℤ → SimulatorCore × List SimResult
  on_new_order s req ts = on_new_order_inner s req ts false

  unfoldable pub on_new_order_book_only :
      SimulatorCore → OrderRequest → ℤ → SimulatorCore × List SimResult
  on_new_order_book_only s req ts = on_new_order_inner s req ts true

  -- One turn of the loop of `on_tick`; an id that is not there panics in the source.
  unfoldable pub match_one : SimulatorCore → TickData → ℤ → SimulatorCore × List SimResult
  match_one s tick id = elim (lookup id s.order_cache) [
    | none ↦ (s, [])
    | some order ↦
        let (order', results) = apply_matches uuid order (policy order (some tick)) false s.ids in
        (
          record s { order_cache = insert id order' s.order_cache; ids = s.ids + length results },
          results,
        )
  ]

  unfoldable pub match_all : SimulatorCore → TickData → List ℤ → SimulatorCore × List SimResult
  match_all s tick [] = (s, [])
  match_all s tick (id ∷ ids) =
      let (s', results) = match_one s tick id in
      let (s'', more) = match_all (match_one s tick id).0 tick ids in (s'', results ++ more)

  unfoldable pub on_tick :
      (List ℤ → List ℤ) → SimulatorCore → TickData → SimulatorCore × List SimResult
  on_tick visit s tick =
      match_all (update_orderbook s tick) tick
        (visit (active_ids tick.instrument_code s.order_cache))

  unfoldable pub force_match_order :
      SimulatorCore → ℤ → Option ℤ → Option ℤ → ℤ → SimulatorCore × ForceResult
  force_match_order s order_id fill_qty fill_price ts = elim (lookup order_id s.order_cache) [
    | none ↦ (s, refused not_found)
    | some order ↦
        let qty = unwrap_or fill_qty order.remaining_qty in
        let m = forced_match ts qty (unwrap_or fill_price order.req.scaled_price) in
        let (order', result) =
          apply_match order m (int_beq order.filled_qty (pos 0)) (uuid s.ids) in
        if leb_ℤ order.remaining_qty (pos 0)
        then (s, refused no_remaining)
        else if leb_ℤ qty (pos 0) || ltb_ℤ order.remaining_qty qty
        then (s, refused invalid_fill_qty)
        else (
          record s { order_cache = insert order_id order' s.order_cache; ids = suc s.ids },
          forced result,
        )
  ]
