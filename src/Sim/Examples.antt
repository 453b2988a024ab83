-- ===== src/Sim/Examples.antt =====
-- A book with two ask levels and an order for more than the first of them.
use zkbot.Prelude.{ℕ, pos, min_ℤ, ◌≡◌, true, String, List, [], ◌∷◌, arith}
use zkbot.Sim.Orders.{OrderRequest, SimOrder, PriceLevel, TickData, MatchResult}
use zkbot.Sim.Policy.{walk, first_come_first_served}
use zkbot.Sim.Core.{SimulatorCore, new, sim_order, on_new_order, update_orderbook}
use zkbot.Sim.Walk.{depth, fill_total, fill_total-walk, policies-IsSound}
use zkbot.Sim.Reachable.{IsSim, here, next, places, quotes, Reach-new-IsSim}

abbrev asks : List PriceLevel
asks = record { price = pos 100; qty = pos 3 } ∷ record { price = pos 101; qty = pos 4 } ∷ []

abbrev tick : TickData
tick = record {
  instrument_code = "BTC";
  original_timestamp = pos 1000;
  sell_price_levels = asks;
  buy_price_levels = [];
}

abbrev request : OrderRequest
request = record {
  correlation_id = pos 5;
  instrument = "BTC";
  buysell_type = pos 1;
  scaled_price = pos 101;
  scaled_qty = pos 5;
  timestamp = pos 1000;
}

abbrev same_id : ℕ → String
same_id n = "id"

abbrev order : SimOrder
order = sim_order request "x" (pos 1000)

abbrev matches : List MatchResult
matches = walk true (pos 101) (pos 1000) (pos 5) (pos 10) asks

fill_total-walk_example : fill_total matches ≡ min_ℤ (pos 5) (depth true (pos 101) asks)
fill_total-walk_example =
    fill_total-walk true (pos 101) (pos 1000) (pos 5) (pos 10) asks (omega arith)
      (omega arith, (omega arith, tt))

abbrev quoted : SimulatorCore
quoted = update_orderbook (new "sim") tick

abbrev placed : SimulatorCore
placed = (on_new_order first_come_first_served same_id quoted request (pos 1000)).0

Reach-new-IsSim_example : IsSim placed
Reach-new-IsSim_example =
    Reach-new-IsSim first_come_first_served same_id policies-IsSound.1 "sim" placed
      (next (next here (quotes tick)) (places request (pos 1000)))
