-- ===== src/Sim/Policy.antt =====
-- rust/crates/zk-sim-core/src/match_policy.rs: the two ways to match an order with a tick.
use zkbot.Prelude.{
  ℤ, pos, ◌+ℤ◌, ◌-ℤ◌, leb_ℤ, min_ℤ, int_beq, Bool, false, Option, none, some, List, [], ◌∷◌,
  if◌then◌else◌,
}
use zkbot.Sim.Orders.{SimOrder, MatchResult, PriceLevel, TickData}

-- A `MatchPolicy`: what `match_order` gives for an order and a tick.
abbrev pub MatchPolicy : Type 0
MatchPolicy = SimOrder → Option TickData → List MatchResult

abbrev pub immediate : MatchPolicy
immediate order tick =
    record {
      trigger_ts = order.req.timestamp +ℤ pos 1;
      qty = order.remaining_qty;
      price = order.req.scaled_price;
      delay_ms = pos 0;
      ioc_cancel = false;
    }
    ∷ []

-- `BuySellType::BsBuy as i32`
abbrev pub bs_buy : ℤ
bs_buy = pos 1

-- Whether a level is within the limit of an order.
abbrev pub acceptable : Bool → ℤ → ℤ → Bool
acceptable is_buy limit_price price =
    if is_buy then leb_ℤ price limit_price else leb_ℤ limit_price price

-- The loop over the levels of one side of the book.
unfoldable pub walk : Bool → ℤ → ℤ → ℤ → ℤ → List PriceLevel → List MatchResult
walk is_buy limit_price ts remaining delay [] = []
walk is_buy limit_price ts remaining delay (level ∷ levels) =
    let fill_qty = min_ℤ remaining level.qty in
    let filled = walk is_buy limit_price ts (remaining -ℤ fill_qty) (delay +ℤ pos 10) levels in
    let passed = walk is_buy limit_price ts remaining delay levels in
    if leb_ℤ remaining (pos 0)
    then []
    else if acceptable is_buy limit_price level.price
    then record {
      trigger_ts = ts;
      qty = fill_qty;
      price = level.price;
      delay_ms = delay;
      ioc_cancel = false;
    }
      ∷ filled
    else passed

unfoldable pub first_come_first_served : MatchPolicy
first_come_first_served order none = []
first_come_first_served order (some tick) =
    let is_buy = int_beq order.req.buysell_type bs_buy in
    walk is_buy order.req.scaled_price tick.original_timestamp order.remaining_qty (pos 10)
      (if is_buy then tick.sell_price_levels else tick.buy_price_levels)
