-- ===== src/Sim/Times.antt =====
-- The times of the results of the simulator.
use zkbot.Prelude.{
  ℕ, suc, ℤ, pos, ◌+ℤ◌, ◌-ℤ◌, ◌<ℤ◌, leb_ℤ, max_ℤ_cases, lookup, string_eq, inl, inr, Bool, true,
  String, List, [], ◌∷◌, int_laws, Bool-cases,
}
use zkbot.Sim.Orders.{OrderRequest, SimOrder, MatchResult, SimResult}
use zkbot.Sim.Policy.{MatchPolicy}
use zkbot.Sim.Reports.{match_ts, matched, apply_match, apply_matches}
use zkbot.Sim.Core.{SimulatorCore, sim_order, validate, on_new_order, on_new_order_inner}

-- The times of the results rise strictly, from above `start`.
unfoldable pub IsRising : ℤ → List SimResult → Type 0
IsRising start [] = Unit {0}
IsRising start (r ∷ rs) = (start <ℤ r.ts_ms) × IsRising r.ts_ms rs

later : (o : SimOrder) (m : MatchResult) → o.update_ts <ℤ match_ts o m
later o m = omega (int_laws, max_ℤ_cases (m.trigger_ts +ℤ m.delay_ms) (o.update_ts +ℤ pos 1))

module _ (uuid : ℕ → String) where
  apply_matches-IsRising :
      (o : SimOrder) (ms : List MatchResult) (linkage : Bool) (n : ℕ)
      → IsRising o.update_ts (apply_matches uuid o ms linkage n).1
  unfolding apply_matches apply_match IsRising
  apply_matches-IsRising o [] linkage n = tt
  apply_matches-IsRising o (m ∷ ms) linkage n =
      let rest = apply_matches-IsRising (matched o m) ms linkage (suc n) in
      elim (Bool-cases (leb_ℤ (o.remaining_qty -ℤ m.qty) (pos 0))) [
        | inl e ↦ rw e (later o m, tt)
        | inr e ↦ rw e (later o m, rest)
      ]

-- Whatever the policy answers, the results of a new order have strictly rising times, none of them
-- before the time of the order.
on_new_order-IsRising :
    (policy : MatchPolicy) (uuid : ℕ → String) (s : SimulatorCore) (req : OrderRequest) (ts : ℤ)
    → IsRising (ts -ℤ pos 1) (on_new_order policy uuid s req ts).1
unfolding on_new_order on_new_order_inner IsRising
on_new_order-IsRising policy uuid s req ts =
    let order = sim_order req (uuid s.ids) ts in
    let matches = policy order (lookup req.instrument s.orderbook_cache) in
    let start : ts -ℤ pos 1 <ℤ ts = omega int_laws in
    elim (Bool-cases (validate req)) [
      | inr e ↦ rw e (start, tt)
      | inl e ↦ rw e (start, apply_matches-IsRising uuid order matches true (suc s.ids))
    ]
