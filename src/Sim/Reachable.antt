-- ===== src/Sim/Reachable.antt =====
-- Every store that the simulator's operations reach holds orders that are not filled beyond their
-- quantity.
use zkbot.Prelude.{
  ℕ, suc, ℤ, pos, ◌+ℤ◌, ◌≤ℤ◌, leb_ℤ, ltb_ℤ, int_eq, string_eq, ◌==◌, ==_iff, ◌≡◌, refl, inl, inr,
  Bool, true, false, ◌||◌, String, Option, some, unwrap_or, lookup, insert, lookup-insert, List, [],
  ◌∷◌, if◌then◌else◌, arith, int_laws, Bool-cases, Option-cases,
}
use zkbot.Sim.Orders.{OrderRequest, SimOrder, MatchResult, TickData}
use zkbot.Sim.Policy.{MatchPolicy}
use zkbot.Sim.Reports.{apply_match, apply_matches}
use zkbot.Sim.Core.{
  SimulatorCore, new, sim_order, put_order, validate, update_orderbook, on_cancel, clear_orders,
  active_ids, forced_match, on_new_order, on_new_order_inner, on_new_order_book_only, match_one,
  match_all, on_tick, force_match_order,
}
use zkbot.Sim.Walk.{IsSound, Fits}
use zkbot.Sim.Conserves.{
  IsSimOrder, apply_matches_conserves, apply_matches-IsSimOrder, apply_match-IsSimOrder,
}

-- Each order stands under its own id, and is not filled beyond its quantity.
pub record IsSim (s : SimulatorCore) : Type 0 where
  pub own_id :
      (id : ℤ) (o : SimOrder) → lookup id s.order_cache ≡ some o → o.req.correlation_id ≡ id
  pub each : (id : ℤ) (o : SimOrder) → lookup id s.order_cache ≡ some o → IsSimOrder o

insert-IsSim :
    (s : SimulatorCore) (id : ℤ) (o : SimOrder) (ids : ℕ)
    → o.req.correlation_id ≡ id
    → IsSimOrder o
    → IsSim s
    → IsSim (record s { order_cache = insert id o s.order_cache; ids = ids })
insert-IsSim s id o ids own v w = record {
  own_id = λ j x h. ground (arith, lookup-insert id j o s.order_cache, w.own_id j x, ==_iff id j);
  each = λ j x h. elim (Bool-cases (id == j)) [
    | inl e ↦ ground (arith, lookup-insert id j o s.order_cache, v)
    | inr e ↦ ground (arith, lookup-insert id j o s.order_cache, w.each j x)
  ];
}

on_cancel-IsSim : (s : SimulatorCore) (id ts : ℤ) → IsSim s → IsSim (on_cancel s id ts).0
unfolding on_cancel
on_cancel-IsSim s id ts v = elim (Option-cases (lookup id s.order_cache)) [
  | inl e ↦ rw (e, on_cancel) v
  | inr (o, e) ↦ elim (Bool-cases (ltb_ℤ (pos 0) o.remaining_qty)) [
    | inr b ↦ rw (e, on_cancel, b) v
    | inl b ↦
        rw (e, on_cancel, b)
          (insert-IsSim s id (record o { remaining_qty = pos 0; update_ts = ts +ℤ pos 1 }) s.ids
            (v.own_id id o e)
            (record {
              remaining_pos = omega arith;
              no_overfill =
                  omega (int_laws, (v.each id o e).no_overfill, (v.each id o e).remaining_pos);
            })
            v)
  ]
]

booked-Fits :
    (book_only : Bool) (remaining : ℤ) (ms : List MatchResult)
    → Fits remaining ms
    → Fits remaining (if book_only then [] else ms)
unfolding Fits
booked-Fits true remaining ms f = tt
booked-Fits false remaining ms f = f

sim_order-IsSimOrder :
    (req : OrderRequest) (id : String) (ts : ℤ)
    → validate req ≡ true
    → IsSimOrder (sim_order req id ts)
unfolding validate
sim_order-IsSimOrder req id ts e = record {
  remaining_pos = ground arith;
  no_overfill = omega int_laws;
}

module _ (policy : MatchPolicy) (uuid : ℕ → String) (sound : IsSound policy) where
  accept :
      (s : SimulatorCore) (o : SimOrder) (ms : List MatchResult) (ids : ℕ)
      → Fits o.remaining_qty ms
      → IsSimOrder o
      → IsSim s
      → IsSim (put_order s (apply_matches uuid o ms true (suc s.ids)).0 ids)
  accept s o ms ids f w v =
      let o' = (apply_matches uuid o ms true (suc s.ids)).0 in
      insert-IsSim s o'.req.correlation_id o' ids refl
        (apply_matches-IsSimOrder uuid o ms true (suc s.ids) f w) v

  on_new_order_inner-IsSim :
      (s : SimulatorCore) (req : OrderRequest) (ts : ℤ) (book_only : Bool)
      → IsSim s
      → IsSim (on_new_order_inner policy uuid s req ts book_only).0
  unfolding on_new_order_inner
  on_new_order_inner-IsSim s req ts book_only v =
      let order = sim_order req (uuid s.ids) ts in
      let ms = policy order (lookup req.instrument s.orderbook_cache) in
      elim (Bool-cases (validate req)) [
        | inr e ↦ rw e (record { own_id = v.own_id; each = v.each })
        | inl e ↦ rw e (
            accept s order (if book_only then [] else ms) _
              (booked-Fits book_only order.remaining_qty ms
                (sound order (lookup req.instrument s.orderbook_cache)))
              (sim_order-IsSimOrder req (uuid s.ids) ts e) v)
      ]

  match_one-IsSim :
      (s : SimulatorCore) (tick : TickData) (id : ℤ)
      → IsSim s
      → IsSim (match_one policy uuid s tick id).0
  unfolding match_one
  match_one-IsSim s tick id v = elim (Option-cases (lookup id s.order_cache)) [
    | inl e ↦ rw (e, match_one) v
    | inr (o, e) ↦
        let ms = policy o (some tick) in
        let same = apply_matches_conserves uuid o ms false s.ids in
        rw (e, match_one)
          (insert-IsSim s id (apply_matches uuid o ms false s.ids).0 _ (rw same.0 (v.own_id id o e))
            (apply_matches-IsSimOrder uuid o ms false s.ids (sound o (some tick)) (v.each id o e))
            v)
  ]

  match_all-IsSim :
      (s : SimulatorCore) (tick : TickData) (ids : List ℤ)
      → IsSim s
      → IsSim (match_all policy uuid s tick ids).0
  unfolding match_all
  match_all-IsSim s tick [] v = v
  match_all-IsSim s tick (id ∷ ids) v =
      match_all-IsSim (match_one policy uuid s tick id).0 tick ids (match_one-IsSim s tick id v)

  force :
      (s : SimulatorCore) (id : ℤ) (o : SimOrder) (m : MatchResult) (linkage : Bool)
      (trade : String)
      → lookup id s.order_cache ≡ some o
      → m.qty ≤ℤ o.remaining_qty
      → IsSim s
      → IsSim (record s {
        order_cache = insert id (apply_match o m linkage trade).0 s.order_cache;
        ids = suc s.ids;
      })
  unfolding apply_match
  force s id o m linkage trade e fits v =
      insert-IsSim s id (apply_match o m linkage trade).0 (suc s.ids) (v.own_id id o e)
        (apply_match-IsSimOrder uuid o m linkage trade fits (v.each id o e)) v

  force_match_order-IsSim :
      (s : SimulatorCore) (id : ℤ) (qty price : Option ℤ) (ts : ℤ)
      → IsSim s
      → IsSim (force_match_order policy uuid s id qty price ts).0
  unfolding force_match_order
  force_match_order-IsSim s id qty price ts v = elim (Option-cases (lookup id s.order_cache)) [
    | inl e ↦ rw (e, force_match_order) v
    | inr (o, e) ↦ elim (Bool-cases (leb_ℤ o.remaining_qty (pos 0))) [
      | inl b ↦ rw (e, force_match_order, b) v
      | inr b ↦
          let q = unwrap_or qty o.remaining_qty in
          elim (Bool-cases (leb_ℤ q (pos 0) || ltb_ℤ o.remaining_qty q)) [
            | inl c ↦ rw (e, force_match_order, b, c) v
            | inr c ↦
                rw (e, force_match_order, b, c)
                  (force s id o (forced_match ts q (unwrap_or price o.req.scaled_price)) _ _ e
                    (ground arith) v)
          ]
    ]
  ]

-- The calls of the simulator, each from the store that the one before left.
pub data Step (policy : MatchPolicy) (uuid : ℕ → String) (s : SimulatorCore)
    : SimulatorCore → Type 0 where
  places : (req : OrderRequest) (ts : ℤ) → Step policy uuid s (on_new_order policy uuid s req ts).0
  books :
      (req : OrderRequest) (ts : ℤ)
      → Step policy uuid s (on_new_order_book_only policy uuid s req ts).0
  quotes : (tick : TickData) → Step policy uuid s (update_orderbook s tick)
  ticks :
      (visit : List ℤ → List ℤ) (tick : TickData)
      → Step policy uuid s (on_tick policy uuid visit s tick).0
  cancels : (id ts : ℤ) → Step policy uuid s (on_cancel s id ts).0
  forces :
      (id : ℤ) (qty price : Option ℤ) (ts : ℤ)
      → Step policy uuid s (force_match_order policy uuid s id qty price ts).0
  clears : Step policy uuid s (clear_orders s)

pub data Reach (policy : MatchPolicy) (uuid : ℕ → String) (s : SimulatorCore)
    : SimulatorCore → Type 0 where
  here : Reach policy uuid s s
  next :
      {t u : SimulatorCore} → Reach policy uuid s t → Step policy uuid t u → Reach policy uuid s u

module _ (policy : MatchPolicy) (uuid : ℕ → String) (sound : IsSound policy) where
  Step-IsSim : {s t : SimulatorCore} → Step policy uuid s t → IsSim s → IsSim t
  unfolding on_new_order on_new_order_book_only update_orderbook on_tick clear_orders lookup
  Step-IsSim {s} (places req ts) v = on_new_order_inner-IsSim policy uuid sound s req ts false v
  Step-IsSim {s} (books req ts) v = on_new_order_inner-IsSim policy uuid sound s req ts true v
  Step-IsSim {s} (quotes tick) v = record { own_id = v.own_id; each = v.each }
  Step-IsSim {s} (ticks visit tick) v =
      match_all-IsSim policy uuid sound (update_orderbook s tick) tick
        (visit (active_ids tick.instrument_code s.order_cache))
        (record { own_id = v.own_id; each = v.each })
  Step-IsSim {s} (cancels id ts) v = on_cancel-IsSim s id ts v
  Step-IsSim {s} (forces id qty price ts) v =
      force_match_order-IsSim policy uuid sound s id qty price ts v
  Step-IsSim {s} clears v = record {
    own_id = λ id o h. ground arith;
    each = λ id o h. ground arith;
  }

  Reach-IsSim : {s t : SimulatorCore} → IsSim s → Reach policy uuid s t → IsSim t
  Reach-IsSim v here = v
  Reach-IsSim v (next r st) = Step-IsSim st (Reach-IsSim v r)

  -- With a policy that never fills an order beyond what it has left, every order that any sequence
  -- of calls on a new simulator leaves in the cache stands under its own id, has no negative
  -- remaining quantity, and is filled, with what remains, to no more than its requested quantity.
  pub Reach-new-IsSim :
      (name : String) (t : SimulatorCore) → Reach policy uuid (new name) t → IsSim t
  unfolding lookup
  Reach-new-IsSim name t r =
      Reach-IsSim (record { own_id = λ id o h. ground arith; each = λ id o h. ground arith }) r
