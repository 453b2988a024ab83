-- ===== src/Core/Ended.antt =====
-- No order in a final state is open: every handler that ends an order closes it.
use zkbot.Prelude.{
  ℕ, ℤ, int_eq, nat_eq, pair_eq, string_eq, ◌==◌, ==_iff, ◌≡◌, refl, sym, ◌∙◌, ap, subst, inl, inr,
  Bool, true, false, Option, none, some, String, HashMap, lookup, lookup-insert, contains,
  contains-set_insert, Bool-cases, Option-cases, List, if◌then◌else◌, arith,
}
use zkbot.Orders.Types.{
  LiveOrder, OrderDetailLog, OrderRequest, SendOrderRequest, ResolvedOrderMeta,
  OrderAccountingFlags, is_in_terminal_state,
}
use zkbot.Orders.Store.{
  OrderStore, create_order, open_order, put_order, modify_live, register_exch_ref, new_live,
}
use zkbot.Orders.Closing.{mark_closed, apply_linkage_promotion}
use zkbot.Orders.Invariant.{IsWellFormed}
use zkbot.Orders.Lifecycle.{mark_closed_keeps}
use zkbot.Core.Placing.{update_order}

-- The order that was looked up is in a final state.
abbrev pub is_ended : Option LiveOrder → Bool
is_ended none = false
is_ended (some l) = is_in_terminal_state l

pub record IsTidy (s : OrderStore) : Type 0 where
  pub going : (id : ℤ) → contains id s.open_order_ids ≡ true → is_ended (lookup id s.live) ≡ false

-- The stores have the same open orders and differ at one order only.
pub record IsChangeOf (id : ℤ) (s t : OrderStore) : Type 0 where
  pub opened : t.open_order_ids ≡ s.open_order_ids
  pub others : (j : ℤ) → (id == j) ≡ false → lookup j t.live ≡ lookup j s.live

pub refl-IsChangeOf : (id : ℤ) (s : OrderStore) → IsChangeOf id s s
refl-IsChangeOf id s = record { opened = refl; others = λ j h. refl }

pub trans-IsChangeOf :
    (id : ℤ) (s t u : OrderStore) → IsChangeOf id s t → IsChangeOf id t u → IsChangeOf id s u
trans-IsChangeOf id s t u f g = record {
  opened = g.opened ∙ f.opened;
  others = λ j h. g.others j h ∙ f.others j h;
}

pub update_order-IsChangeOf :
    (f : LiveOrder → OrderDetailLog → LiveOrder × OrderDetailLog) (id : ℤ) (s : OrderStore)
    → IsChangeOf id s (update_order f id s)
unfolding update_order put_order
update_order-IsChangeOf f id s = elim (Option-cases (lookup id s.live)) [
  | inl e ↦ rw (e, update_order) (refl-IsChangeOf id s)
  | inr (l, e) ↦ elim (Option-cases (lookup id s.detail)) [
    | inl h ↦ rw (e, h, update_order) (refl-IsChangeOf id s)
    | inr (d, h) ↦
        rw (e, h, update_order)
          (record {
            opened = refl;
            others = λ j ne. ground (arith, lookup-insert id j (f l d).0 s.live, ne);
          })
  ]
]

modify_live_others :
    (f : LiveOrder → LiveOrder) (id j : ℤ) (m : HashMap ℤ LiveOrder)
    → (id == j) ≡ false
    → lookup j (modify_live f id m) ≡ lookup j m
unfolding modify_live
modify_live_others f id j m ne = elim (Option-cases (lookup id m)) [
  | inl e ↦ rw (e, modify_live) refl
  | inr (l, e) ↦ rw (e, modify_live) (ground (arith, lookup-insert id j (f l) m, ne))
]

pub modify_live-IsChangeOf :
    (f : LiveOrder → LiveOrder) (id : ℤ) (s : OrderStore)
    → IsChangeOf id s (record s { live = modify_live f id s.live })
modify_live-IsChangeOf f id s = record {
  opened = refl;
  others = λ j ne. modify_live_others f id j s.live ne;
}

-- A change that leaves the status of every order alone.
pub modify_live_ended :
    (f : LiveOrder → LiveOrder) (id j : ℤ) (m : HashMap ℤ LiveOrder)
    → ((l : LiveOrder) → is_in_terminal_state (f l) ≡ is_in_terminal_state l)
    → is_ended (lookup j (modify_live f id m)) ≡ is_ended (lookup j m)
unfolding modify_live
modify_live_ended f id j m same = elim (Option-cases (lookup id m)) [
  | inl e ↦ rw (e, modify_live) refl
  | inr (l, e) ↦ elim (Bool-cases (id == j)) [
    | inl here ↦
        let at_j : lookup j m ≡ some l =
          ap (λ (k : ℤ). lookup k m) (sym ((==_iff id j).0 here)) ∙ e in
        rw (e, modify_live) (rw (lookup-insert id j (f l) m) (rw (here, at_j) (same l)))
    | inr ne ↦ rw (e, modify_live) (rw (lookup-insert id j (f l) m) (rw ne refl))
  ]
]

pub register_ended :
    (s : OrderStore) (id : ℤ) (gw_id : ℕ) (exch_ref : String) (j : ℤ)
    → is_ended (lookup j (register_exch_ref s id gw_id exch_ref).live) ≡ is_ended (lookup j s.live)
unfolding register_exch_ref
register_ended s id gw_id exch_ref j = modify_live_ended _ id j s.live (λ l. refl)

pub register_exch_ref-IsChangeOf :
    (s : OrderStore) (id : ℤ) (gw_id : ℕ) (exch_ref : String)
    → IsChangeOf id s (register_exch_ref s id gw_id exch_ref)
unfolding register_exch_ref
register_exch_ref-IsChangeOf s id gw_id exch_ref = record {
  opened = refl;
  others = λ j ne. modify_live_others _ id j s.live ne;
}

pub promotion-IsChangeOf :
    (s : OrderStore) (id : ℤ) → IsChangeOf id s (apply_linkage_promotion s id)
unfolding apply_linkage_promotion
promotion-IsChangeOf s id = modify_live-IsChangeOf _ id s

-- An order that changed and is closed, or is still going, leaves a tidy store tidy.
pub closed-IsTidy :
    (id : ℤ) (s t : OrderStore)
    → IsChangeOf id s t
    → IsWellFormed t
    → IsTidy s
    → IsTidy (mark_closed t id)
closed-IsTidy id s t f v w = record {
  going = λ j h.
      let keeps = mark_closed_keeps t id j v in
      let other : (id == j) ≡ false = ground (arith, keeps.0, h) in
      let was : contains j s.open_order_ids ≡ true =
        ap (λ (x : List ℤ). contains j x) (sym f.opened) ∙ ground (arith, keeps.0, h) in
      ground (arith, keeps.1, h, f.others j other, w.going j was);
}

pub going-IsTidy :
    (id : ℤ) (s t : OrderStore)
    → IsChangeOf id s t
    → is_ended (lookup id t.live) ≡ false
    → IsTidy s
    → IsTidy t
going-IsTidy id s t f on w = record {
  going = λ j h. elim (Bool-cases (id == j)) [
    | inl same ↦ subst (λ (k : ℤ). is_ended (lookup k t.live) ≡ false) ((==_iff id j).0 same) on
    | inr other ↦
        let was : contains j s.open_order_ids ≡ true =
          ap (λ (x : List ℤ). contains j x) (sym f.opened) ∙ h in
        ap is_ended (f.others j other) ∙ w.going j was
  ];
}

pub create_order-IsTidy :
    (s : OrderStore) (now id : ℤ) (req : OrderRequest) (meta : ResolvedOrderMeta)
    (flags : OrderAccountingFlags) (gw_req : Option SendOrderRequest)
    → IsTidy s
    → IsTidy (create_order s now id req meta flags gw_req)
unfolding create_order open_order put_order
create_order-IsTidy s now id req meta flags gw_req w = record {
  going = λ j h.
      let created =
        new_live id req meta flags (if s.use_time_emulation then req.timestamp else now) in
      ground (
        arith,
        lookup-insert id j created s.live,
        contains-set_insert id j s.open_order_ids,
        h,
        w.going j,
      );
}
