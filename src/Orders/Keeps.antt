-- ===== src/Orders/Keeps.antt =====
-- Every operation of the order store keeps it well formed, so every reachable store is.
use zkbot.Prelude.{
  ℕ, ℤ, int_eq, nat_eq, pair_eq, ◌≡◌, refl, inl, inr, Bool, Option, some, String, lookup, contains,
  lookup-insert, ==_iff, arith, Option-cases,
}
use zkbot.Intern.{intern}
use zkbot.Orders.Types.{
  LiveOrder, OrderRequest, SendOrderRequest, ResolvedOrderMeta, OrderAccountingFlags,
}
use zkbot.Orders.Store.{OrderStore, new, create_order, modify_live, register_exch_ref}
use zkbot.Orders.Closing.{mark_closed, create_external_order, promoted, apply_linkage_promotion}
use zkbot.Orders.Invariant.{IsWellFormed, IsFresh, put_order-IsWellFormed, open_order-IsWellFormed}
use zkbot.Orders.Eviction.{mark_closed-IsWellFormed}

-- A change of a live order that leaves its id and its account alone.
modify_live-IsWellFormed :
    (s : OrderStore) (f : LiveOrder → LiveOrder) (id : ℤ)
    → ((l : LiveOrder) → (f l).order_id ≡ l.order_id)
    → ((l : LiveOrder) → (f l).account_id ≡ l.account_id)
    → IsWellFormed s
    → IsWellFormed (record s { live = modify_live f id s.live })
unfolding modify_live
modify_live-IsWellFormed s f id same_id same_account v = elim (Option-cases (lookup id s.live)) [
  | inl e ↦ rw (e, modify_live) v
  | inr (x, e) ↦
      rw (e, modify_live)
        (record {
          logged = λ j. ground (arith, lookup-insert id j (f x) s.live, v.logged j, ==_iff id j, e);
          own_id = λ j l h. ground (
            arith,
            lookup-insert id j (f x) s.live,
            v.own_id j l,
            v.own_id id x e,
            ==_iff id j,
            same_id x,
          );
          open_live = λ j h. ground (arith, lookup-insert id j (f x) s.live, v.open_live j);
          closed_shut = v.closed_shut;
          bounded = v.bounded;
          indexed = λ a j. ground (
            arith,
            lookup-insert id j (f x) s.live,
            v.indexed a j,
            ==_iff id j,
            e,
            same_account x,
          );
        })
]

-- The calls that the order manager makes on its store, those that create an order at an id which
-- is free.
pub data Step (s : OrderStore) : OrderStore → Type 0 where
  creates :
      (now id : ℤ) (req : OrderRequest) (meta : ResolvedOrderMeta) (flags : OrderAccountingFlags)
      (gw_req : Option SendOrderRequest)
      → IsFresh s id
      → Step s (create_order s now id req meta flags gw_req)
  adopts :
      (id : ℤ) (gw_id : ℕ) (exch_ref : String) (account_id ts : ℤ) (source_sym : ℕ)
      → IsFresh s id
      → Step s (create_external_order s id gw_id exch_ref account_id ts source_sym)
  links : (id : ℤ) (gw_id : ℕ) (exch_ref : String) → Step s (register_exch_ref s id gw_id exch_ref)
  promotes : (id : ℤ) → Step s (apply_linkage_promotion s id)
  closes : (id : ℤ) → Step s (mark_closed s id)

pub data Reach (s : OrderStore) : OrderStore → Type 0 where
  here : Reach s s
  next : {t u : OrderStore} → Reach s t → Step t u → Reach s u

pub create_order-IsWellFormed :
    (s : OrderStore) (now id : ℤ) (req : OrderRequest) (meta : ResolvedOrderMeta)
    (flags : OrderAccountingFlags) (gw_req : Option SendOrderRequest)
    → IsFresh s id
    → IsWellFormed s
    → IsWellFormed (create_order s now id req meta flags gw_req)
unfolding create_order
create_order-IsWellFormed s now id req meta flags gw_req f v =
    open_order-IsWellFormed s id _ _ refl v f req.account_id refl

pub create_external_order-IsWellFormed :
    (s : OrderStore) (id : ℤ) (gw_id : ℕ) (exch_ref : String) (account_id ts : ℤ) (source_sym : ℕ)
    → IsFresh s id
    → IsWellFormed s
    → IsWellFormed (create_external_order s id gw_id exch_ref account_id ts source_sym)
unfolding create_external_order
create_external_order-IsWellFormed s id gw_id exch_ref account_id ts source_sym f v =
    put_order-IsWellFormed _ id _ _ refl
      (record {
        logged = v.logged;
        own_id = v.own_id;
        open_live = v.open_live;
        closed_shut = v.closed_shut;
        bounded = v.bounded;
        indexed = v.indexed;
      })
      f

register_exch_ref-IsWellFormed :
    (s : OrderStore) (id : ℤ) (gw_id : ℕ) (exch_ref : String)
    → IsWellFormed s
    → IsWellFormed (register_exch_ref s id gw_id exch_ref)
unfolding register_exch_ref
register_exch_ref-IsWellFormed s id gw_id exch_ref v =
    let w =
      modify_live-IsWellFormed s
        (λ l. record l { exch_order_ref_id = some (intern s.dyn_strings exch_ref).1 }) id
        (λ l. refl) (λ l. refl) v in
    record {
      logged = w.logged;
      own_id = w.own_id;
      open_live = w.open_live;
      closed_shut = w.closed_shut;
      bounded = w.bounded;
      indexed = w.indexed;
    }

Step-IsWellFormed : {s t : OrderStore} → Step s t → IsWellFormed s → IsWellFormed t
unfolding apply_linkage_promotion
Step-IsWellFormed {s} (creates now id req meta flags gw_req f) v =
    create_order-IsWellFormed s now id req meta flags gw_req f v
Step-IsWellFormed {s} (adopts id gw_id exch_ref account_id ts source_sym f) v =
    create_external_order-IsWellFormed s id gw_id exch_ref account_id ts source_sym f v
Step-IsWellFormed {s} (links id gw_id exch_ref) v =
    register_exch_ref-IsWellFormed s id gw_id exch_ref v
Step-IsWellFormed {s} (promotes id) v =
    modify_live-IsWellFormed s (λ l. record l { order_status = promoted l.order_status }) id
      (λ l. refl) (λ l. refl) v
Step-IsWellFormed {s} (closes id) v = mark_closed-IsWellFormed s id v

pub Reach-IsWellFormed : {s t : OrderStore} → IsWellFormed s → Reach s t → IsWellFormed t
Reach-IsWellFormed v here = v
Reach-IsWellFormed v (next r st) = Step-IsWellFormed st (Reach-IsWellFormed v r)

pub new-IsWellFormed : (limit : ℕ) (emulate : Bool) → IsWellFormed (new limit emulate)
unfolding lookup contains
new-IsWellFormed limit emulate = record {
  logged = λ id. refl;
  own_id = λ id l h. ground arith;
  open_live = λ id h. ground arith;
  closed_shut = λ id h. refl;
  bounded = omega arith;
  indexed = λ a id. refl;
}

-- Every store that create_order, create_external_order, register_exch_ref, apply_linkage_promotion
-- and mark_closed reach from an empty one is well formed, where an order is only ever created at
-- an id that the store neither holds nor has in its queue of closed orders: each
-- live order has a log, an open order is live, a closed one is not open, the queue of closed
-- orders stays within its limit, and the index by account lists exactly the open orders of each
-- account.
pub Reach-new-IsWellFormed :
    (limit : ℕ) (emulate : Bool) (t : OrderStore) → Reach (new limit emulate) t → IsWellFormed t
Reach-new-IsWellFormed limit emulate t r = Reach-IsWellFormed (new-IsWellFormed limit emulate) r
