-- ===== src/Core/Edits.antt =====
-- Changes of an order store that leave every order in its place: what the reports, the errors and
-- the cancellations do.
use zkbot.Prelude.{
  ℕ, ℤ, pos, ◌≤ℤ◌, ◌==◌, int_eq, nat_eq, pair_eq, ◌≡◌, refl, sym, ◌∙◌, ap, inl, inr, Option, none,
  some, is_some, String, HashMap, lookup, insert, lookup-insert, ==_iff, Option-cases, Bool-cases,
  subst, arith,
}
use zkbot.Intern.{DynStringTable, intern}
use zkbot.Orders.Types.{LiveOrder, OrderDetailLog}
use zkbot.Orders.Store.{OrderStore, put_order, modify_live, register_exch_ref}
use zkbot.Orders.Closing.{promoted, apply_linkage_promotion}
use zkbot.Orders.Invariant.{IsWellFormed, belongs_to}
use zkbot.Core.Placing.{update_order}
use zkbot.Core.Failures.{modify_detail}

-- The second order is the first one with other contents: the id, the account, and a price that is
-- not negative where the first one's is not.
pub record IsSameOrder (l m : LiveOrder) : Type 0 where
  pub same_id : m.order_id ≡ l.order_id
  pub same_account : m.account_id ≡ l.account_id
  pub same_price : pos 0 ≤ℤ l.price → pos 0 ≤ℤ m.price

pub refl-IsSameOrder : (l : LiveOrder) → IsSameOrder l l
refl-IsSameOrder l = record { same_id = refl; same_account = refl; same_price = λ h. h }

pub record IsEdit (s t : OrderStore) : Type 0 where
  pub same_open : t.open_order_ids ≡ s.open_order_ids
  pub same_index : t.open_by_account ≡ s.open_by_account
  pub same_queue : t.closed_lru ≡ s.closed_lru
  pub same_limit : t.max_cached_orders ≡ s.max_cached_orders
  pub same_live : (id : ℤ) → is_some (lookup id t.live) ≡ is_some (lookup id s.live)
  pub same_logs : (id : ℤ) → is_some (lookup id t.detail) ≡ is_some (lookup id s.detail)
  pub same_order :
      (id : ℤ) (m : LiveOrder)
      → lookup id t.live ≡ some m
      → (l : LiveOrder) × ((lookup id s.live ≡ some l) × IsSameOrder l m)

pub refl-IsEdit : (s : OrderStore) → IsEdit s s
refl-IsEdit s = record {
  same_open = refl;
  same_index = refl;
  same_queue = refl;
  same_limit = refl;
  same_live = λ id. refl;
  same_logs = λ id. refl;
  same_order = λ id m e. (m, (e, refl-IsSameOrder m));
}

pub trans-IsEdit : (s t u : OrderStore) → IsEdit s t → IsEdit t u → IsEdit s u
trans-IsEdit s t u f g = record {
  same_open = g.same_open ∙ f.same_open;
  same_index = g.same_index ∙ f.same_index;
  same_queue = g.same_queue ∙ f.same_queue;
  same_limit = g.same_limit ∙ f.same_limit;
  same_live = λ id. g.same_live id ∙ f.same_live id;
  same_logs = λ id. g.same_logs id ∙ f.same_logs id;
  same_order = λ id m e.
      let (l, (at_t, lm)) = g.same_order id m e in
      let (k, (at_s, kl)) = f.same_order id l at_t in
      (
        k,
        (
          at_s,
          record {
            same_id = lm.same_id ∙ kl.same_id;
            same_account = lm.same_account ∙ kl.same_account;
            same_price = λ h. lm.same_price (kl.same_price h);
          },
        ),
      );
}

insert-IsSameOrder :
    (live : HashMap ℤ LiveOrder) (id j : ℤ) (l x m : LiveOrder)
    → lookup id live ≡ some l
    → IsSameOrder l x
    → lookup j (insert id x live) ≡ some m
    → (k : LiveOrder) × ((lookup j live ≡ some k) × IsSameOrder k m)
insert-IsSameOrder live id j l x m e same h = elim (Bool-cases (id == j)) [
  | inl eq ↦
      let found : lookup j live ≡ some l =
        ap (λ (k : ℤ). lookup k live) (sym ((==_iff id j).0 eq)) ∙ e in
      let is_x : x ≡ m = ground (arith, lookup-insert id j x live, eq, h) in
      (l, (found, subst (IsSameOrder l) is_x same))
  | inr ne ↦ (m, (ground (arith, lookup-insert id j x live, ne, h), refl-IsSameOrder m))
]

insert_live-IsEdit :
    (s : OrderStore) (id : ℤ) (l x : LiveOrder)
    → lookup id s.live ≡ some l
    → IsSameOrder l x
    → IsEdit s (record s { live = insert id x s.live })
insert_live-IsEdit s id l x e same = record {
  same_open = refl;
  same_index = refl;
  same_queue = refl;
  same_limit = refl;
  same_live = λ j. ground (arith, lookup-insert id j x s.live, ==_iff id j, e);
  same_logs = λ j. refl;
  same_order = λ j m h. insert-IsSameOrder s.live id j l x m e same h;
}

insert_detail-IsEdit :
    (s : OrderStore) (id : ℤ) (d x : OrderDetailLog)
    → lookup id s.detail ≡ some d
    → IsEdit s (record s { detail = insert id x s.detail })
insert_detail-IsEdit s id d x e = record {
  same_open = refl;
  same_index = refl;
  same_queue = refl;
  same_limit = refl;
  same_live = λ j. refl;
  same_logs = λ j. ground (arith, lookup-insert id j x s.detail, ==_iff id j, e);
  same_order = λ j m h. (m, (h, refl-IsSameOrder m));
}

pub modify_live-IsEdit :
    (f : LiveOrder → LiveOrder) (id : ℤ) (s : OrderStore)
    → ((l : LiveOrder) → IsSameOrder l (f l))
    → IsEdit s (record s { live = modify_live f id s.live })
unfolding modify_live
modify_live-IsEdit f id s same = elim (Option-cases (lookup id s.live)) [
  | inl e ↦ rw (e, modify_live) (refl-IsEdit s)
  | inr (l, e) ↦ rw (e, modify_live) (insert_live-IsEdit s id l (f l) e (same l))
]

pub modify_detail-IsEdit :
    (f : OrderDetailLog → OrderDetailLog) (id : ℤ) (s : OrderStore)
    → IsEdit s (record s { detail = modify_detail f id s.detail })
unfolding modify_detail
modify_detail-IsEdit f id s = elim (Option-cases (lookup id s.detail)) [
  | inl e ↦ rw (e, modify_detail) (refl-IsEdit s)
  | inr (d, e) ↦ rw (e, modify_detail) (insert_detail-IsEdit s id d (f d) e)
]

pub update_order-IsEdit :
    (f : LiveOrder → OrderDetailLog → LiveOrder × OrderDetailLog) (id : ℤ) (s : OrderStore)
    → ((l : LiveOrder) (d : OrderDetailLog) → IsSameOrder l (f l d).0)
    → IsEdit s (update_order f id s)
unfolding update_order put_order
update_order-IsEdit f id s same = elim (Option-cases (lookup id s.live)) [
  | inl e ↦ rw (e, update_order) (refl-IsEdit s)
  | inr (l, e) ↦ elim (Option-cases (lookup id s.detail)) [
    | inl h ↦ rw (e, h, update_order) (refl-IsEdit s)
    | inr (d, h) ↦
        rw (e, h, update_order)
          (trans-IsEdit s (record s { live = insert id (f l d).0 s.live }) _
            (insert_live-IsEdit s id l (f l d).0 e (same l d))
            (insert_detail-IsEdit (record s { live = insert id (f l d).0 s.live }) id d (f l d).1
              h))
  ]
]

-- A change of the tables of references is an edit of what they belong to.
pub relabel-IsEdit :
    (s t : OrderStore) (strings : DynStringTable) (refs : HashMap (ℕ × ℕ) ℤ)
    → IsEdit s t
    → IsEdit s (record t { dyn_strings = strings; order_id_by_exch_ref = refs })
relabel-IsEdit s t strings refs v = record {
  same_open = v.same_open;
  same_index = v.same_index;
  same_queue = v.same_queue;
  same_limit = v.same_limit;
  same_live = v.same_live;
  same_logs = v.same_logs;
  same_order = v.same_order;
}

pub register_exch_ref-IsEdit :
    (s : OrderStore) (id : ℤ) (gw_id : ℕ) (exch_ref : String)
    → IsEdit s (register_exch_ref s id gw_id exch_ref)
unfolding register_exch_ref
register_exch_ref-IsEdit s id gw_id exch_ref = relabel-IsEdit s _ _ _ (
    modify_live-IsEdit
      (λ l. record l { exch_order_ref_id = some (intern s.dyn_strings exch_ref).1 }) id s
      (λ l. record { same_id = refl; same_account = refl; same_price = λ h. h }))

pub promotion-IsEdit : (s : OrderStore) (id : ℤ) → IsEdit s (apply_linkage_promotion s id)
unfolding apply_linkage_promotion
promotion-IsEdit s id =
    modify_live-IsEdit (λ l. record l { order_status = promoted l.order_status }) id s
      (λ l. record { same_id = refl; same_account = refl; same_price = λ h. h })

belongs_to-same :
    (a : ℤ) (s t : Option LiveOrder)
    → is_some t ≡ is_some s
    → ((m : LiveOrder) → t ≡ some m → (l : LiveOrder) × ((s ≡ some l) × IsSameOrder l m))
    → belongs_to a t ≡ belongs_to a s
belongs_to-same a none none e h = refl
belongs_to-same a none (some m) e h = ground (arith, e)
belongs_to-same a (some x) none e h = ground (arith, e)
belongs_to-same a (some x) (some m) e h =
    let (l, (at_s, same)) = h m refl in ground (arith, same.same_account, at_s)

pub IsEdit-IsWellFormed : (s t : OrderStore) → IsEdit s t → IsWellFormed s → IsWellFormed t
IsEdit-IsWellFormed s t f v = record {
  logged = λ id. f.same_live id ∙ v.logged id ∙ sym (f.same_logs id);
  own_id =
      λ id m e. let (l, (at_s, same)) = f.same_order id m e in same.same_id ∙ v.own_id id l at_s;
  open_live = λ id h. f.same_live id ∙ v.open_live id (rw (sym f.same_open) h);
  closed_shut = λ id h. rw f.same_open (v.closed_shut id (rw (sym f.same_queue) h));
  bounded = rw (f.same_queue, f.same_limit) v.bounded;
  indexed = λ a id.
      rw
        (
          f.same_index,
          f.same_open,
          belongs_to-same a (lookup id s.live) (lookup id t.live) (f.same_live id)
              (f.same_order id),
        )
        (v.indexed a id);
}
