-- ===== src/Core/Sound.antt =====
-- What holds of the core's orders and holds together, and the steps that keep it.
use zkbot.Prelude.{
  ℕ, ◌≤◌, ℤ, pos, ◌≤ℤ◌, ◌-ℤ◌, min_ℤ, ◌⊎◌, ◌==◌, int_eq, nat_eq, pair_eq, ◌≡◌, refl, sym, ap, subst,
  inl, inr, Bool, true, Option, none, some, is_some, lookup, contains, lookup-insert, lookup-remove,
  lookup-remove_self, contains-set_insert, ==_iff, Option-cases, Bool-cases, dec_lt, if◌then◌else◌,
  List, [], ◌∷◌, ◌++◌, length, arith,
}
use zkbot.Orders.Types.{
  LiveOrder, OrderRequest, SendOrderRequest, ResolvedOrderMeta, OrderAccountingFlags,
}
use zkbot.Orders.Store.{OrderStore, create_order, open_order, put_order, new_live}
use zkbot.Orders.Closing.{mark_closed, evict, cleanup_order}
use zkbot.Orders.Invariant.{IsWellFormed, IsFresh}
use zkbot.Orders.Keeps.{create_order-IsWellFormed}
use zkbot.Orders.Eviction.{evict_room, evict_full, mark_closed-IsWellFormed}
use zkbot.Orders.Lifecycle.{mark_closed_keeps}
use zkbot.Reservation.{
  ReservationStore, ReservationRecord, ReserveKind, reserve, release, release_partial, keep_or_drop,
}
use zkbot.Reservation.Laws.{
  IsConsistent, reserve-IsConsistent, release-IsConsistent, release_partial-IsConsistent,
}
use zkbot.Core.Edits.{IsEdit, IsEdit-IsWellFormed}

evict_live :
    (s : OrderStore) (queue : List ℤ) (j : ℤ) (l : LiveOrder)
    → s.closed_lru ≡ queue
    → lookup j (evict s).live ≡ some l
    → lookup j s.live ≡ some l
unfolding cleanup_order
evict_live s [] j l e h =
    let room : length s.closed_lru ≤ s.max_cached_orders =
      omega (arith, ap (λ (q : List ℤ). length q) e) in
    subst (λ (t : OrderStore). lookup j t.live ≡ some l) (evict_room s room) h
evict_live s (oldest ∷ rest) j l e h = elim (dec_lt s.max_cached_orders (length s.closed_lru)) [
  | yes full ↦
      let cleaned =
        subst (λ (t : OrderStore). lookup j t.live ≡ some l) (evict_full s oldest rest e full) h in
      ground (arith, lookup-remove oldest j s.live, cleaned)
  | no room ↦
      let le : length s.closed_lru ≤ s.max_cached_orders = omega arith in
      subst (λ (t : OrderStore). lookup j t.live ≡ some l) (evict_room s le) h
]

-- Closing takes orders away and changes none.
pub mark_closed_live :
    (s : OrderStore) (id j : ℤ) (l : LiveOrder)
    → lookup j (mark_closed s id).live ≡ some l
    → lookup j s.live ≡ some l
unfolding mark_closed
mark_closed_live s id j l h = evict_live _ (s.closed_lru ++ (id ∷ [])) j l refl h

-- The orders are well formed and no price of theirs is negative; the totals of the holds are the
-- sums of the holds; and whatever order has a hold is open.
pub record IsSound (s : OrderStore) (r : ReservationStore) : Type 0 where
  pub stored : IsWellFormed s
  pub priced : (id : ℤ) (l : LiveOrder) → lookup id s.live ≡ some l → pos 0 ≤ℤ l.price
  pub consistent : IsConsistent r
  pub held_open :
      (id : ℤ) → is_some (lookup id r.reservations) ≡ true → contains id s.open_order_ids ≡ true

pub edit-IsSound :
    (s t : OrderStore) (r : ReservationStore) → IsEdit s t → IsSound s r → IsSound t r
edit-IsSound s t r f v = record {
  stored = IsEdit-IsWellFormed s t f v.stored;
  priced =
      λ id m e. let (l, (at_s, same)) = f.same_order id m e in same.same_price (v.priced id l at_s);
  consistent = v.consistent;
  held_open = λ id h. rw f.same_open (v.held_open id h);
}

-- A fresh order has no hold.
pub fresh_unheld :
    (s : OrderStore) (r : ReservationStore) (id : ℤ)
    → IsSound s r
    → IsFresh s id
    → lookup id r.reservations ≡ none
fresh_unheld s r id v f = ground (arith, v.held_open id, v.stored.open_live id, f)

-- The orders that have a hold after an operation.
abbrev pub is_held : ReservationStore → ℤ → Bool
is_held r id = is_some (lookup id r.reservations)

reserve_held :
    (r : ReservationStore) (id account_id : ℤ) (kind : ReserveKind) (target_id : ℕ) (qty : ℤ)
    (j : ℤ)
    → is_held (reserve r id account_id kind target_id qty).0 j ≡ true
    → (id ≡ j) ⊎ (is_held r j ≡ true)
unfolding reserve
reserve_held r id a kind t qty j h = elim (Option-cases (lookup id r.reservations)) [
  | inr (x, e) ↦ inr (ground (arith, e, h))
  | inl e ↦ elim (Bool-cases (id == j)) [
    | inl same ↦ inl ((==_iff id j).0 same)
    | inr other ↦
        let rec : ReservationRecord = record {
          order_id = id;
          account_id = a;
          kind = kind;
          target_id = t;
          reserved_qty = qty;
        } in
        inr (ground (arith, e, h, lookup-insert id j rec r.reservations, other))
  ]
]

release_held :
    (r : ReservationStore) (id j : ℤ) → is_held (release r id) j ≡ true → is_held r j ≡ true
unfolding release
release_held r id j h = elim (Option-cases (lookup id r.reservations)) [
  | inl e ↦ ground (arith, e, h)
  | inr (x, e) ↦ ground (arith, e, h, lookup-remove id j r.reservations)
]

release_partial_held :
    (r : ReservationStore) (id qty j : ℤ)
    → is_held (release_partial r id qty) j ≡ true
    → is_held r j ≡ true
unfolding release_partial keep_or_drop
release_partial_held r id qty j h = elim (Option-cases (lookup id r.reservations)) [
  | inl e ↦ ground (arith, e, h)
  | inr (x, e) ↦
      let left : ReservationRecord = record x {
        reserved_qty = x.reserved_qty -ℤ min_ℤ qty x.reserved_qty;
      } in
      ground (
        arith,
        e,
        h,
        lookup-remove id j r.reservations,
        lookup-insert id j left r.reservations,
        ==_iff id j,
      )
]

pub release_frees : (r : ReservationStore) (id : ℤ) → lookup id (release r id).reservations ≡ none
unfolding release
release_frees r id = elim (Option-cases (lookup id r.reservations)) [
  | inl e ↦ rw (e, release) e
  | inr (x, e) ↦ rw (e, release) (lookup-remove_self id r.reservations)
]

module _ (s : OrderStore) (r : ReservationStore) (v : IsSound s r) where
  pub create-IsSound :
      (now id : ℤ) (req : OrderRequest) (meta : ResolvedOrderMeta) (flags : OrderAccountingFlags)
      (gw_req : Option SendOrderRequest)
      → IsFresh s id
      → pos 0 ≤ℤ req.price
      → IsSound (create_order s now id req meta flags gw_req) r
  unfolding create_order open_order put_order
  create-IsSound now id req meta flags gw_req f h = record {
    stored = create_order-IsWellFormed s now id req meta flags gw_req f v.stored;
    priced = λ j l e. ground (
      arith,
      lookup-insert id j
          (new_live id req meta flags (if s.use_time_emulation then req.timestamp else now)) s.live,
      v.priced j l,
      h,
      e,
    );
    consistent = v.consistent;
    held_open = λ j e. ground (arith, v.held_open j, contains-set_insert id j s.open_order_ids);
  }

  pub close-IsSound : (id : ℤ) → lookup id r.reservations ≡ none → IsSound (mark_closed s id) r
  close-IsSound id free = record {
    stored = mark_closed-IsWellFormed s id v.stored;
    priced = λ j l e. v.priced j l (mark_closed_live s id j l e);
    consistent = v.consistent;
    held_open = λ j e.
        ground (arith, (mark_closed_keeps s id j v.stored).0, v.held_open j, ==_iff id j, free);
  }

  pub reserve-IsSound :
      (id account_id : ℤ) (kind : ReserveKind) (target_id : ℕ) (qty : ℤ)
      → contains id s.open_order_ids ≡ true
      → pos 0 ≤ℤ qty
      → IsSound s (reserve r id account_id kind target_id qty).0
  reserve-IsSound id account_id kind target_id qty opened h = record {
    stored = v.stored;
    priced = v.priced;
    consistent = reserve-IsConsistent r id account_id kind target_id qty v.consistent h;
    held_open = λ j e. elim (reserve_held r id account_id kind target_id qty j e) [
      | inl same ↦ rw (sym same) opened
      | inr held ↦ v.held_open j held
    ];
  }

  pub release-IsSound : (id : ℤ) → IsSound s (release r id)
  release-IsSound id = record {
    stored = v.stored;
    priced = v.priced;
    consistent = release-IsConsistent r id v.consistent;
    held_open = λ j e. v.held_open j (release_held r id j e);
  }

  pub release_partial-IsSound : (id qty : ℤ) → pos 0 ≤ℤ qty → IsSound s (release_partial r id qty)
  release_partial-IsSound id qty h = record {
    stored = v.stored;
    priced = v.priced;
    consistent = release_partial-IsConsistent r id qty v.consistent h;
    held_open = λ j e. v.held_open j (release_partial_held r id qty j e);
  }
