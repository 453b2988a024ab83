-- ===== src/Orders/Lifecycle.antt =====
-- What single operations of the order store promise: closing never loses an open order, and a
-- linked reference leads back to its order.
use zkbot.Prelude.{
  ℕ, suc, ◌≤◌, ℤ, pos, length, ◌==◌, int_eq, nat_eq, pair_eq, string_eq, ◌≡◌, ◌≢◌, ◌⊎◌, ◌∙◌, refl,
  sym, subst, ap, inl, inr, not, ◌&&◌, true, false, some, String, u32_mod, lookup, contains,
  set_remove, lookup-insert_self, lookup-remove_ne, contains-set_remove, List, [], ◌∷◌, ◌++◌, arith,
  dec_lt, Option-cases, Bool-cases, ◌%◌,
}
use zkbot.Intern
use zkbot.Intern.{intern, lookup_id}
use zkbot.Orders.Store.{OrderStore, ref_key, resolve_order_id, register_exch_ref}
use zkbot.Orders.Closing.{cleanup_order, evict, mark_closed}
use zkbot.Orders.Invariant.{IsWellFormed, IsWellFormedUpTo}
use zkbot.Orders.Eviction.{closing, closing-IsWellFormed, evict_room, evict_full, head_in}

cleanup_other :
    (s : OrderStore) (id j : ℤ) → id ≢ j → lookup j (cleanup_order s id).live ≡ lookup j s.live
unfolding cleanup_order
cleanup_other s id j h = lookup-remove_ne id j s.live h

cleanup_open : (s : OrderStore) (id : ℤ) → (cleanup_order s id).open_order_ids ≡ s.open_order_ids
unfolding cleanup_order
cleanup_open s id = refl

-- What eviction leaves alone of one store: the open orders, and each of them.
abbrev Keeps : OrderStore → OrderStore → Type 0
Keeps s t =
    (t.open_order_ids ≡ s.open_order_ids)
    × ((j : ℤ) → contains j s.open_order_ids ≡ true → lookup j t.live ≡ lookup j s.live)

cleanup-Keeps :
    (s : OrderStore) (oldest : ℤ) (rest : List ℤ)
    → s.closed_lru ≡ oldest ∷ rest
    → IsWellFormedUpTo (suc s.max_cached_orders) s
    → Keeps s (cleanup_order (record s { closed_lru = rest }) oldest)
cleanup-Keeps s oldest rest e v =
    let shut : contains oldest s.open_order_ids ≡ false =
      v.closed_shut oldest (rw e (head_in oldest rest)) in
    (
      cleanup_open (record s { closed_lru = rest }) oldest,
      λ j h.
          cleanup_other (record s { closed_lru = rest }) oldest j
            (λ q. ground (arith, shut, ap (λ (x : ℤ). contains x s.open_order_ids) q)),
    )

evict-Keeps :
    (s : OrderStore) (queue : List ℤ)
    → s.closed_lru ≡ queue
    → IsWellFormedUpTo (suc s.max_cached_orders) s
    → Keeps s (evict s)
evict-Keeps s [] e v =
    let room : length s.closed_lru ≤ s.max_cached_orders =
      omega (arith, ap (λ (l : List ℤ). length l) e) in
    subst (Keeps s) (sym (evict_room s room)) (refl, λ j h. refl)
evict-Keeps s (oldest ∷ rest) e v = elim (dec_lt s.max_cached_orders (length s.closed_lru)) [
  | yes full ↦
      subst (Keeps s) (sym (evict_full s oldest rest e full)) (cleanup-Keeps s oldest rest e v)
  | no room ↦
      let le : length s.closed_lru ≤ s.max_cached_orders = omega arith in
      subst (Keeps s) (sym (evict_room s le)) (refl, λ j h. refl)
]

-- In a well-formed store, after `mark_closed id` the order is not open, every other order is open
-- exactly if it was, and every order that is still open is still live with nothing of it
-- changed: eviction takes closed orders only.
pub mark_closed_keeps :
    (s : OrderStore) (id j : ℤ)
    → IsWellFormed s
    → let s' = mark_closed s id in
      (contains j s'.open_order_ids ≡ (not (id == j) && contains j s.open_order_ids))
      × ((contains j s'.open_order_ids ≡ false) ⊎ (lookup j s'.live ≡ lookup j s.live))
unfolding mark_closed
mark_closed_keeps s id j v =
    let keeps =
      evict-Keeps (closing s id) (s.closed_lru ++ (id ∷ [])) refl (closing-IsWellFormed s id v) in
    let same : contains j (mark_closed s id).open_order_ids
        ≡ contains j (set_remove id s.open_order_ids) =
      ap (λ (x : List ℤ). contains j x) keeps.0 in
    (
      same ∙ contains-set_remove id j s.open_order_ids,
      elim (Bool-cases (contains j (set_remove id s.open_order_ids))) [
        | inl e ↦ inr (keeps.1 j e)
        | inr e ↦ inl (same ∙ e)
      ],
    )

interned : (t : Intern.InternTable) (s : String) → lookup_id (intern t s).0 s ≡ some (intern t s).1
unfolding intern lookup_id
interned t s = elim (Option-cases (lookup s t.ids_by_str)) [
  | inr (id, e) ↦ rw (e, intern) e
  | inl e ↦ rw (e, intern) (lookup-insert_self s (length t.strs_by_id % u32_mod) t.ids_by_str)
]

resolve_by_ref :
    (s : OrderStore) (gw : ℕ) (r : String) (id : ℕ)
    → lookup_id s.dyn_strings r ≡ some id
    → resolve_order_id s (pos 0) gw r ≡ lookup (ref_key gw id) s.order_id_by_exch_ref
unfolding resolve_order_id
resolve_by_ref s gw r id e = rw (e, resolve_order_id) refl

-- After an exchange reference is registered for an order, a report that carries that reference
-- from the same gateway and no order id resolves to the order.
pub resolve_order_id-register_exch_ref :
    (s : OrderStore) (order_id : ℤ) (gw : ℕ) (r : String)
    → resolve_order_id (register_exch_ref s order_id gw r) (pos 0) gw r ≡ some order_id
unfolding register_exch_ref
resolve_order_id-register_exch_ref s order_id gw r =
    resolve_by_ref (register_exch_ref s order_id gw r) gw r (intern s.dyn_strings r).1
      (interned s.dyn_strings r)
    ∙ lookup-insert_self (ref_key gw (intern s.dyn_strings r).1) order_id s.order_id_by_exch_ref
