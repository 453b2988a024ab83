-- ===== src/Orders/Closing.antt =====
-- The operations of `OrderStoreV2` that end or adopt an order: closing and eviction, the creation of
-- external orders, and the promotion by a linkage report.
use zkbot.Prelude.{
  ℕ, ℤ, pos, ltb, int_eq, nat_eq, pair_eq, true, Option, none, some, String, HashMap, HashSet,
  HashSet, lookup, insert, remove, set_remove, [], ◌∷◌, ◌++◌, length, if◌then◌else◌,
}
use zkbot.Intern.{intern}
use zkbot.Orders.Types.{OrderStatus, pending, booked, rejected, LiveOrder, default_flags}
use zkbot.Orders.Store.{OrderStore, ref_key, put_order, modify_live, new_detail}

-- The reference of an evicted order is forgotten with it.
unfoldable pub unlink_ref : Option LiveOrder → HashMap (ℕ × ℕ) ℤ → HashMap (ℕ × ℕ) ℤ
unlink_ref none m = m
unlink_ref (some live) m = elim live.exch_order_ref_id [
  | none ↦ m
  | some ref_id ↦ remove (ref_key live.gw_id ref_id) m
]

unfoldable pub cleanup_order : OrderStore → ℤ → OrderStore
cleanup_order s order_id = record s {
  live = remove order_id s.live;
  order_id_by_exch_ref = unlink_ref (lookup order_id s.live) s.order_id_by_exch_ref;
  detail = remove order_id s.detail;
}

-- The index by account without the order, where the order is live and its account has an entry.
unfoldable pub close_in_account :
    ℤ → Option LiveOrder → HashMap ℤ (HashSet ℤ) → HashMap ℤ (HashSet ℤ)
close_in_account order_id none m = m
close_in_account order_id (some live) m = elim (lookup live.account_id m) [
  | none ↦ m
  | some ids ↦ insert live.account_id (set_remove order_id ids) m
]

-- `if closed_lru.len() > max { pop_front, cleanup }`
unfoldable pub evict : OrderStore → OrderStore
unfolding cleanup_order
evict s =
    if ltb s.max_cached_orders (length s.closed_lru)
    then elim s.closed_lru [
      | [] ↦ s
      | oldest ∷ rest ↦ cleanup_order (record s { closed_lru = rest }) oldest
    ]
    else s

unfoldable pub mark_closed : OrderStore → ℤ → OrderStore
mark_closed s order_id = evict (record s {
  open_order_ids = set_remove order_id s.open_order_ids;
  open_by_account = close_in_account order_id (lookup order_id s.live) s.open_by_account;
  closed_lru = s.closed_lru ++ (order_id ∷ []);
})

abbrev pub external_live : ℤ → ℕ → ℕ → ℤ → ℤ → ℕ → LiveOrder
external_live order_id gw_id dyn_id account_id ts source_sym = record {
  order_id = order_id;
  account_id = account_id;
  instrument_id = 0;
  gw_id = gw_id;
  route_exch_account_sym = 0;
  source_sym = source_sym;
  order_status = pending;
  buy_sell_type = pos 0;
  open_close_type = pos 0;
  order_type = pos 0;
  tif_type = pos 0;
  price = pos 0;
  qty = pos 0;
  filled_qty = pos 0;
  filled_avg_price = pos 0;
  acc_trades_filled_qty = pos 0;
  acc_trades_value = pos 0;
  exch_order_ref_id = some dyn_id;
  snapshot_version = 1;
  created_at = ts;
  updated_at = ts;
  is_external = true;
  cancel_attempts = 0;
  accounting_flags = default_flags;
  error_msg = "";
  terminal_at = none;
}

-- `order_id` is what `gen_order_id` gives.
unfoldable pub create_external_order : OrderStore → ℤ → ℕ → String → ℤ → ℤ → ℕ → OrderStore
unfolding put_order
create_external_order s order_id gw_id exch_ref account_id ts source_sym =
    let (dyn_strings, dyn_id) = intern s.dyn_strings exch_ref in
    let key = ref_key gw_id dyn_id in
    put_order
      (record s {
        dyn_strings = dyn_strings;
        external_order_ids = insert key order_id s.external_order_ids;
        order_id_by_exch_ref = insert key order_id s.order_id_by_exch_ref;
      })
      order_id (external_live order_id gw_id dyn_id account_id ts source_sym)
      (new_detail order_id none none)

abbrev pub promoted : OrderStatus → OrderStatus
promoted pending = booked
promoted rejected = booked
promoted other = other

unfoldable pub apply_linkage_promotion : OrderStore → ℤ → OrderStore
unfolding modify_live
apply_linkage_promotion s order_id = record s {
  live = modify_live (λ l. record l { order_status = promoted l.order_status }) order_id s.live;
}
