-- ===== src/Orders/Store.antt =====
-- `OrderStoreV2`: live orders, their logs, the open orders in all and by account, the exchange
-- references, and the queue of closed orders whose length bounds what is kept.
-- The clock (`gen_timestamp_ms`) and the id counter (`gen_order_id`) are arguments.
use zkbot.Prelude.{
  ℕ, ℤ, pos, int_beq, int_eq, nat_eq, pair_eq, Bool, false, not, ◌&&◌, Option, none, some, is_some,
  String, HashMap, HashSet, lookup, insert, set_insert, unwrap_or, List, [], ◌∷◌, if◌then◌else◌,
}
use zkbot.Intern
use zkbot.Intern.{DynStringTable, intern}
use zkbot.Orders.Types.{
  pending, LiveOrder, OrderDetailLog, OrderAccountingFlags, OrderRequest, SendOrderRequest,
  ResolvedOrderMeta, is_in_terminal_state,
}

pub record OrderStore : Type 0 where
  pub live : HashMap ℤ LiveOrder
  pub detail : HashMap ℤ OrderDetailLog
  pub open_order_ids : HashSet ℤ
  pub open_by_account : HashMap ℤ (HashSet ℤ)
  pub order_id_by_exch_ref : HashMap (ℕ × ℕ) ℤ
  pub external_order_ids : HashMap (ℕ × ℕ) ℤ
  -- oldest first
  pub closed_lru : List ℤ
  pub max_cached_orders : ℕ
  pub dyn_strings : DynStringTable
  pub use_time_emulation : Bool

abbrev pub new : ℕ → Bool → OrderStore
new max_cached_orders use_time_emulation = record {
  live = [];
  detail = [];
  open_order_ids = [];
  open_by_account = [];
  order_id_by_exch_ref = [];
  external_order_ids = [];
  closed_lru = [];
  max_cached_orders = max_cached_orders;
  dyn_strings = Intern.new;
  use_time_emulation = use_time_emulation;
}

abbrev pub ref_key : ℕ → ℕ → ℕ × ℕ
ref_key gw_id ref_id = (gw_id, ref_id)

-- `open_by_account.entry(account_id).or_default()`
abbrev pub open_of : HashMap ℤ (HashSet ℤ) → ℤ → HashSet ℤ
open_of m account_id = unwrap_or (lookup account_id m) []

-- `open_order_ids.insert(id)` and the same in the index by account.
unfoldable pub open_order : OrderStore → ℤ → ℤ → OrderStore
open_order s account_id order_id = record s {
  open_order_ids = set_insert order_id s.open_order_ids;
  open_by_account =
      insert account_id (set_insert order_id (open_of s.open_by_account account_id))
        s.open_by_account;
}

-- `live.insert(id, ..); detail.insert(id, ..)`
unfoldable pub put_order : OrderStore → ℤ → LiveOrder → OrderDetailLog → OrderStore
put_order s order_id live detail = record s {
  live = insert order_id live s.live;
  detail = insert order_id detail s.detail;
}

unfoldable pub link_ref : OrderStore → ℕ → Option ℕ → ℤ → OrderStore
link_ref s gw_id none order_id = s
link_ref s gw_id (some ref_id) order_id = record s {
  order_id_by_exch_ref = insert (ref_key gw_id ref_id) order_id s.order_id_by_exch_ref;
}

-- One order of `init_with_orders`.
unfoldable pub init_order : OrderStore → LiveOrder → OrderDetailLog → OrderStore
unfolding open_order put_order
init_order s live detail =
    if int_beq live.order_id (pos 0)
    then s
    else let opened =
        if is_in_terminal_state live then s else open_order s live.account_id live.order_id in
      put_order (link_ref opened live.gw_id live.exch_order_ref_id live.order_id) live.order_id live
        detail

unfoldable pub init_with_orders : OrderStore → List (LiveOrder × OrderDetailLog) → OrderStore
init_with_orders s [] = s
init_with_orders s ((live, detail) ∷ orders) = init_with_orders (init_order s live detail) orders

abbrev pub new_live : ℤ → OrderRequest → ResolvedOrderMeta → OrderAccountingFlags → ℤ → LiveOrder
new_live order_id req meta flags ts = record {
  order_id = order_id;
  account_id = req.account_id;
  instrument_id = meta.instrument_id;
  gw_id = meta.gw_id;
  route_exch_account_sym = meta.exch_account_sym;
  source_sym = meta.source_sym;
  order_status = pending;
  buy_sell_type = req.buy_sell_type;
  open_close_type = req.open_close_type;
  order_type = req.order_type;
  tif_type = req.time_inforce_type;
  price = req.price;
  qty = req.qty;
  filled_qty = pos 0;
  filled_avg_price = pos 0;
  acc_trades_filled_qty = pos 0;
  acc_trades_value = pos 0;
  exch_order_ref_id = none;
  snapshot_version = 1;
  created_at = ts;
  updated_at = ts;
  is_external = false;
  cancel_attempts = 0;
  accounting_flags = flags;
  error_msg = "";
  terminal_at = none;
}

abbrev pub new_detail : ℤ → Option OrderRequest → Option SendOrderRequest → OrderDetailLog
new_detail order_id original_req last_gw_req = record {
  order_id = order_id;
  original_req = original_req;
  last_gw_req = last_gw_req;
  cancel_req = none;
  trades = [];
  inferred_trades = [];
  exec_msgs = [];
  fees = [];
}

-- `now` is what `gen_timestamp_ms` gives.
unfoldable pub create_order :
    OrderStore
    → ℤ
    → ℤ
    → OrderRequest
    → ResolvedOrderMeta
    → OrderAccountingFlags
    → Option SendOrderRequest
    → OrderStore
unfolding open_order put_order
create_order s now order_id req meta flags gw_req =
    let ts = if s.use_time_emulation then req.timestamp else now in
    open_order
      (put_order s order_id (new_live order_id req meta flags ts)
        (new_detail order_id (some req) gw_req))
      req.account_id order_id

unfoldable pub resolve_order_id : OrderStore → ℤ → ℕ → String → Option ℤ
resolve_order_id s order_id gw_id exch_ref =
    if not (int_beq order_id (pos 0)) && is_some (lookup order_id s.live)
    then some order_id
    else elim (Intern.lookup_id s.dyn_strings exch_ref) [
      | none ↦ none
      | some dyn_id ↦ lookup (ref_key gw_id dyn_id) s.order_id_by_exch_ref
    ]

unfoldable pub is_external : OrderStore → ℕ → ℕ → Bool
is_external s gw_id exch_ref_id = is_some (lookup (ref_key gw_id exch_ref_id) s.external_order_ids)

unfoldable pub get_open_orders_for_account : OrderStore → ℤ → List ℤ
get_open_orders_for_account s account_id = open_of s.open_by_account account_id

-- `if let Some(live) = self.live.get_mut(&order_id) { .. }`
unfoldable pub modify_live : (LiveOrder → LiveOrder) → ℤ → HashMap ℤ LiveOrder → HashMap ℤ LiveOrder
modify_live f order_id m = elim (lookup order_id m) [
  | none ↦ m
  | some live ↦ insert order_id (f live) m
]

unfoldable pub register_exch_ref : OrderStore → ℤ → ℕ → String → OrderStore
unfolding modify_live
register_exch_ref s order_id gw_id exch_ref =
    let (dyn_strings, dyn_id) = intern s.dyn_strings exch_ref in
    record s {
      dyn_strings = dyn_strings;
      order_id_by_exch_ref = insert (ref_key gw_id dyn_id) order_id s.order_id_by_exch_ref;
      live = modify_live (λ l. record l { exch_order_ref_id = some dyn_id }) order_id s.live;
    }
