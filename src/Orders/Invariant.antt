-- ===== src/Orders/Invariant.antt =====
-- The order store stays well formed under its operations.
use zkbot.Prelude.{
  ℕ, ◌≤◌, ℤ, ◌==◌, int_eq, nat_eq, pair_eq, ◌≡◌, Bool, true, false, ◌&&◌, Option, none, some,
  is_some, lookup, contains, set_insert, lookup-insert, contains-set_insert, ==_iff, length, arith,
}
use zkbot.Orders.Types.{LiveOrder, OrderDetailLog}
use zkbot.Orders.Store.{OrderStore, open_of, open_order, put_order}

-- Whether an order that was looked up belongs to the account.
abbrev pub belongs_to : ℤ → Option LiveOrder → Bool
belongs_to a none = false
belongs_to a (some l) = l.account_id == a

-- A well-formed store: an order is live exactly when it has a log, and stands under its own id; an
-- open order is live; a closed order is not open; the queue of closed orders is within its
-- limit; and the index lists an order under an account exactly when the order is open and
-- belongs to it.
pub record IsWellFormedUpTo (limit : ℕ) (s : OrderStore) : Type 0 where
  pub logged : (id : ℤ) → is_some (lookup id s.live) ≡ is_some (lookup id s.detail)
  pub own_id : (id : ℤ) (l : LiveOrder) → lookup id s.live ≡ some l → l.order_id ≡ id
  pub open_live : (id : ℤ) → contains id s.open_order_ids ≡ true → is_some (lookup id s.live) ≡ true
  pub closed_shut :
      (id : ℤ) → contains id s.closed_lru ≡ true → contains id s.open_order_ids ≡ false
  pub bounded : length s.closed_lru ≤ limit
  pub indexed :
      (a id : ℤ)
      → contains id (open_of s.open_by_account a)
        ≡ (contains id s.open_order_ids && belongs_to a (lookup id s.live))

abbrev pub IsWellFormed : OrderStore → Type 0
IsWellFormed s = IsWellFormedUpTo s.max_cached_orders s

-- An id that the store has never closed and does not hold.
abbrev pub IsFresh : OrderStore → ℤ → Type 0
IsFresh s id = (lookup id s.live ≡ none) × (contains id s.closed_lru ≡ false)

module _ (s : OrderStore) (id : ℤ) (live : LiveOrder) (detail : OrderDetailLog)
    (own : live.order_id ≡ id) (v : IsWellFormed s) (fresh : IsFresh s id) where
  not_open : contains id s.open_order_ids ≡ false
  not_open = ground (arith, v.open_live id)

  pub put_order-IsWellFormed : IsWellFormed (put_order s id live detail)
  unfolding put_order
  put_order-IsWellFormed = record {
    logged = λ j.
        ground
          (arith, lookup-insert id j live s.live, lookup-insert id j detail s.detail, v.logged j);
    own_id = λ j l h. ground (arith, lookup-insert id j live s.live, v.own_id j l, ==_iff id j);
    open_live = λ j h. ground (arith, lookup-insert id j live s.live, v.open_live j);
    closed_shut = v.closed_shut;
    bounded = v.bounded;
    indexed =
        λ a j. ground (arith, lookup-insert id j live s.live, v.indexed a j, ==_iff id j, not_open);
  }

  pub open_order-IsWellFormed :
      (account : ℤ)
      → live.account_id ≡ account
      → IsWellFormed (open_order (put_order s id live detail) account id)
  unfolding open_order put_order
  open_order-IsWellFormed account same =
      let w = put_order-IsWellFormed in
      let ids = open_of s.open_by_account account in
      record {
        logged = w.logged;
        own_id = w.own_id;
        open_live = λ j h. ground (
          arith,
          lookup-insert id j live s.live,
          v.open_live j,
          contains-set_insert id j s.open_order_ids,
        );
        closed_shut = λ j h.
            ground (
              arith,
              v.closed_shut j,
              contains-set_insert id j s.open_order_ids,
              ==_iff id j,
              fresh,
            );
        bounded = v.bounded;
        indexed = λ a j. ground (
          arith,
          lookup-insert id j live s.live,
          lookup-insert account a (set_insert id ids) s.open_by_account,
          contains-set_insert id j ids,
          contains-set_insert id j s.open_order_ids,
          v.indexed a j,
          v.indexed account j,
          ==_iff id j,
          ==_iff account a,
          same,
          not_open,
        );
      }
