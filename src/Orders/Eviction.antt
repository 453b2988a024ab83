-- ===== src/Orders/Eviction.antt =====
-- Closing an order, and the eviction of the oldest closed one, keep the store well formed.
use zkbot.Prelude.{
  ℕ, suc, ◌≤◌, ℤ, ◌==◌, int_eq, nat_eq, pair_eq, ◌≡◌, refl, inl, inr, true, false, ◌&&◌, lookup,
  contains, set_remove, lookup-insert, lookup-remove, contains-set_remove, ==_iff, ==_refl, List,
  [], ◌∷◌, ◌++◌, length, length-append, arith, Option-cases, ◌||◌, ap, sym, subst, dec_lt, ◌<◌,
}
use zkbot.Orders.Store.{OrderStore, open_of}
use zkbot.Orders.Closing.{cleanup_order, close_in_account, evict, mark_closed}
use zkbot.Orders.Invariant.{IsWellFormed, IsWellFormedUpTo, belongs_to}

pub contains-append :
    (j x : ℤ) (xs : List ℤ) → contains j (xs ++ (x ∷ [])) ≡ (contains j xs || x == j)
unfolding contains
contains-append j x [] = ground arith
contains-append j x (y ∷ xs) = ground (arith, contains-append j x xs)

contains_nil : (j : ℤ) → contains j [] ≡ false
unfolding contains
contains_nil j = refl

close_in_account-indexed :
    (s : OrderStore) (id a j : ℤ)
    → IsWellFormed s
    → contains j (open_of (close_in_account id (lookup id s.live) s.open_by_account) a)
      ≡ (contains j (set_remove id s.open_order_ids) && belongs_to a (lookup j s.live))
unfolding close_in_account
close_in_account-indexed s id a j v = elim (Option-cases (lookup id s.live)) [
  | inl e ↦
      rw (e, close_in_account)
        (ground (
          arith,
          v.indexed a j,
          v.open_live id,
          contains-set_remove id j s.open_order_ids,
          ==_iff id j,
          e,
        ))
  | inr (l, e) ↦
      let ids = open_of s.open_by_account l.account_id in
      rw (e, close_in_account)
        (ground (
          arith,
          v.indexed a j,
          v.indexed l.account_id j,
          contains-set_remove id j s.open_order_ids,
          contains-set_remove id j ids,
          lookup-insert l.account_id a (set_remove id ids) s.open_by_account,
          ==_iff id j,
          ==_iff l.account_id a,
          contains_nil j,
          e,
        ))
]

-- The store that `mark_closed` hands to `evict`.
abbrev pub closing : OrderStore → ℤ → OrderStore
closing s id = record s {
  open_order_ids = set_remove id s.open_order_ids;
  open_by_account = close_in_account id (lookup id s.live) s.open_by_account;
  closed_lru = s.closed_lru ++ (id ∷ []);
}

pub closing-IsWellFormed :
    (s : OrderStore) (id : ℤ)
    → IsWellFormed s
    → IsWellFormedUpTo (suc s.max_cached_orders) (closing s id)
closing-IsWellFormed s id v = record {
  logged = v.logged;
  own_id = v.own_id;
  open_live = λ j h. ground (arith, v.open_live j, contains-set_remove id j s.open_order_ids);
  closed_shut = λ j h. ground (
    arith,
    v.closed_shut j,
    contains-set_remove id j s.open_order_ids,
    contains-append j id s.closed_lru,
  );
  bounded = omega (arith, v.bounded, length-append s.closed_lru (id ∷ []));
  indexed = λ a j. close_in_account-indexed s id a j v;
}

pub head_in : (x : ℤ) (xs : List ℤ) → contains x (x ∷ xs) ≡ true
unfolding contains
head_in x xs = ground (arith, ==_refl x)

tail_in : (j x : ℤ) (xs : List ℤ) → contains j xs ≡ true → contains j (x ∷ xs) ≡ true
unfolding contains
tail_in j x xs h = ground arith

shorter :
    (n : ℕ) (xs : List ℤ) (x : ℤ) (rest : List ℤ)
    → xs ≡ x ∷ rest
    → length xs ≤ suc n
    → length rest ≤ n
shorter n xs x rest e h = omega (arith, ap (λ (l : List ℤ). length l) e)

evict_oldest :
    (s : OrderStore) (oldest : ℤ) (rest : List ℤ)
    → s.closed_lru ≡ oldest ∷ rest
    → IsWellFormedUpTo (suc s.max_cached_orders) s
    → IsWellFormed (cleanup_order (record s { closed_lru = rest }) oldest)
unfolding cleanup_order
evict_oldest s oldest rest e v =
    let shut : contains oldest s.open_order_ids ≡ false =
      v.closed_shut oldest (rw e (head_in oldest rest)) in
    record {
      logged = λ j.
          ground
            (arith, v.logged j, lookup-remove oldest j s.live, lookup-remove oldest j s.detail);
      own_id = λ j l h. ground (arith, v.own_id j l, lookup-remove oldest j s.live);
      open_live = λ j h.
          ground (arith, v.open_live j, lookup-remove oldest j s.live, ==_iff oldest j, shut);
      closed_shut = λ j h. v.closed_shut j (rw e (tail_in j oldest rest h));
      bounded = shorter s.max_cached_orders s.closed_lru oldest rest e v.bounded;
      indexed = λ a j.
          ground (arith, v.indexed a j, lookup-remove oldest j s.live, ==_iff oldest j, shut);
    }

pub evict_room : (s : OrderStore) → length s.closed_lru ≤ s.max_cached_orders → evict s ≡ s
unfolding evict
evict_room s h = ground arith

pub evict_full :
    (s : OrderStore) (oldest : ℤ) (rest : List ℤ)
    → s.closed_lru ≡ oldest ∷ rest
    → s.max_cached_orders < length s.closed_lru
    → evict s ≡ cleanup_order (record s { closed_lru = rest }) oldest
unfolding evict
evict_full s oldest rest e h = ground arith

fits_again :
    (s : OrderStore)
    → length s.closed_lru ≤ s.max_cached_orders
    → IsWellFormedUpTo (suc s.max_cached_orders) s
    → IsWellFormed s
fits_again s h v = record {
  logged = v.logged;
  own_id = v.own_id;
  open_live = v.open_live;
  closed_shut = v.closed_shut;
  bounded = h;
  indexed = v.indexed;
}

evict-IsWellFormed :
    (s : OrderStore) (queue : List ℤ)
    → s.closed_lru ≡ queue
    → IsWellFormedUpTo (suc s.max_cached_orders) s
    → IsWellFormed (evict s)
evict-IsWellFormed s [] e v =
    let room : length s.closed_lru ≤ s.max_cached_orders =
      omega (arith, ap (λ (l : List ℤ). length l) e) in
    subst IsWellFormed (sym (evict_room s room)) (fits_again s room v)
evict-IsWellFormed s (oldest ∷ rest) e v = elim (dec_lt s.max_cached_orders (length s.closed_lru)) [
  | yes full ↦
      subst IsWellFormed (sym (evict_full s oldest rest e full)) (evict_oldest s oldest rest e v)
  | no room ↦
      let le : length s.closed_lru ≤ s.max_cached_orders = omega arith in
      subst IsWellFormed (sym (evict_room s le)) (fits_again s le v)
]

pub mark_closed-IsWellFormed :
    (s : OrderStore) (id : ℤ) → IsWellFormed s → IsWellFormed (mark_closed s id)
unfolding mark_closed
mark_closed-IsWellFormed s id v =
    evict-IsWellFormed (closing s id) (s.closed_lru ++ (id ∷ [])) refl (closing-IsWellFormed s id v)
