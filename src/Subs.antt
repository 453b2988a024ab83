-- ===== src/Subs.antt =====
-- rust/crates/zk-rtmd-rs/src/sub_manager.rs: the reference counts of the market data
-- subscriptions, with the keys of types.rs.
-- The adapter answers a subscribe or an unsubscribe call by success or failure: that answer is an
-- argument, and the calls that are made are part of the result. A count is a usize in the source;
-- it does not overflow here.
pub mod Keys
pub mod Counts
pub mod Specs
pub mod Upstream
pub mod Startup
mod Examples
use zkbot.Prelude.{
  ℕ, zero, suc, ℤ, ◌==◌, Bool, true, false, not, ◌&&◌, String, Option, none, some, is_none,
  unwrap_or, HashMap, lookup, insert, remove, nat_beq, List, [], ◌∷◌, if◌then◌else◌, HashSet,
  contains,
}
use zkbot.Subs.Keys.{ChannelType, StreamKey, stream_eq, SubscriptionSpec}

pub record Lease : Type 0 where
  pub subscriber_id : String
  pub subscription_id : String
  pub instrument_code : String
  pub channel : ChannelType
  pub instrument_exch : String
  pub venue : String
  pub lease_expiry_ms : ℤ

abbrev pub stream_key : Lease → StreamKey
stream_key lease = record { instrument_code = lease.instrument_code; channel = lease.channel }

abbrev pub to_spec : Lease → SubscriptionSpec
to_spec lease = record {
  stream_key = stream_key lease;
  instrument_exch = lease.instrument_exch;
  venue = lease.venue;
}

pub data InterestChange : Type 0 where
  added : Lease → InterestChange
  removed : StreamKey → InterestChange

pub data AdapterCall : Type 0 where
  subscribe unsubscribe : SubscriptionSpec → AdapterCall

-- `state` of the manager: the count of a stream and a spec for the adapter.
abbrev pub State : Type 0
State = HashMap StreamKey (ℕ × SubscriptionSpec)

abbrev pub refcount_of : Option (ℕ × SubscriptionSpec) → ℕ
refcount_of none = 0
refcount_of (some (n, spec)) = n

unfoldable pub refcount : State → StreamKey → ℕ
refcount state key = refcount_of (lookup key state)

-- `entry(key).or_insert((0, spec))`, then `entry.0 += 1`.
unfoldable pub add_lease : State → StreamKey → SubscriptionSpec → State
add_lease state key spec =
    let (n, kept) = unwrap_or (lookup key state) (0, spec) in insert key (suc n, kept) state

-- The roll back after a subscribe that failed: one less, and no entry at 0.
abbrev pub with_less : State → StreamKey → ℕ → SubscriptionSpec → State
with_less state key zero spec = remove key state
with_less state key (suc zero) spec = remove key state
with_less state key (suc (suc n)) spec = insert key (suc n, spec) state

unfoldable pub roll_back : State → StreamKey → State
roll_back state key = elim (lookup key state) [
  | none ↦ state
  | some (n, spec) ↦ with_less state key n spec
]

abbrev pub drop_entry : State → StreamKey → ℕ → SubscriptionSpec → State × Option SubscriptionSpec
drop_entry state key zero spec = (state, none)
drop_entry state key (suc zero) spec = (remove key state, some spec)
drop_entry state key (suc (suc n)) spec = (insert key (suc n, spec) state, none)

-- The state after a lease is removed, and the spec to unsubscribe where it was the last.
unfoldable pub drop_lease : State → StreamKey → State × Option SubscriptionSpec
drop_lease state key = elim (lookup key state) [
  | none ↦ (state, none)
  | some (n, spec) ↦ drop_entry state key n spec
]

-- `state.entry(key).or_insert((1, spec))`
abbrev pub reinsert : State → StreamKey → SubscriptionSpec → State
reinsert state key spec = if is_none (lookup key state) then insert key (1, spec) state else state

abbrev pub finish_removal :
    State × Option SubscriptionSpec → StreamKey → Bool → State × List AdapterCall
finish_removal (state, none) key answer = (state, [])
finish_removal (state, some spec) key answer =
    (if answer then state else reinsert state key spec, unsubscribe spec ∷ [])

-- The state after a change and the adapter calls that it made; `answer` is whether the adapter
-- succeeds.
unfoldable pub apply_change : State → InterestChange → Bool → State × List AdapterCall
unfolding refcount
apply_change state (added lease) answer =
    let key = stream_key lease in
    let state' = add_lease state key (to_spec lease) in
    if nat_beq (refcount state' key) 1
    then (if answer then state' else roll_back state' key, subscribe (to_spec lease) ∷ [])
    else (state', [])
apply_change state (removed key) answer = finish_removal (drop_lease state key) key answer

-- The leases of a snapshot counted, and what must be subscribed for them.
unfoldable pub count_leases : HashSet StreamKey → State → List Lease → State × List SubscriptionSpec
unfolding refcount
count_leases active state [] = (state, [])
count_leases active state (lease ∷ leases) =
    let key = stream_key lease in
    let state' = add_lease state key (to_spec lease) in
    let (counted, specs) =
      count_leases active (add_lease state (stream_key lease) (to_spec lease)) leases in
    if nat_beq (refcount state' key) 1 && not (contains key active)
    then (counted, to_spec lease ∷ specs)
    else (counted, specs)

-- `for (key, spec) in to_subscribe { adapter.subscribe(spec) }`
abbrev pub subscribe_all : List SubscriptionSpec → List AdapterCall
subscribe_all [] = []
subscribe_all (spec ∷ specs) = subscribe spec ∷ subscribe_all specs

-- `active` is what the adapter's `snapshot_active` gives. A call that fails is only logged.
unfoldable pub reconcile_on_start :
    HashSet StreamKey → State → List Lease → State × List AdapterCall
reconcile_on_start active state leases =
    let (state', specs) = count_leases active state leases in (state', subscribe_all specs)
