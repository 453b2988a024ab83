-- ===== src/Subs/Startup.antt =====
-- `reconcile_on_start`: the leases of a snapshot are counted, and what is not yet active upstream is
-- subscribed.
use zkbot.Prelude.{
  ℕ, suc, ◌+◌, ◌==◌, ==_iff, ==_refl, ◌≡◌, ap, ◌∙◌, inl, inr, Bool, true, false, not, ◌&&◌, ◌||◌,
  lookup, HashSet, contains, set_insert, contains-set_insert, nat_beq, ltb, List, [], ◌∷◌,
  if◌then◌else◌, arith, Bool-cases,
}
use zkbot.Subs.Keys.{StreamKey, stream_eq, SubscriptionSpec}
use zkbot.Subs.{
  State, Lease, stream_key, to_spec, refcount, add_lease, count_leases, subscribe_all,
  reconcile_on_start,
}
use zkbot.Subs.Upstream.{after_calls}
use zkbot.Subs.Counts.{refcount-add_lease}

pub lease_count : StreamKey → List Lease → ℕ
lease_count key [] = 0
lease_count key (lease ∷ leases) =
    let rest = lease_count key leases in if stream_key lease == key then suc rest else rest

pub is_requested : StreamKey → List SubscriptionSpec → Bool
is_requested key [] = false
is_requested key (spec ∷ specs) = spec.stream_key == key || is_requested key specs

count_from :
    (active : HashSet StreamKey) (state : State) (leases : List Lease) (j : StreamKey)
    → refcount (count_leases active state leases).0 j ≡ refcount state j + lease_count j leases
unfolding count_leases lease_count
count_from active state [] j = omega arith
count_from active state (lease ∷ leases) j =
    let key = stream_key lease in
    let state' = add_lease state key (to_spec lease) in
    let rest = count_from active state' leases j in
    let one = refcount-add_lease state key j (to_spec lease) in
    elim (Bool-cases (nat_beq (refcount state' key) 1 && not (contains key active))) [
      | inl e ↦ rw e (ground (arith, rest, one, ==_iff key j))
      | inr e ↦ rw e (ground (arith, rest, one, ==_iff key j))
    ]

requested_from :
    (active : HashSet StreamKey) (state : State) (leases : List Lease) (j : StreamKey)
    → is_requested j (count_leases active state leases).1
      ≡ (nat_beq (refcount state j) 0 && ltb 0 (lease_count j leases) && not (contains j active))
unfolding count_leases lease_count is_requested
requested_from active state [] j = ground arith
requested_from active state (lease ∷ leases) j =
    let key = stream_key lease in
    let state' = add_lease state key (to_spec lease) in
    let rest = requested_from active state' leases j in
    let here = refcount-add_lease state key key (to_spec lease) in
    let there = refcount-add_lease state key j (to_spec lease) in
    let kept : (key == j) ≡ true
        → (contains key active ≡ contains j active) × (refcount state key ≡ refcount state j) =
      λ q. (
        ap (λ k. contains k active) ((==_iff key j).0 q),
        ap (λ k. refcount state k) ((==_iff key j).0 q),
      ) in
    elim (Bool-cases (nat_beq (refcount state' key) 1 && not (contains key active))) [
      | inl e ↦ rw e (ground (arith, rest, here, there, ==_refl key, kept))
      | inr e ↦ rw e (ground (arith, rest, here, there, ==_refl key, kept))
    ]

-- On a new manager, after the snapshot is counted, the reference count of every stream is the
-- number of the leases for it, and the streams that are then subscribed are exactly those that
-- have a lease and are not active upstream.
pub count_leases_lem :
    (active : HashSet StreamKey) (leases : List Lease) (j : StreamKey)
    → let (state, specs) = count_leases active [] leases in
      (refcount state j ≡ lease_count j leases)
      × (is_requested j specs ≡ (ltb 0 (lease_count j leases) && not (contains j active)))
unfolding lookup refcount
count_leases_lem active leases j =
    (count_from active [] leases j ∙ omega arith, requested_from active [] leases j)

subscribed_all :
    (specs : List SubscriptionSpec) (up : HashSet StreamKey) (j : StreamKey)
    → contains j (after_calls true (subscribe_all specs) up)
      ≡ (contains j up || is_requested j specs)
unfolding is_requested
subscribed_all [] up j = ground arith
subscribed_all (spec ∷ specs) up j = ground (
  arith,
  subscribed_all specs (set_insert spec.stream_key up) j,
  contains-set_insert spec.stream_key j up,
)

-- On a new manager, if the adapter accepts every call, the start leaves upstream exactly the
-- streams that were active before and those that have a positive reference count.
pub reconcile_on_start_synced :
    (active : HashSet StreamKey) (leases : List Lease) (j : StreamKey)
    → let (state, calls) = reconcile_on_start active [] leases in
      contains j (after_calls true calls active) ≡ (contains j active || ltb 0 (refcount state j))
unfolding reconcile_on_start
reconcile_on_start_synced active leases j = ground (
  arith,
  subscribed_all (count_leases active [] leases).1 active j,
  count_leases_lem active leases j,
)
