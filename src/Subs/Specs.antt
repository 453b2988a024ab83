-- ===== src/Subs/Specs.antt =====
-- The spec that the manager keeps for a stream is one of that stream.
use zkbot.Prelude.{
  ℕ, zero, suc, ==_iff, ◌≡◌, refl, inl, inr, Bool, true, false, Option, none, some, is_none, lookup,
  insert, remove, lookup-insert, lookup-remove, nat_beq, arith, Bool-cases, Option-cases,
}
use zkbot.Subs.Keys.{StreamKey, stream_eq, SubscriptionSpec}
use zkbot.Subs.{
  State, stream_key, to_spec, InterestChange, added, removed, refcount, add_lease, roll_back,
  drop_lease, finish_removal, apply_change, reinsert,
}

abbrev pub HasOwnSpecs : State → Type 0
HasOwnSpecs state =
    (key : StreamKey) (n : ℕ) (spec : SubscriptionSpec)
    → lookup key state ≡ some (n, spec)
    → spec.stream_key ≡ key

insert_own :
    (state : State) (key : StreamKey) (n : ℕ) (spec : SubscriptionSpec)
    → spec.stream_key ≡ key
    → HasOwnSpecs state
    → HasOwnSpecs (insert key (n, spec) state)
insert_own state key n spec own v j m other h =
    ground (arith, lookup-insert key j (n, spec) state, v j m other, ==_iff key j)

remove_own : (state : State) (key : StreamKey) → HasOwnSpecs state → HasOwnSpecs (remove key state)
remove_own state key v j m other h = ground (arith, lookup-remove key j state, v j m other)

reinsert_own :
    (state : State) (key : StreamKey) (spec : SubscriptionSpec)
    → spec.stream_key ≡ key
    → HasOwnSpecs state
    → HasOwnSpecs (reinsert state key spec)
reinsert_own state key spec own v = elim (Bool-cases (is_none (lookup key state))) [
  | inl e ↦ rw e (insert_own state key 1 spec own v)
  | inr e ↦ rw e v
]

add_own :
    (state : State) (key : StreamKey) (spec : SubscriptionSpec)
    → spec.stream_key ≡ key
    → HasOwnSpecs state
    → HasOwnSpecs (add_lease state key spec)
unfolding add_lease
add_own state key spec own v = elim (Option-cases (lookup key state)) [
  | inl e ↦ rw (e, add_lease) (insert_own state key 1 spec own v)
  | inr ((n, kept), e) ↦ rw (e, add_lease) (insert_own state key (suc n) kept (v key n kept e) v)
]

roll_back_own :
    (state : State) (key : StreamKey) (o : Option (ℕ × SubscriptionSpec))
    → lookup key state ≡ o
    → HasOwnSpecs state
    → HasOwnSpecs (roll_back state key)
unfolding roll_back
roll_back_own state key none e v = rw (e, roll_back) v
roll_back_own state key (some (zero, spec)) e v = rw (e, roll_back) (remove_own state key v)
roll_back_own state key (some (suc zero, spec)) e v = rw (e, roll_back) (remove_own state key v)
roll_back_own state key (some (suc (suc n), spec)) e v =
    rw (e, roll_back) (insert_own state key (suc n) spec (v key (suc (suc n)) spec e) v)

removal_own :
    (state : State) (key : StreamKey) (answer : Bool) (o : Option (ℕ × SubscriptionSpec))
    → lookup key state ≡ o
    → HasOwnSpecs state
    → HasOwnSpecs (finish_removal (drop_lease state key) key answer).0
unfolding drop_lease
removal_own state key answer none e v = rw (e, drop_lease) v
removal_own state key answer (some (zero, spec)) e v = rw (e, drop_lease) v
removal_own state key true (some (suc zero, spec)) e v = rw (e, drop_lease) (remove_own state key v)
removal_own state key false (some (suc zero, spec)) e v =
    rw (e, drop_lease)
      (reinsert_own (remove key state) key spec (v key 1 spec e) (remove_own state key v))
removal_own state key answer (some (suc (suc n), spec)) e v =
    rw (e, drop_lease) (insert_own state key (suc n) spec (v key (suc (suc n)) spec e) v)

pub apply_change-HasOwnSpecs :
    (state : State) (change : InterestChange) (answer : Bool)
    → HasOwnSpecs state
    → HasOwnSpecs (apply_change state change answer).0
unfolding apply_change
apply_change-HasOwnSpecs state (removed key) answer v =
    removal_own state key answer (lookup key state) refl v
apply_change-HasOwnSpecs state (added lease) true v =
    let state' = add_lease state (stream_key lease) (to_spec lease) in
    let w = add_own state (stream_key lease) (to_spec lease) refl v in
    elim (Bool-cases (nat_beq (refcount state' (stream_key lease)) 1)) [
      | inl e ↦ rw e w
      | inr e ↦ rw e w
    ]
apply_change-HasOwnSpecs state (added lease) false v =
    let key = stream_key lease in
    let state' = add_lease state key (to_spec lease) in
    let w = add_own state key (to_spec lease) refl v in
    elim (Bool-cases (nat_beq (refcount state' key) 1)) [
      | inl e ↦ rw e (roll_back_own state' key (lookup key state') refl w)
      | inr e ↦ rw e w
    ]
