-- ===== src/Subs/Upstream.antt =====
-- The venue side: the streams that are subscribed upstream and the reference counts.
use zkbot.Prelude.{
  ℕ, zero, suc, ◌==◌, ==_iff, ==_refl, ◌≡◌, refl, subst, ◌∙◌, ap, inl, inr, Bool, true, false,
  Option, none, some, lookup, HashSet, contains, set_insert, set_remove, contains-set_insert,
  contains-set_remove, nat_beq, ltb, List, [], ◌∷◌, if◌then◌else◌, arith, Bool-cases,
}
use zkbot.Subs.Keys.{StreamKey, stream_eq, SubscriptionSpec}
use zkbot.Subs.{
  State, Lease, stream_key, to_spec, InterestChange, added, removed, AdapterCall, subscribe,
  unsubscribe, refcount, refcount_of, add_lease, drop_lease, finish_removal, apply_change,
}
use zkbot.Subs.Specs.{HasOwnSpecs, apply_change-HasOwnSpecs}
use zkbot.Subs.Counts.{key_of, counted, refcount-apply_change, refcount-add_lease, refcount_at}

-- The streams that the venue sends after the calls, which all have the same answer.
abbrev pub after_calls : Bool → List AdapterCall → HashSet StreamKey → HashSet StreamKey
after_calls answer [] up = up
after_calls answer (subscribe spec ∷ calls) up =
    after_calls answer calls (if answer then set_insert spec.stream_key up else up)
after_calls answer (unsubscribe spec ∷ calls) up =
    after_calls answer calls (if answer then set_remove spec.stream_key up else up)

-- The manager's state and the venue's streams agree, and the spec that is kept for a stream is one
-- of that stream.
pub record IsInSync (state : State) (up : HashSet StreamKey) : Type 0 where
  pub synced : (key : StreamKey) → contains key up ≡ ltb 0 (refcount state key)
  pub own_spec : HasOwnSpecs state

now :
    (state : State) (up : HashSet StreamKey) (key : StreamKey) (o : Option (ℕ × SubscriptionSpec))
    → lookup key state ≡ o
    → IsInSync state up
    → contains key up ≡ ltb 0 (refcount_of o)
now state up key o e v = v.synced key ∙ ap (λ (n : ℕ). ltb 0 n) (refcount_at state key o e)

-- What does not change the streams leaves each as `b` says, where `b` is right at `key`.
unchanged :
    (up : HashSet StreamKey) (key j : StreamKey) (b : Bool)
    → contains key up ≡ b
    → contains j up ≡ (if key == j then b else contains j up)
unchanged up key j b h = elim (Bool-cases (key == j)) [
  | inl e ↦ rw e (subst (λ k. contains k up ≡ b) ((==_iff key j).0 e) h)
  | inr e ↦ rw e refl
]

added-calls :
    (state : State) (up : HashSet StreamKey) (lease : Lease) (answer : Bool) (j : StreamKey) (n : ℕ)
    → refcount state (stream_key lease) ≡ n
    → IsInSync state up
    → contains j (after_calls answer (apply_change state (added lease) answer).1 up)
      ≡ (if stream_key lease == j then ltb 0 (counted (added lease) answer n) else contains j up)
unfolding apply_change
added-calls state up lease true j zero e v =
    let key = stream_key lease in
    let one : nat_beq (refcount (add_lease state key (to_spec lease)) key) 1 ≡ true =
      ground (arith, refcount-add_lease state key key (to_spec lease), ==_refl key) in
    rw one (contains-set_insert key j up ∙ ground arith)
added-calls state up lease false j zero e v =
    let key = stream_key lease in
    let one : nat_beq (refcount (add_lease state key (to_spec lease)) key) 1 ≡ true =
      ground (arith, refcount-add_lease state key key (to_spec lease), ==_refl key) in
    rw one (unchanged up key j false (v.synced key ∙ ground arith))
added-calls state up lease answer j (suc n) e v =
    let key = stream_key lease in
    let more : nat_beq (refcount (add_lease state key (to_spec lease)) key) 1 ≡ false =
      ground (arith, refcount-add_lease state key key (to_spec lease), ==_refl key) in
    rw more (unchanged up key j (ltb 0 (suc (suc n))) (v.synced key ∙ ground arith))

removed-calls :
    (state : State) (up : HashSet StreamKey) (key : StreamKey) (answer : Bool) (j : StreamKey)
    (o : Option (ℕ × SubscriptionSpec))
    → lookup key state ≡ o
    → IsInSync state up
    → contains j (after_calls answer (finish_removal (drop_lease state key) key answer).1 up)
      ≡ (if key == j then ltb 0 (counted (removed key) answer (refcount_of o)) else contains j up)
unfolding drop_lease
removed-calls state up key answer j none e v =
    rw (e, drop_lease) (unchanged up key j false (now state up key none e v))
removed-calls state up key answer j (some (zero, spec)) e v =
    rw (e, drop_lease) (unchanged up key j false (now state up key (some (zero, spec)) e v))
removed-calls state up key true j (some (suc zero, spec)) e v =
    rw (e, drop_lease, v.own_spec key 1 spec e) (contains-set_remove key j up ∙ ground arith)
removed-calls state up key false j (some (suc zero, spec)) e v =
    rw (e, drop_lease) (unchanged up key j true (now state up key (some (suc zero, spec)) e v))
removed-calls state up key answer j (some (suc (suc n), spec)) e v =
    rw (e, drop_lease)
      (unchanged up key j (ltb 0 (suc n))
        (now state up key (some (suc (suc n), spec)) e v ∙ ground arith))

calls_lem :
    (state : State) (up : HashSet StreamKey) (change : InterestChange) (answer : Bool)
    (j : StreamKey)
    → IsInSync state up
    → contains j (after_calls answer (apply_change state change answer).1 up) ≡ (
        if key_of change == j
        then ltb 0 (counted change answer (refcount state (key_of change)))
        else contains j up)
unfolding apply_change
calls_lem state up (added lease) answer j v =
    added-calls state up lease answer j (refcount state (stream_key lease)) refl v
calls_lem state up (removed key) answer j v =
    let at = refcount_at state key (lookup key state) refl in
    rw at (removed-calls state up key answer j (lookup key state) refl v)

apply_change_synced :
    (state : State) (up : HashSet StreamKey) (change : InterestChange) (answer : Bool)
    → IsInSync state up
    → (j : StreamKey)
    → contains j (after_calls answer (apply_change state change answer).1 up)
      ≡ ltb 0 (refcount (apply_change state change answer).0 j)
apply_change_synced state up change answer v j = ground (
  arith,
  calls_lem state up change answer j v,
  refcount-apply_change state change answer j,
  v.synced j,
)

apply_change-IsInSync :
    (state : State) (up : HashSet StreamKey) (change : InterestChange) (answer : Bool)
    → IsInSync state up
    → IsInSync
        (apply_change state change answer).0
        (after_calls answer (apply_change state change answer).1 up)
apply_change-IsInSync state up change answer v = record {
  synced = apply_change_synced state up change answer v;
  own_spec = apply_change-HasOwnSpecs state change answer v.own_spec;
}

-- The watch loop: changes one after the other, each with the adapter's answer.
unfoldable pub watch :
    State × HashSet StreamKey → List (InterestChange × Bool) → State × HashSet StreamKey
watch (state, up) [] = (state, up)
watch (state, up) ((change, answer) ∷ changes) =
    watch
      (
        (apply_change state change answer).0,
        after_calls answer (apply_change state change answer).1 up,
      )
      changes

watch-IsInSync :
    (state : State) (up : HashSet StreamKey) (changes : List (InterestChange × Bool))
    → IsInSync state up
    → IsInSync (watch (state, up) changes).0 (watch (state, up) changes).1
unfolding watch
watch-IsInSync state up [] v = v
watch-IsInSync state up ((change, answer) ∷ changes) v =
    watch-IsInSync (apply_change state change answer).0
      (after_calls answer (apply_change state change answer).1 up) changes
      (apply_change-IsInSync state up change answer v)

new-IsInSync : IsInSync [] []
unfolding lookup contains refcount
new-IsInSync = record { synced = λ key. ground arith; own_spec = λ key n spec h. ground arith }

-- After any sequence of interest changes on a new manager, whatever the adapter answers to each
-- call, a stream is subscribed upstream exactly if its reference count is positive.
pub watch_synced :
    (changes : List (InterestChange × Bool)) (key : StreamKey)
    → contains key (watch ([], []) changes).1 ≡ ltb 0 (refcount (watch ([], []) changes).0 key)
watch_synced changes key = (watch-IsInSync [] [] changes new-IsInSync).synced key
