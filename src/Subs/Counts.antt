-- ===== src/Subs/Counts.antt =====
-- What a change does to the reference counts.
use zkbot.Prelude.{
  ℕ, zero, suc, ◌==◌, ==_iff, ==_refl, ◌≡◌, refl, subst, inl, inr, ◌⊎◌, ◌≢◌, Bool, true, false,
  Option, none, some, lookup, insert, remove, lookup-insert, lookup-remove, lookup-remove_self,
  nat_beq, if◌then◌else◌, arith, Bool-cases, Option-cases,
}
use zkbot.Subs.Keys.{StreamKey, stream_eq, SubscriptionSpec}
use zkbot.Subs.{
  State, Lease, stream_key, to_spec, InterestChange, added, removed, refcount, refcount_of,
  add_lease, roll_back, drop_lease, finish_removal, apply_change, reinsert,
}

-- The stream of a change.
abbrev pub key_of : InterestChange → StreamKey
key_of (added lease) = stream_key lease
key_of (removed key) = key

-- What a change makes of the count of its stream: a first lease counts only if the subscription
-- succeeds, and a last lease goes only if its end does.
abbrev pub counted : InterestChange → Bool → ℕ → ℕ
counted (added lease) answer zero = if answer then 1 else 0
counted (added lease) answer (suc n) = suc (suc n)
counted (removed key) answer zero = 0
counted (removed key) answer (suc zero) = if answer then 0 else 1
counted (removed key) answer (suc (suc n)) = suc n

pub refcount-insert :
    (state : State) (key j : StreamKey) (n : ℕ) (spec : SubscriptionSpec)
    → refcount (insert key (n, spec) state) j ≡ (if key == j then n else refcount state j)
unfolding refcount
refcount-insert state key j n spec = ground (arith, lookup-insert key j (n, spec) state)

pub refcount-remove :
    (state : State) (key j : StreamKey)
    → refcount (remove key state) j ≡ (if key == j then 0 else refcount state j)
unfolding refcount
refcount-remove state key j = ground (arith, lookup-remove key j state)

pub refcount-add_lease :
    (state : State) (key j : StreamKey) (spec : SubscriptionSpec)
    → refcount (add_lease state key spec) j
      ≡ (if key == j then suc (refcount state key) else refcount state j)
unfolding add_lease refcount
refcount-add_lease state key j spec = elim (Option-cases (lookup key state)) [
  | inl e ↦ rw (e, add_lease) (ground (arith, lookup-insert key j (1, spec) state))
  | inr ((n, kept), e) ↦ rw (e, add_lease) (ground (arith, lookup-insert key j (suc n, kept) state))
]

abbrev pred : ℕ → ℕ
pred zero = zero
pred (suc n) = n

pub refcount_at :
    (state : State) (key : StreamKey) (o : Option (ℕ × SubscriptionSpec))
    → lookup key state ≡ o
    → refcount state key ≡ refcount_of o
unfolding refcount
refcount_at state key o e = rw e refl

refcount_same :
    (state : State) (key j : StreamKey) → (key == j) ≡ true → refcount state j ≡ refcount state key
refcount_same state key j h =
    subst (λ k. refcount state k ≡ refcount state key) ((==_iff key j).0 h) refl

roll_back_cases :
    (state : State) (key j : StreamKey) (o : Option (ℕ × SubscriptionSpec))
    → lookup key state ≡ o
    → refcount (roll_back state key) j
      ≡ (if key == j then pred (refcount_of o) else refcount state j)
unfolding roll_back
roll_back_cases state key j none e =
    rw (e, roll_back) (ground (arith, refcount_same state key j, refcount_at state key none e))
roll_back_cases state key j (some (zero, spec)) e = rw (e, roll_back) (refcount-remove state key j)
roll_back_cases state key j (some (suc zero, spec)) e =
    rw (e, roll_back) (refcount-remove state key j)
roll_back_cases state key j (some (suc (suc m), spec)) e =
    rw (e, roll_back) (refcount-insert state key j (suc m) spec)

refcount-reinsert :
    (state : State) (key j : StreamKey) (spec : SubscriptionSpec)
    → refcount (reinsert (remove key state) key spec) j ≡ (if key == j then 1 else refcount state j)
refcount-reinsert state key j spec =
    let gone = lookup-remove_self key state in
    rw gone
      (ground (arith, refcount-insert (remove key state) key j 1 spec, refcount-remove state key j))

pub refcount-roll_back :
    (state : State) (key j : StreamKey)
    → refcount (roll_back state key) j
      ≡ (if key == j then pred (refcount state key) else refcount state j)
refcount-roll_back state key j =
    rw (refcount_at state key (lookup key state) refl)
      (roll_back_cases state key j (lookup key state) refl)

-- For a removal: the count that is left before the adapter is asked, and what is asked.
drop_cases :
    (state : State) (key j : StreamKey) (answer : Bool) (o : Option (ℕ × SubscriptionSpec))
    → lookup key state ≡ o
    → refcount (finish_removal (drop_lease state key) key answer).0 j
      ≡ (if key == j then counted (removed key) answer (refcount_of o) else refcount state j)
unfolding drop_lease
drop_cases state key j answer none e =
    rw (e, drop_lease) (ground (arith, refcount_same state key j, refcount_at state key none e))
drop_cases state key j answer (some (zero, spec)) e =
    rw (e, drop_lease)
      (ground (arith, refcount_same state key j, refcount_at state key (some (zero, spec)) e))
drop_cases state key j true (some (suc zero, spec)) e =
    rw (e, drop_lease) (refcount-remove state key j)
drop_cases state key j false (some (suc zero, spec)) e =
    rw (e, drop_lease) (refcount-reinsert state key j spec)
drop_cases state key j answer (some (suc (suc m), spec)) e =
    rw (e, drop_lease) (refcount-insert state key j (suc m) spec)

pub counted_kept :
    (lease : Lease) (answer : Bool) (n : ℕ)
    → (answer ≡ true) ⊎ (n ≢ 0)
    → counted (added lease) answer n ≡ suc n
counted_kept lease true zero h = refl
counted_kept lease false zero h = ground arith
counted_kept lease answer (suc n) h = refl

added_cases :
    (state : State) (lease : Lease) (answer : Bool) (j : StreamKey)
    → (nat_beq (refcount state (stream_key lease)) 0 ≡ true)
      ⊎ (nat_beq (refcount state (stream_key lease)) 0 ≡ false)
    → refcount (apply_change state (added lease) answer).0 j ≡ (
        if stream_key lease == j
        then counted (added lease) answer (refcount state (stream_key lease))
        else refcount state j)
unfolding apply_change
added_cases state lease true j c =
    let key = stream_key lease in
    let state' = add_lease state key (to_spec lease) in
    rw (counted_kept lease true (refcount state key) (inl refl))
      (elim (Bool-cases (nat_beq (refcount state' key) 1)) [
        | inl e ↦ rw e (refcount-add_lease state key j (to_spec lease))
        | inr e ↦ rw e (refcount-add_lease state key j (to_spec lease))
      ])
added_cases state lease false j (inl z) =
    let key = stream_key lease in
    let state' = add_lease state key (to_spec lease) in
    let none_yet : refcount state key ≡ 0 = ground arith in
    let one : refcount state' key ≡ 1 =
      ground (arith, refcount-add_lease state key key (to_spec lease), ==_refl key) in
    rw (one, none_yet)
      (ground (
        arith,
        refcount-roll_back state' key j,
        refcount-add_lease state key j (to_spec lease),
        one,
      ))
added_cases state lease false j (inr z) =
    let key = stream_key lease in
    let state' = add_lease state key (to_spec lease) in
    let some_yet : refcount state key ≢ 0 = λ q. ground arith in
    let more : nat_beq (refcount state' key) 1 ≡ false =
      ground (arith, refcount-add_lease state key key (to_spec lease), ==_refl key) in
    rw (more, counted_kept lease false (refcount state key) (inr some_yet))
      (refcount-add_lease state key j (to_spec lease))

-- For every stream, a change leaves the count that `counted` says at its own stream, whatever the
-- adapter answers, and no other count is touched.
pub refcount-apply_change :
    (state : State) (change : InterestChange) (answer : Bool) (j : StreamKey)
    → refcount (apply_change state change answer).0 j ≡ (
        if key_of change == j
        then counted change answer (refcount state (key_of change))
        else refcount state j)
unfolding apply_change
refcount-apply_change state (added lease) answer j =
    added_cases state lease answer j (Bool-cases (nat_beq (refcount state (stream_key lease)) 0))
refcount-apply_change state (removed key) answer j =
    let at = refcount_at state key (lookup key state) refl in
    rw at (drop_cases state key j answer (lookup key state) refl)
