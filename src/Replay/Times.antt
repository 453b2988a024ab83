-- ===== src/Replay/Times.antt =====
-- The times of the events that a queue gives, one `pop` after the other.
use zkbot.Prelude.{
  ℕ, zero, suc, ℤ, ◌≤ℤ◌, ◌≡◌, refl, ap, subst, inl, inr, Option, none, some, List, [], ◌∷◌, All,
  length, arith, Bool-cases, Option-cases,
}
use zkbot.Replay.{
  BtEvent, EventQueue, goes_before, heap_pop, stream_best, advance, dyn_wins, choose, heap_best,
  pop, len,
}
use zkbot.Replay.Heads.{IsLate, HeadsLate, pop_first, late_means}
use zkbot.Replay.Order.{left_after, len-pop}

module _ {M : Type 0} where
  -- The times of the list do not fall, and start no lower than `t`.
  abbrev pub IsRisingFrom : ℤ → List (BtEvent M) → Type 0
  IsRisingFrom t [] = Unit
  IsRisingFrom t (x ∷ xs) = (t ≤ℤ x.ts_ms) × IsRisingFrom x.ts_ms xs

  -- Nothing in the queue is before `t`, and each recorded stream is in order.
  pub record IsQueueFrom (t : ℤ) (q : EventQueue M) : Type 0 where
    pub later : All (λ (x : BtEvent M). t ≤ℤ x.ts_ms) q.dynamic
    pub ordered : All (IsRisingFrom t) q.streams

  heap_others :
      (P : BtEvent M → Type 0) (x : BtEvent M) (ys : List (BtEvent M))
      → All P (x ∷ ys)
      → All P (heap_pop x ys).1
  unfolding heap_pop
  heap_others P x [] h = tt
  heap_others P x (y ∷ ys) h = elim (Bool-cases (goes_before (heap_pop y ys).0 x)) [
    | inl e ↦ rw e (h.0, heap_others P y ys h.1)
    | inr e ↦ rw e h.1
  ]

  late_All :
      (e : BtEvent M) (xs : List (BtEvent M))
      → All (IsLate e) xs
      → All (λ (x : BtEvent M). e.ts_ms ≤ℤ x.ts_ms) xs
  late_All e [] h = tt
  late_All e (x ∷ xs) h = ((late_means e x h.0).0, late_All e xs h.1)

  heads_rise :
      (t : ℤ) (e : BtEvent M) (ss : List (List (BtEvent M)))
      → HeadsLate e ss
      → All (IsRisingFrom t) ss
      → All (IsRisingFrom e.ts_ms) ss
  heads_rise t e [] h r = tt
  heads_rise t e ([] ∷ ss) h r = (tt, heads_rise t e ss h r.1)
  heads_rise t e ((x ∷ xs) ∷ ss) h r = (((late_means e x h.0).0, r.0.1), heads_rise t e ss h.1 r.1)

  from_lower : (t u : ℤ) (xs : List (BtEvent M)) → t ≤ℤ u → IsRisingFrom u xs → IsRisingFrom t xs
  from_lower t u [] h r = tt
  from_lower t u (x ∷ xs) h r = (omega (arith, r.0), r.1)

  advance_rise :
      (t : ℤ) (i : ℕ) (ss : List (List (BtEvent M)))
      → All (IsRisingFrom t) ss
      → All (IsRisingFrom t) (advance i ss)
  unfolding advance
  advance_rise t i [] r = tt
  advance_rise t zero ([] ∷ ss) r = r
  advance_rise t zero ((x ∷ xs) ∷ ss) r = (from_lower t x.ts_ms xs r.0.0 r.0.1, r.1)
  advance_rise t (suc i) (s ∷ ss) r = (r.0, advance_rise t i ss r.1)

  heap_best_in :
      (P : BtEvent M → Type 0) (x : BtEvent M) (ys : List (BtEvent M))
      → All P (x ∷ ys)
      → P (heap_pop x ys).0
  unfolding heap_pop
  heap_best_in P x [] h = h.0
  heap_best_in P x (y ∷ ys) h = elim (Bool-cases (goes_before (heap_pop y ys).0 x)) [
    | inl e ↦ rw e (heap_best_in P y ys h.1)
    | inr e ↦ rw e h.0
  ]

  best_from :
      (t : ℤ) (ss : List (List (BtEvent M))) (i : ℕ) (e : BtEvent M)
      → stream_best ss ≡ some (i, e)
      → All (IsRisingFrom t) ss
      → t ≤ℤ e.ts_ms
  unfolding stream_best
  best_from t [] i e h r = ground arith
  best_from t ([] ∷ ss) i e h r = elim (Option-cases (stream_best ss)) [
    | inl q ↦ ground arith
    | inr ((j, f), q) ↦
        let same : f ≡ e = ground arith in
        subst (λ (x : BtEvent M). t ≤ℤ x.ts_ms) same (best_from t ss j f q r.1)
  ]
  best_from t ((x ∷ xs) ∷ ss) i e h r = elim (Option-cases (stream_best ss)) [
    | inl q ↦ let same : x ≡ e = ground arith in subst (λ (y : BtEvent M). t ≤ℤ y.ts_ms) same r.0.0
    | inr ((j, f), q) ↦ elim (Bool-cases (goes_before f x)) [
      | inl b ↦
          let same : f ≡ e = ground arith in
          subst (λ (y : BtEvent M). t ≤ℤ y.ts_ms) same (best_from t ss j f q r.1)
      | inr b ↦
          let same : x ≡ e = ground arith in subst (λ (y : BtEvent M). t ≤ℤ y.ts_ms) same r.0.0
    ]
  ]

  -- What a choice gives, and what it leaves of the queue.
  abbrev IsKept : ℤ → Option (BtEvent M × EventQueue M) → Type 0
  IsKept t none = Unit
  IsKept t (some (e, q')) = (t ≤ℤ e.ts_ms) × IsQueueFrom t q'

  dynamic-IsKept :
      (t : ℤ) (q : EventQueue M) (x : BtEvent M) (xs : List (BtEvent M))
      → All (λ (y : BtEvent M). t ≤ℤ y.ts_ms) (x ∷ xs)
      → All (IsRisingFrom t) q.streams
      → IsKept t (some ((heap_pop x xs).0, record q { dynamic = (heap_pop x xs).1 }))
  dynamic-IsKept t q x xs h r = (
    heap_best_in (λ (y : BtEvent M). t ≤ℤ y.ts_ms) x xs h,
    record { later = heap_others (λ (y : BtEvent M). t ≤ℤ y.ts_ms) x xs h; ordered = r },
  )

  stream-IsKept :
      (t : ℤ) (q : EventQueue M) (i : ℕ) (f : BtEvent M)
      → stream_best q.streams ≡ some (i, f)
      → IsQueueFrom t q
      → IsKept t (some (f, record q { streams = advance i q.streams }))
  stream-IsKept t q i f k v = (
    best_from t q.streams i f k v.ordered,
    record { later = v.later; ordered = advance_rise t i q.streams v.ordered },
  )

  choose-IsKept :
      (t : ℤ) (q : EventQueue M) (dynamic : List (BtEvent M)) (o : Option (ℕ × BtEvent M))
      → All (λ (y : BtEvent M). t ≤ℤ y.ts_ms) dynamic
      → stream_best q.streams ≡ o
      → IsQueueFrom t q
      → IsKept t (choose q (heap_best dynamic) o)
  choose-IsKept t q [] none d k v = tt
  choose-IsKept t q [] (some (i, f)) d k v = stream-IsKept t q i f k v
  choose-IsKept t q (x ∷ xs) none d k v = dynamic-IsKept t q x xs d v.ordered
  choose-IsKept t q (x ∷ xs) (some (i, f)) d k v =
      elim (Bool-cases (dyn_wins (heap_pop x xs).0 f)) [
        | inl b ↦ rw b (dynamic-IsKept t q x xs d v.ordered)
        | inr b ↦ rw b (stream-IsKept t q i f k v)
      ]

  pop-IsKept : (t : ℤ) (q : EventQueue M) → IsQueueFrom t q → IsKept t (pop q)
  unfolding pop
  pop-IsKept t q v = choose-IsKept t q q.dynamic (stream_best q.streams) v.later refl v

  -- After a `pop` nothing in the queue is before the event that it gave.
  pop-IsQueueFrom :
      (t : ℤ) (q q' : EventQueue M) (e : BtEvent M)
      → IsQueueFrom t q
      → pop q ≡ some (e, q')
      → IsQueueFrom e.ts_ms q'
  pop-IsQueueFrom t q q' e v h =
      let first = pop_first q q' e h in
      let now : IsQueueFrom e.ts_ms q = record {
        later = late_All e q.dynamic first.0;
        ordered = heads_rise t e q.streams first.1 v.ordered;
      } in
      (subst (IsKept e.ts_ms) h (pop-IsKept e.ts_ms q now)).1

  -- The events that `n` calls of `pop` give.
  unfoldable pub drain : ℕ → EventQueue M → List (BtEvent M)
  unfolding pop
  drain zero q = []
  drain (suc n) q = elim (pop q) [ none ↦ [] | some (e, q') ↦ e ∷ drain n q' ]

  left_len :
      (q q' : EventQueue M) (e : BtEvent M)
      → pop q ≡ some (e, q')
      → left_after (pop q) ≡ suc (len q')
  unfolding len
  left_len q q' e h = rw h refl

  length-drain : (n : ℕ) (q : EventQueue M) → len q ≡ n → length (drain n q) ≡ n
  unfolding drain
  length-drain zero q h = refl
  length-drain (suc n) q h = elim (Option-cases (pop q)) [
    | inl e ↦ ground (arith, ap left_after e, len-pop q)
    | inr ((x, q'), e) ↦
        let less : len q' ≡ n = omega (arith, len-pop q, left_len q q' x e) in
        rw (e, drain) (omega (arith, length-drain n q' less))
  ]

  drain_rises : (n : ℕ) (t : ℤ) (q : EventQueue M) → IsQueueFrom t q → IsRisingFrom t (drain n q)
  unfolding drain
  drain_rises zero t q v = tt
  drain_rises (suc n) t q v = elim (Option-cases (pop q)) [
    | inl e ↦ rw (e, drain) tt
    | inr ((x, q'), e) ↦
        rw (e, drain)
          (
            (subst (IsKept t) e (pop-IsKept t q v)).0,
            drain_rises n x.ts_ms q' (pop-IsQueueFrom t q q' x v e),
          )
  ]

  -- Where nothing in a queue is before `t` and each of its streams is in order, popping it until it
  -- is empty gives as many events as it holds, their times in order and none before `t`.
  pub drain_lem :
      (t : ℤ) (q : EventQueue M)
      → IsQueueFrom t q
      → (length (drain (len q) q) ≡ len q) × IsRisingFrom t (drain (len q) q)
  drain_lem t q v = (length-drain (len q) q refl, drain_rises (len q) t q v)
