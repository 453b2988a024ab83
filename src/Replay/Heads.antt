-- ===== src/Replay/Heads.antt =====
-- The event that the queue gives next: nothing that is at hand goes before it.
use zkbot.Prelude.{
  ℕ, ltb, nat_beq, ◌≤◌, ◌<◌, ◌≤ℤ◌, ◌<ℤ◌, ◌⊎◌, ◌≡◌, refl, sym, subst, inl, inr, true, false, ◌&&◌,
  ◌||◌, Option, none, some, List, [], ◌∷◌, All, arith, Bool-cases, Option-cases,
}
use zkbot.Replay.{
  BtEvent, EventQueue, priority, goes_before, heap_pop, stream_best, dyn_wins, choose, heap_best,
  pop,
}

before_false :
    (p q m n : ℕ) → (ltb p q || (nat_beq p q && ltb n m)) ≡ false → (q ≤ p) × ((q < p) ⊎ (m ≤ n))
before_false p q m n h = ground arith

before_by :
    (p q m n : ℕ) → q ≤ p → (q < p) ⊎ (m ≤ n) → (ltb p q || (nat_beq p q && ltb n m)) ≡ false
before_by p q m n h k = ground arith

module _ {M : Type 0} where
  -- The second event does not go before the first.
  abbrev pub IsLate : BtEvent M → BtEvent M → Type 0
  IsLate a b = goes_before b a ≡ false

  -- No head of a stream goes before the event.
  abbrev pub HeadsLate : BtEvent M → List (List (BtEvent M)) → Type 0
  HeadsLate e [] = Unit
  HeadsLate e ([] ∷ ss) = HeadsLate e ss
  HeadsLate e ((x ∷ xs) ∷ ss) = IsLate e x × HeadsLate e ss

  pub late_means :
      (a b : BtEvent M)
      → IsLate a b
      → (a.ts_ms ≤ℤ b.ts_ms) × ((a.ts_ms <ℤ b.ts_ms) ⊎ (priority b.kind ≤ priority a.kind))
  late_means a b h = before_false _ _ _ _ h

  IsLate-by :
      (a b : BtEvent M)
      → a.ts_ms ≤ℤ b.ts_ms
      → (a.ts_ms <ℤ b.ts_ms) ⊎ (priority b.kind ≤ priority a.kind)
      → IsLate a b
  IsLate-by a b h k = before_by _ _ _ _ h k

  weaker :
      (a b c : BtEvent M)
      → (a.ts_ms ≤ℤ b.ts_ms) × ((a.ts_ms <ℤ b.ts_ms) ⊎ (priority b.kind ≤ priority a.kind))
      → (b.ts_ms ≤ℤ c.ts_ms) × ((b.ts_ms <ℤ c.ts_ms) ⊎ (priority c.kind ≤ priority b.kind))
      → (a.ts_ms <ℤ c.ts_ms) ⊎ (priority c.kind ≤ priority a.kind)
  weaker a b c (h, inl k) (h', k') = inl (omega arith)
  weaker a b c (h, inr k) (h', inl k') = inl (omega arith)
  weaker a b c (h, inr k) (h', inr k') = inr (omega arith)

  IsLate-trans : (a b c : BtEvent M) → IsLate a b → IsLate b c → IsLate a c
  IsLate-trans a b c h k =
      let ab = late_means a b h in
      let bc = late_means b c k in IsLate-by a c (omega (arith, ab, bc)) (weaker a b c ab bc)

  IsLate-flip : (a b : BtEvent M) → goes_before a b ≡ true → IsLate a b
  IsLate-flip a b h = ground arith

  IsLate-self : (a : BtEvent M) → IsLate a a
  IsLate-self a = ground arith

  wins-IsLate : (a b : BtEvent M) → dyn_wins a b ≡ true → IsLate a b
  wins-IsLate a b h = ground arith

  loses-IsLate : (a b : BtEvent M) → dyn_wins a b ≡ false → IsLate b a
  loses-IsLate a b h = ground arith

  All-IsLate :
      (a b : BtEvent M) (xs : List (BtEvent M)) → IsLate a b → All (IsLate b) xs → All (IsLate a) xs
  All-IsLate a b [] h q = tt
  All-IsLate a b (x ∷ xs) h q = (IsLate-trans a b x h q.0, All-IsLate a b xs h q.1)

  Heads-IsLate :
      (a b : BtEvent M) (ss : List (List (BtEvent M)))
      → IsLate a b
      → HeadsLate b ss
      → HeadsLate a ss
  Heads-IsLate a b [] h q = tt
  Heads-IsLate a b ([] ∷ ss) h q = Heads-IsLate a b ss h q
  Heads-IsLate a b ((x ∷ xs) ∷ ss) h q = (IsLate-trans a b x h q.0, Heads-IsLate a b ss h q.1)

  heap_pop_rest :
      (x y : BtEvent M) (ys : List (BtEvent M))
      → goes_before (heap_pop y ys).0 x ≡ true
      → (heap_pop x (y ∷ ys)).0 ≡ (heap_pop y ys).0
  unfolding heap_pop
  heap_pop_rest x y ys e = rw e refl

  heap_pop_head :
      (x y : BtEvent M) (ys : List (BtEvent M))
      → goes_before (heap_pop y ys).0 x ≡ false
      → (heap_pop x (y ∷ ys)).0 ≡ x
  unfolding heap_pop
  heap_pop_head x y ys e = rw e refl

  heap_pop_first : (x : BtEvent M) (ys : List (BtEvent M)) → All (IsLate (heap_pop x ys).0) (x ∷ ys)
  unfolding heap_pop
  heap_pop_first x [] = (IsLate-self x, tt)
  heap_pop_first x (y ∷ ys) =
      let rest = heap_pop_first y ys in
      let best = (heap_pop y ys).0 in
      elim (Bool-cases (goes_before best x)) [
        | inl e ↦
            subst (λ (b : BtEvent M). All (IsLate b) (x ∷ y ∷ ys)) (sym (heap_pop_rest x y ys e))
              (IsLate-flip best x e, rest)
        | inr e ↦
            subst (λ (b : BtEvent M). All (IsLate b) (x ∷ y ∷ ys)) (sym (heap_pop_head x y ys e))
              (IsLate-self x, All-IsLate x best (y ∷ ys) e rest)
      ]

  no_heads : (e : BtEvent M) (ss : List (List (BtEvent M))) → stream_best ss ≡ none → HeadsLate e ss
  unfolding stream_best
  no_heads e [] h = tt
  no_heads e ([] ∷ ss) h = elim (Option-cases (stream_best ss)) [
    | inl q ↦ no_heads e ss q
    | inr ((j, f), q) ↦ ground arith
  ]
  no_heads e ((x ∷ xs) ∷ ss) h = elim (Option-cases (stream_best ss)) [
    | inl q ↦ ground arith
    | inr ((j, f), q) ↦ elim (Bool-cases (goes_before f x)) [
      | inl b ↦ ground arith
      | inr b ↦ ground arith
    ]
  ]

  stream_best_first :
      (ss : List (List (BtEvent M))) (i : ℕ) (e : BtEvent M)
      → stream_best ss ≡ some (i, e)
      → HeadsLate e ss
  unfolding stream_best
  stream_best_first [] i e h = tt
  stream_best_first ([] ∷ ss) i e h = elim (Option-cases (stream_best ss)) [
    | inl q ↦ ground arith
    | inr ((j, f), q) ↦
        let same : f ≡ e = ground arith in
        subst (λ (t : BtEvent M). HeadsLate t ss) same (stream_best_first ss j f q)
  ]
  stream_best_first ((x ∷ xs) ∷ ss) i e h = elim (Option-cases (stream_best ss)) [
    | inl q ↦
        let same : x ≡ e = ground arith in
        subst (λ (t : BtEvent M). IsLate t x × HeadsLate t ss) same (IsLate-self x, no_heads x ss q)
    | inr ((j, f), q) ↦ elim (Bool-cases (goes_before f x)) [
      | inl b ↦
          let same : f ≡ e = ground arith in
          subst (λ (t : BtEvent M). IsLate t x × HeadsLate t ss) same
            (IsLate-flip f x b, stream_best_first ss j f q)
      | inr b ↦
          let same : x ≡ e = ground arith in
          subst (λ (t : BtEvent M). IsLate t x × HeadsLate t ss) same
            (IsLate-self x, Heads-IsLate x f ss b (stream_best_first ss j f q))
    ]
  ]

  choose_first :
      (q : EventQueue M) (dynamic : List (BtEvent M)) (o : Option (ℕ × BtEvent M))
      → stream_best q.streams ≡ o
      → (e : BtEvent M) (q' : EventQueue M) → choose q (heap_best dynamic) o ≡ some (e, q')
      → All (IsLate e) dynamic × HeadsLate e q.streams
  choose_first q [] none k e q' h = ground arith
  choose_first q [] (some (i, f)) k e q' h =
      let same : f ≡ e = ground arith in
      subst (λ (t : BtEvent M). Unit {0} × HeadsLate t q.streams) same
        (tt, stream_best_first q.streams i f k)
  choose_first q (x ∷ xs) none k e q' h =
      let same : (heap_pop x xs).0 ≡ e = ground arith in
      subst (λ (t : BtEvent M). All (IsLate t) (x ∷ xs) × HeadsLate t q.streams) same
        (heap_pop_first x xs, no_heads (heap_pop x xs).0 q.streams k)
  choose_first q (x ∷ xs) (some (i, f)) k e q' h =
      let d = (heap_pop x xs).0 in
      let all = heap_pop_first x xs in
      let heads = stream_best_first q.streams i f k in
      elim (Bool-cases (dyn_wins d f)) [
        | inl b ↦
            let same : d ≡ e = ground arith in
            subst (λ (t : BtEvent M). All (IsLate t) (x ∷ xs) × HeadsLate t q.streams) same
              (all, Heads-IsLate d f q.streams (wins-IsLate d f b) heads)
        | inr b ↦
            let same : f ≡ e = ground arith in
            subst (λ (t : BtEvent M). All (IsLate t) (x ∷ xs) × HeadsLate t q.streams) same
              (All-IsLate f d (x ∷ xs) (loses-IsLate d f b) all, heads)
      ]

  -- What `pop` gives is first: neither a dynamic event nor the head of a recorded stream has a lower
  -- time, or the same time and a higher priority.
  pub pop_first :
      (q q' : EventQueue M) (e : BtEvent M)
      → pop q ≡ some (e, q')
      → All (IsLate e) q.dynamic × HeadsLate e q.streams
  unfolding pop
  pop_first q q' e h = choose_first q q.dynamic (stream_best q.streams) refl e q' h
