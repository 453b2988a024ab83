-- ===== src/Replay/Order.antt =====
-- What a pop takes out of a queue, by the number of the events that are left.
use zkbot.Prelude.{
  ℕ, zero, suc, ◌+◌, ◌≡◌, refl, subst, inl, inr, Option, none, some, List, [], ◌∷◌, length, arith,
  Bool-cases, Option-cases,
}
use zkbot.Replay.{
  BtEvent, EventQueue, goes_before, heap_pop, stream_best, advance, dyn_wins, choose, heap_best,
  pop, remaining, len,
}

module _ {M : Type 0} where
  length-heap_pop : (x : BtEvent M) (ys : List (BtEvent M)) → length (heap_pop x ys).1 ≡ length ys
  unfolding heap_pop
  length-heap_pop x [] = refl
  length-heap_pop x (y ∷ ys) =
      let rest = length-heap_pop y ys in
      elim (Bool-cases (goes_before (heap_pop y ys).0 x)) [
        | inl e ↦ rw e (omega (arith, rest))
        | inr e ↦ rw e refl
      ]

  remaining-advance :
      (ss : List (List (BtEvent M))) (i : ℕ) (e : BtEvent M)
      → stream_best ss ≡ some (i, e)
      → remaining ss ≡ suc (remaining (advance i ss))
  unfolding stream_best advance
  remaining-advance [] i e h = ground arith
  remaining-advance ([] ∷ ss) zero e h = elim (Option-cases (stream_best ss)) [
    | inl q ↦ ground arith
    | inr ((j, f), q) ↦ ground arith
  ]
  remaining-advance ([] ∷ ss) (suc i) e h = elim (Option-cases (stream_best ss)) [
    | inl q ↦ ground arith
    | inr ((j, f), q) ↦
        let same : j ≡ i = ground arith in
        omega (
          arith,
          subst (λ k. remaining ss ≡ suc (remaining (advance k ss))) same
              (remaining-advance ss j f q),
        )
  ]
  remaining-advance ((x ∷ xs) ∷ ss) zero e h = omega arith
  remaining-advance ((x ∷ xs) ∷ ss) (suc i) e h = elim (Option-cases (stream_best ss)) [
    | inl q ↦ ground arith
    | inr ((j, f), q) ↦ elim (Bool-cases (goes_before f x)) [
      | inr b ↦ ground arith
      | inl b ↦
          let same : j ≡ i = ground arith in
          omega (
            arith,
            subst (λ k. remaining ss ≡ suc (remaining (advance k ss))) same
                (remaining-advance ss j f q),
          )
    ]
  ]

  none-remaining : (ss : List (List (BtEvent M))) → stream_best ss ≡ none → remaining ss ≡ 0
  unfolding stream_best
  none-remaining [] h = refl
  none-remaining ([] ∷ ss) h = elim (Option-cases (stream_best ss)) [
    | inl q ↦ omega (arith, none-remaining ss q)
    | inr ((j, f), q) ↦ ground arith
  ]
  none-remaining ((x ∷ xs) ∷ ss) h = elim (Option-cases (stream_best ss)) [
    | inl q ↦ ground arith
    | inr ((j, f), q) ↦ elim (Bool-cases (goes_before f x)) [
      | inl b ↦ ground arith
      | inr b ↦ ground arith
    ]
  ]

  -- The number of events that are left after a choice.
  abbrev pub left_after : Option (BtEvent M × EventQueue M) → ℕ
  left_after none = 0
  left_after (some (e, q')) = suc (length q'.dynamic + remaining q'.streams)

  choose_len :
      (q : EventQueue M) (dynamic : List (BtEvent M)) (o : Option (ℕ × BtEvent M))
      → q.dynamic ≡ dynamic
      → stream_best q.streams ≡ o
      → length dynamic + remaining q.streams ≡ left_after (choose q (heap_best dynamic) o)
  choose_len q [] none d k = omega (arith, none-remaining q.streams k)
  choose_len q [] (some (i, f)) d k = rw d (omega (arith, remaining-advance q.streams i f k))
  choose_len q (x ∷ xs) none d k = omega (arith, length-heap_pop x xs)
  choose_len q (x ∷ xs) (some (i, f)) d k = elim (Bool-cases (dyn_wins (heap_pop x xs).0 f)) [
    | inl b ↦ rw b (omega (arith, length-heap_pop x xs))
    | inr b ↦ rw (b, d) (omega (arith, remaining-advance q.streams i f k))
  ]

  -- `pop` gives nothing exactly if no event is left, and otherwise leaves one event less.
  pub len-pop : (q : EventQueue M) → len q ≡ left_after (pop q)
  unfolding pop len
  len-pop q = choose_len q q.dynamic (stream_best q.streams) refl refl
