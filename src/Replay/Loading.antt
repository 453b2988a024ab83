-- ===== src/Replay/Loading.antt =====
-- What is loaded into a queue: its order by time, and its length.
use zkbot.Prelude.{
  suc, ◌+◌, ℤ, ◌≤ℤ◌, leb_ℤ, ◌≡◌, refl, inl, inr, List, [], ◌∷◌, ◌++◌, All, length, arith,
  Bool-cases,
}
use zkbot.Replay.{BtEvent, EventQueue, remaining, len, sort_in, sorted_stream, add_stream}
use zkbot.Replay.Times.{IsRisingFrom, IsQueueFrom}

module _ {M : Type 0} where
  length-sort_in : (x : BtEvent M) (ys : List (BtEvent M)) → length (sort_in x ys) ≡ suc (length ys)
  unfolding sort_in
  length-sort_in x [] = refl
  length-sort_in x (y ∷ ys) = ground (arith, length-sort_in x ys)

  sorted_length : (xs : List (BtEvent M)) → length (sorted_stream xs) ≡ length xs
  unfolding sorted_stream
  sorted_length [] = refl
  sorted_length (x ∷ xs) = ground (arith, length-sort_in x (sorted_stream xs), sorted_length xs)

  sort_in_rises :
      (t : ℤ) (x : BtEvent M) (ys : List (BtEvent M))
      → t ≤ℤ x.ts_ms
      → IsRisingFrom t ys
      → IsRisingFrom t (sort_in x ys)
  unfolding sort_in
  sort_in_rises t x [] h r = (h, tt)
  sort_in_rises t x (y ∷ ys) h r = elim (Bool-cases (leb_ℤ x.ts_ms y.ts_ms)) [
    | inl e ↦ rw e (h, (ground arith, r.1))
    | inr e ↦ rw e (r.0, sort_in_rises y.ts_ms x ys (ground arith) r.1)
  ]

  sorted_rises :
      (t : ℤ) (xs : List (BtEvent M))
      → All (λ (x : BtEvent M). t ≤ℤ x.ts_ms) xs
      → IsRisingFrom t (sorted_stream xs)
  unfolding sorted_stream
  sorted_rises t [] h = tt
  sorted_rises t (x ∷ xs) h = sort_in_rises t x (sorted_stream xs) h.0 (sorted_rises t xs h.1)

  All-push_last :
      (P : List (BtEvent M) → Type 0) (ss : List (List (BtEvent M))) (s : List (BtEvent M))
      → All P ss
      → P s
      → All P (ss ++ (s ∷ []))
  All-push_last P [] s h k = (k, tt)
  All-push_last P (r ∷ ss) s h k = (h.0, All-push_last P ss s h.1 k)

  remaining-push_last :
      (ss : List (List (BtEvent M))) (s : List (BtEvent M))
      → remaining (ss ++ (s ∷ [])) ≡ remaining ss + length s
  remaining-push_last [] s = omega arith
  remaining-push_last (r ∷ ss) s = omega (arith, remaining-push_last ss s)

  add_len : (q : EventQueue M) (xs : List (BtEvent M)) → len (add_stream q xs) ≡ len q + length xs
  unfolding add_stream len
  add_len q [] = omega arith
  add_len q (x ∷ xs) =
      omega (arith, remaining-push_last q.streams (sorted_stream (x ∷ xs)), sorted_length (x ∷ xs))

  add_kept :
      (t : ℤ) (q : EventQueue M) (xs : List (BtEvent M))
      → All (λ (x : BtEvent M). t ≤ℤ x.ts_ms) xs
      → IsQueueFrom t q
      → IsQueueFrom t (add_stream q xs)
  unfolding add_stream
  add_kept t q [] h v = v
  add_kept t q (x ∷ xs) h v = record {
    later = v.later;
    ordered =
        All-push_last (IsRisingFrom t) q.streams (sorted_stream (x ∷ xs)) v.ordered
          (sorted_rises t (x ∷ xs) h);
  }

  -- Where nothing in a queue is before `t` and each of its streams is in order, adding a stream of
  -- events, in any order and none before `t`, keeps both, and adds as many events as there are.
  pub add_stream_lem :
      (t : ℤ) (q : EventQueue M) (xs : List (BtEvent M))
      → All (λ (x : BtEvent M). t ≤ℤ x.ts_ms) xs
      → IsQueueFrom t q
      → IsQueueFrom t (add_stream q xs) × (len (add_stream q xs) ≡ len q + length xs)
  add_stream_lem t q xs h v = (add_kept t q xs h v, add_len q xs)
