-- ===== src/Timers/Heap.antt =====
-- The heap of scheduler.rs as a bag: weights of its entries, and what `pop` takes out.
use zkbot.Prelude.{
  ℕ, ◌+◌, ◌≤◌, ◌≡◌, refl, inl, inr, Bool-cases, true, false, List, [], ◌∷◌, length, arith,
  if◌then◌else◌,
}
use zkbot.Prelude.Int.{ℤ, ltb_ℤ, ◌≤ℤ◌, int_laws}
use zkbot.Timers.Scheduler.{HeapEntry, heap_pop, entry_ltb}

-- The sum of the weights of the entries.
unfoldable pub total : (HeapEntry → ℕ) → List HeapEntry → ℕ
total w [] = 0
total w (x ∷ xs) = w x + total w xs

-- What is popped and what stays make up the heap.
pub total-heap_pop :
    (w : HeapEntry → ℕ) (x : HeapEntry) (xs : List HeapEntry)
    → w (heap_pop x xs).0 + total w (heap_pop x xs).1 ≡ total w (x ∷ xs)
unfolding total heap_pop
total-heap_pop w x [] = refl
total-heap_pop w x (y ∷ ys) = elim (Bool-cases (entry_ltb (heap_pop y ys).0 x)) [
  | inl before ↦ rw before (omega (arith, total-heap_pop w y ys))
  | inr behind ↦ rw behind refl
]

-- Whether an entry is due.
abbrev pub due : ℤ → HeapEntry → ℕ
due now_ms e = if ltb_ℤ now_ms e.fire_ms then 0 else 1

entry_ltb-le : (a b : HeapEntry) → entry_ltb a b ≡ true → a.fire_ms ≤ℤ b.fire_ms
entry_ltb-le a b h = elim (Bool-cases (ltb_ℤ a.fire_ms b.fire_ms)) [
  | inl lower ↦ omega (int_laws, lower)
  | inr e ↦ ground (arith, e, h)
]

not_entry_ltb-le : (a b : HeapEntry) → entry_ltb a b ≡ false → b.fire_ms ≤ℤ a.fire_ms
not_entry_ltb-le a b h = elim (Bool-cases (ltb_ℤ a.fire_ms b.fire_ms)) [
  | inl lower ↦ ground (arith, lower, h)
  | inr e ↦ omega (int_laws, e)
]

single : (x : HeapEntry) → (heap_pop x []).0 ≡ x
unfolding heap_pop
single x = refl

popped :
    (x y : HeapEntry) (ys : List HeapEntry)
    → (heap_pop x (y ∷ ys)).0 ≡ (if entry_ltb (heap_pop y ys).0 x then (heap_pop y ys).0 else x)
unfolding heap_pop
popped x y ys = elim (Bool-cases (entry_ltb (heap_pop y ys).0 x)) [
  | inl before ↦ rw before refl
  | inr behind ↦ rw behind refl
]

-- If the popped entry is not due, then no entry is.
pub heap_pop_last_due :
    (now_ms : ℤ) (x : HeapEntry) (xs : List HeapEntry)
    → ltb_ℤ now_ms (heap_pop x xs).0.fire_ms ≡ true
    → total (due now_ms) (x ∷ xs) ≡ 0
unfolding total
heap_pop_last_due now_ms x [] h = ground (arith, single x, h)
heap_pop_last_due now_ms x (y ∷ ys) h = elim (Bool-cases (entry_ltb (heap_pop y ys).0 x)) [
  | inl before ↦
      let h' = rw (popped x y ys, before) at h in
      ground (arith, heap_pop_last_due now_ms y ys h', entry_ltb-le (heap_pop y ys).0 x before)
  | inr behind ↦
      let h' = rw (popped x y ys, behind) at h in
      ground (
        arith,
        heap_pop_last_due now_ms y ys
            (ground (arith, h', not_entry_ltb-le (heap_pop y ys).0 x behind)),
        h',
      )
]

pub total-length :
    (w : HeapEntry → ℕ) (xs : List HeapEntry) → ((e : HeapEntry) → w e ≤ 1) → total w xs ≤ length xs
unfolding total
total-length w [] small = omega arith
total-length w (x ∷ xs) small = omega (arith, small x, total-length w xs small)
