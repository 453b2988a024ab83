-- ===== src/Position/Reconcile.antt =====
-- The reconciliation state machine: when a position is in sync, and when a divergence counts as
-- persistent.
use zkbot.Prelude.{
  ℕ, ◌+◌, ◌%◌, suc, u32_mod, ℤ, pos, ◌-ℤ◌, abs_ℤ, ◌≡◌, ◌≢◌, ◌↔◌, Option, List, [], ◌∷◌, length,
  add-zero, zero-add, unwrap_or, arith, ltb_ℤ, leb, true, -ℤ_parts, eq_of_parts, if◌then◌else◌,
}
use zkbot.Position.{
  ManagedPosition, ReconcileStatus, in_sync, diverged_transient, diverged_persistent,
  reconcile_position, is_settled, reconcile_persistent_threshold,
}

abs_small : (a b : ℤ) → (ltb_ℤ (abs_ℤ (a -ℤ b)) (pos 1) ≡ true) ↔ (a ≡ b)
abs_small a b =
    let d = -ℤ_parts a b in
    let n = -ℤ_parts (pos 0) (a -ℤ b) in
    let e = eq_of_parts a b in (ground (arith, d, n, e), ground (arith, d, n))

-- An update marks a position in sync exactly when its total is the quantity that the exchange
-- reports, 0 where it reports none.
reconcile-in_sync_iff :
    (exch : Option ℤ) (ts : ℤ) (p : ManagedPosition)
    → ((reconcile_position exch ts p).reconcile_status ≡ in_sync)
      ↔ (p.qty_total ≡ unwrap_or exch (pos 0))
unfolding reconcile_position
reconcile-in_sync_iff exch ts p =
    let small = abs_small p.qty_total (unwrap_or exch (pos 0)) in
    (ground (arith, small), ground (arith, small))

-- The updates of one position, oldest first, each with what the exchange reports and its time.
unfoldable pub reconcile_all : ManagedPosition → List (Option ℤ × ℤ) → ManagedPosition
reconcile_all p [] = p
reconcile_all p ((exch, ts) ∷ rest) = reconcile_all (reconcile_position exch ts p) rest

-- None of the reports agrees with the total.
abbrev pub AllDiverge : ℤ → List (Option ℤ × ℤ) → Type 0
AllDiverge total [] = Unit {0}
AllDiverge total ((exch, ts) ∷ rest) = (total ≢ unwrap_or exch (pos 0)) × AllDiverge total rest

-- The status after `n` divergences in a row.
abbrev pub status_after : ℕ → ReconcileStatus
status_after n =
    if leb reconcile_persistent_threshold n then diverged_persistent else diverged_transient

abbrev Diverged : ℕ → ℤ → ℤ → ManagedPosition → Type 0
Diverged n total since p =
    (p.reconcile_status ≡ status_after n)
    × (p.divergence_count ≡ n % u32_mod)
    × (p.first_diverged_ts ≡ since)
    × (p.qty_total ≡ total)

diverge_first :
    (exch : Option ℤ) (ts : ℤ) (p : ManagedPosition)
    → is_settled p.reconcile_status ≡ true
    → p.qty_total ≢ unwrap_or exch (pos 0)
    → Diverged 1 p.qty_total ts (reconcile_position exch ts p)
unfolding reconcile_position
diverge_first exch ts p h d = ground (arith, abs_small p.qty_total (unwrap_or exch (pos 0)))

diverge_again :
    (exch : Option ℤ) (ts total since : ℤ) (n : ℕ) (p : ManagedPosition)
    → Diverged (suc n) total since p
    → total ≢ unwrap_or exch (pos 0)
    → Diverged (suc (suc n)) total since (reconcile_position exch ts p)
unfolding reconcile_position
diverge_again exch ts total since n p h d =
    ground (arith, abs_small p.qty_total (unwrap_or exch (pos 0)))

diverge_all :
    (rest : List (Option ℤ × ℤ)) (total since : ℤ) (n : ℕ) (p : ManagedPosition)
    → Diverged (suc n) total since p
    → AllDiverge total rest
    → Diverged (suc (n + length rest)) total since (reconcile_all p rest)
unfolding reconcile_all
diverge_all [] total since n p h d = rw add-zero h
diverge_all ((exch, ts) ∷ rest) total since n p h d =
    let e : n + suc (length rest) ≡ suc n + length rest = omega arith in
    rw e (
      diverge_all rest total since (suc n) (reconcile_position exch ts p)
        (diverge_again exch ts total since n p h d.0) d.1)

-- From a position that is in sync or of unknown status, `n` updates in a row that all disagree
-- with the total make the divergence transient while `n` is below 3, and persistent from then
-- on; the time of the first of them is kept, and the count is `n` modulo 2^32.
reconcile_all_diverged :
    (p : ManagedPosition) (exch : Option ℤ) (ts : ℤ) (rest : List (Option ℤ × ℤ))
    → is_settled p.reconcile_status ≡ true
    → AllDiverge p.qty_total ((exch, ts) ∷ rest)
    → let q = reconcile_all p ((exch, ts) ∷ rest) in
      let n = suc (length rest) in
      (q.reconcile_status ≡ status_after n)
      × (q.divergence_count ≡ n % u32_mod)
      × (q.first_diverged_ts ≡ ts)
      × (q.qty_total ≡ p.qty_total)
unfolding reconcile_all
reconcile_all_diverged p exch ts rest h d = rw zero-add at (
    diverge_all rest p.qty_total ts 0 (reconcile_position exch ts p) (diverge_first exch ts p h d.0)
      d.1)
