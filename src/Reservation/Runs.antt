-- ===== src/Reservation/Runs.antt =====
-- What the calls of a reservation store add up to.
use zkbot.Prelude.{
  ℕ, ℤ, pos, ◌+ℤ◌, ◌≤ℤ◌, ◌≡◌, ◌↔◌, int_eq, nat_eq, pair_eq, arith, List, [], ◌∷◌, -ℤ_parts,
  +ℤ_parts,
}
use zkbot.Reservation.{
  ReservationStore, ReserveKind, ok, account_key, reserve, release, release_partial, total_reserved,
  check_available, new,
}
use zkbot.Reservation.Totals.{held}
use zkbot.Reservation.Values.{value}
use zkbot.Reservation.Laws.{
  IsConsistent, new-IsConsistent, reserve-IsConsistent, release-IsConsistent,
  release_partial-IsConsistent,
}

-- The calls that change a store.
pub data Call : Type 0 where
  reserves : ℤ → ℤ → ReserveKind → ℕ → ℤ → Call
  releases : ℤ → Call
  partly_releases : ℤ → ℤ → Call

unfoldable pub step : ReservationStore → Call → ReservationStore
step s (reserves o a kind t qty) = (reserve s o a kind t qty).0
step s (releases o) = release s o
step s (partly_releases o filled) = release_partial s o filled

unfoldable pub run : ReservationStore → List Call → ReservationStore
run s [] = s
run s (c ∷ cs) = run (step s c) cs

-- The quantities that the calls name are not negative.
abbrev pub AllNonNegative : List Call → Type 0
AllNonNegative [] = Unit
AllNonNegative (reserves o a kind t qty ∷ cs) = (pos 0 ≤ℤ qty) × AllNonNegative cs
AllNonNegative (releases o ∷ cs) = AllNonNegative cs
AllNonNegative (partly_releases o filled ∷ cs) = (pos 0 ≤ℤ filled) × AllNonNegative cs

pub run-IsConsistent :
    (s : ReservationStore) (cs : List Call)
    → AllNonNegative cs
    → IsConsistent s
    → IsConsistent (run s cs)
unfolding run step
run-IsConsistent s [] h c = c
run-IsConsistent s (reserves o a kind t qty ∷ cs) h c =
    run-IsConsistent (reserve s o a kind t qty).0 cs h.1
      (reserve-IsConsistent s o a kind t qty c h.0)
run-IsConsistent s (releases o ∷ cs) h c =
    run-IsConsistent (release s o) cs h (release-IsConsistent s o c)
run-IsConsistent s (partly_releases o filled ∷ cs) h c =
    run-IsConsistent (release_partial s o filled) cs h.1
      (release_partial-IsConsistent s o filled c h.0)

-- After any calls with quantities that are not negative, starting from the empty store, the total
-- kept for an account and a target is the sum of the reserved quantities of the records that
-- stand for them.
pub total_reserved-run :
    (cs : List Call) (account_id : ℤ) (target_id : ℕ)
    → AllNonNegative cs
    → let s = run new cs in
      total_reserved s account_id target_id ≡ held (account_id, target_id) s.reservations
unfolding total_reserved
total_reserved-run cs a t h = (run-IsConsistent new cs h new-IsConsistent).totals (a, t)

-- In a consistent store, `check_available` lets an order through exactly when what it needs and
-- the sum of the holds on the account and target fit into what is available.
pub check_available_iff :
    (s : ReservationStore) (a : ℤ) (t : ℕ) (required available : ℤ)
    → IsConsistent s
    → (check_available s a t required available ≡ ok)
      ↔ (required +ℤ held (a, t) s.reservations ≤ℤ available)
unfolding check_available total_reserved
check_available_iff s a t required available c =
    let total = c.totals (account_key a t) in
    let left = -ℤ_parts available (value (account_key a t) s.account_totals) in
    let sum = +ℤ_parts required (held (account_key a t) s.reservations) in
    (ground (arith, total, left, sum), ground (arith, total, left, sum))
