-- ===== src/Reservation/Effects.antt =====
-- What one call of a reservation store does to its totals and records.
use zkbot.Prelude.{
  ℕ, ℤ, pos, ◌+ℤ◌, ◌-ℤ◌, ◌≤ℤ◌, leb_ℤ, min_ℤ, ◌≡◌, ◌==◌, int_eq, nat_eq, pair_eq, none, some, lookup,
  lookup-insert_self, lookup-remove_self, if◌then◌else◌, arith, int_laws, -ℤ_parts,
}
use zkbot.Reservation.{
  ReservationRecord, ReservationStore, ReserveKind, ok, account_key, key_of, keep_or_drop, reserve,
  release, release_partial, total_reserved,
}
use zkbot.Reservation.Totals.{share, NonNegative-lookup}
use zkbot.Reservation.Values.{value, value-add_total, value-sub_total}
use zkbot.Reservation.Laws.{IsConsistent, reserve-IsConsistent, reserved-le-total, min_bounds}

reserve_ok :
    (s : ReservationStore) (o a : ℤ) (kind : ReserveKind) (t : ℕ) (qty : ℤ)
    → (reserve s o a kind t qty).1 ≡ ok
    → lookup o s.reservations ≡ none
unfolding reserve
reserve_ok s o a kind t qty h = ground arith

reserve_total :
    (s : ReservationStore) (o a : ℤ) (kind : ReserveKind) (t : ℕ) (qty : ℤ) (key : ℤ × ℕ)
    → lookup o s.reservations ≡ none
    → value key (reserve s o a kind t qty).0.account_totals
      ≡ value key s.account_totals +ℤ (if account_key a t == key then qty else pos 0)
unfolding reserve
reserve_total s o a kind t qty key h =
    rw h (value-add_total (account_key a t) key qty s.account_totals)

reserve_record :
    (s : ReservationStore) (o a : ℤ) (kind : ReserveKind) (t : ℕ) (qty : ℤ)
    → lookup o s.reservations ≡ none
    → lookup o (reserve s o a kind t qty).0.reservations
      ≡ some
          (record { order_id = o; account_id = a; kind = kind; target_id = t; reserved_qty = qty })
unfolding reserve
reserve_record s o a kind t qty h = rw h (lookup-insert_self o _ s.reservations)

release_total :
    (s : ReservationStore) (o : ℤ) (r : ReservationRecord) (key : ℤ × ℕ)
    → IsConsistent s
    → lookup o s.reservations ≡ some r
    → value key (release s o).account_totals ≡ value key s.account_totals -ℤ share key r
unfolding release
release_total s o r key c e =
    rw (e, release)
      (value-sub_total (key_of r) key r.reserved_qty s.account_totals
        (NonNegative-lookup o {r = r} s.reservations c.nonneg e) (reserved-le-total s o r c e))

release_record :
    (s : ReservationStore) (o : ℤ) (r : ReservationRecord)
    → lookup o s.reservations ≡ some r
    → lookup o (release s o).reservations ≡ none
unfolding release
release_record s o r e = rw (e, release) (lookup-remove_self o s.reservations)

-- In a consistent store, a `reserve` that succeeds with a quantity that is not negative raises the
-- total of its own account and target by that quantity and no other total, and the `release` of
-- that order then puts every total back and leaves no record of the order.
pub release-reserve :
    (s : ReservationStore) (o a : ℤ) (kind : ReserveKind) (t : ℕ) (qty : ℤ)
    → IsConsistent s
    → pos 0 ≤ℤ qty
    → (reserve s o a kind t qty).1 ≡ ok
    → let s' = (reserve s o a kind t qty).0 in
      ((b : ℤ) (u : ℕ)
        → (total_reserved s' b u
            ≡ total_reserved s b u +ℤ (if account_key a t == account_key b u then qty else pos 0))
          × (total_reserved (release s' o) b u ≡ total_reserved s b u))
      × (lookup o (release s' o).reservations ≡ none)
unfolding total_reserved
release-reserve s o a kind t qty c h e =
    let absent = reserve_ok s o a kind t qty e in
    let s' : ReservationStore = (reserve s o a kind t qty).0 in
    let r : ReservationRecord = record {
      order_id = o;
      account_id = a;
      kind = kind;
      target_id = t;
      reserved_qty = qty;
    } in
    let there : lookup o s'.reservations ≡ some r = reserve_record s o a kind t qty absent in
    let c' = reserve-IsConsistent s o a kind t qty c h in
    (
      λ b u.
          let raised = reserve_total s o a kind t qty (account_key b u) absent in
          (raised, omega (int_laws, raised, release_total s' o r (account_key b u) c' there)),
      release_record s' o r there,
    )

release_partial_total :
    (s : ReservationStore) (o q : ℤ) (r : ReservationRecord) (key : ℤ × ℕ)
    → IsConsistent s
    → pos 0 ≤ℤ q
    → lookup o s.reservations ≡ some r
    → value key (release_partial s o q).account_totals
      ≡ value key s.account_totals -ℤ (if key_of r == key then min_ℤ q r.reserved_qty else pos 0)
unfolding release_partial
release_partial_total s o q r key c h e =
    let b =
      min_bounds q r.reserved_qty h (NonNegative-lookup o {r = r} s.reservations c.nonneg e) in
    let own = reserved-le-total s o r c e in
    rw (e, release_partial)
      (value-sub_total (key_of r) key (min_ℤ q r.reserved_qty) s.account_totals b.0
        (omega (arith, own, b.1)))

release_partial_record :
    (s : ReservationStore) (o q : ℤ) (r : ReservationRecord)
    → lookup o s.reservations ≡ some r
    → lookup o (release_partial s o q).reservations ≡ (
        if leb_ℤ r.reserved_qty q
        then none
        else some (record r { reserved_qty = r.reserved_qty -ℤ q }))
unfolding release_partial keep_or_drop
release_partial_record s o q r e =
    let left : ReservationRecord = record r {
      reserved_qty = r.reserved_qty -ℤ min_ℤ q r.reserved_qty;
    } in
    rw (e, release_partial)
      (ground (
        arith,
        -ℤ_parts r.reserved_qty (min_ℤ q r.reserved_qty),
        lookup-remove_self o s.reservations,
        lookup-insert_self o left s.reservations,
      ))

-- In a consistent store where order `o` has the record `r`, a partial release of a quantity `q`
-- that is not negative takes the smaller of `q` and the quantity held off the total of the
-- record's account and target and leaves every other total. The order's record stays with what
-- is left of it, and goes when `q` covers it.
release_partial_effect :
    (s : ReservationStore) (o q : ℤ) (r : ReservationRecord)
    → IsConsistent s
    → pos 0 ≤ℤ q
    → lookup o s.reservations ≡ some r
    → let s' = release_partial s o q in
      ((b : ℤ) (u : ℕ)
        → total_reserved s' b u
          ≡ total_reserved s b u
            -ℤ (if key_of r == account_key b u then min_ℤ q r.reserved_qty else pos 0))
      × (lookup o s'.reservations ≡ (
          if leb_ℤ r.reserved_qty q
          then none
          else some (record r { reserved_qty = r.reserved_qty -ℤ q })))
unfolding total_reserved
release_partial_effect s o q r c h e =
    (λ b u. release_partial_total s o q r (account_key b u) c h e, release_partial_record s o q r e)
