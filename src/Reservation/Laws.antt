-- ===== src/Reservation/Laws.antt =====
-- The running totals agree with the records, whatever is reserved and released.
use zkbot.Prelude.{
  ℕ, ℤ, pos, ◌-ℤ◌, ◌≤ℤ◌, min_ℤ, ◌≡◌, refl, inl, inr, int_eq, nat_eq, pair_eq, some, lookup, remove,
  IsMap, insert-IsMap, remove-IsMap, arith, int_laws, Option-cases, ==_refl, HashMap,
}
use zkbot.Reservation.{
  ReservationRecord, ReservationStore, ReserveKind, key_of, keep_or_drop, reserve, release,
  release_partial, new,
}
use zkbot.Reservation.Totals.{
  share, held, NonNegative, held-nonneg, held-insert_absent, held-remove, NonNegative-lookup,
  insert-NonNegative, remove-NonNegative,
}
use zkbot.Reservation.Values.{value, value-add_total, value-sub_total, held-keep_or_drop}

-- A well-formed store: one record for an order, no negative hold, and each running total is the
-- sum of the holds on its account and target.
pub record IsConsistent (s : ReservationStore) : Type 0 where
  pub distinct : IsMap s.reservations
  pub nonneg : NonNegative s.reservations
  pub totals : (key : ℤ × ℕ) → value key s.account_totals ≡ held key s.reservations

pub new-IsConsistent : IsConsistent new
unfolding held lookup
new-IsConsistent = record { distinct = tt; nonneg = tt; totals = λ key. refl }

-- The record of an order is within the total of its key.
pub reserved-le-total :
    (s : ReservationStore) (id : ℤ) (r : ReservationRecord)
    → IsConsistent s
    → lookup id s.reservations ≡ some r
    → r.reserved_qty ≤ℤ value (key_of r) s.account_totals
reserved-le-total s id r c h =
    let m = s.reservations in
    let own : share (key_of r) r ≡ r.reserved_qty = rw (==_refl (key_of r)) in
    omega (
      int_laws,
      own,
      c.totals (key_of r),
      held-remove (key_of r) id r m c.distinct h,
      held-nonneg (key_of r) (remove id m) (remove-NonNegative id m c.nonneg),
    )

-- A successful `reserve` raises one total by the quantity held.
pub reserve-IsConsistent :
    (s : ReservationStore) (order_id account_id : ℤ) (kind : ReserveKind) (target_id : ℕ) (qty : ℤ)
    → IsConsistent s
    → pos 0 ≤ℤ qty
    → IsConsistent (reserve s order_id account_id kind target_id qty).0
unfolding reserve
reserve-IsConsistent s o a kind t qty c h = elim (Option-cases (lookup o s.reservations)) [
  | inr (r, e) ↦ rw e c
  | inl e ↦
      let r : ReservationRecord = record {
        order_id = o;
        account_id = a;
        kind = kind;
        target_id = t;
        reserved_qty = qty;
      } in
      rw e (record {
        distinct = insert-IsMap o r s.reservations c.distinct;
        nonneg = insert-NonNegative o r s.reservations h c.nonneg;
        totals = λ key. omega (
          int_laws,
          c.totals key,
          value-add_total (a, t) key qty s.account_totals,
          held-insert_absent key o r s.reservations e,
        );
      })
]

pub release-IsConsistent :
    (s : ReservationStore) (order_id : ℤ) → IsConsistent s → IsConsistent (release s order_id)
unfolding release
release-IsConsistent s o c = elim (Option-cases (lookup o s.reservations)) [
  | inl e ↦ rw (e, release) c
  | inr (r, e) ↦
      rw (e, release)
        (record {
          distinct = remove-IsMap o s.reservations c.distinct;
          nonneg = remove-NonNegative o s.reservations c.nonneg;
          totals = λ key. omega (
            int_laws,
            c.totals key,
            value-sub_total (key_of r) key r.reserved_qty s.account_totals
                (NonNegative-lookup o {r = r} s.reservations c.nonneg e)
                (reserved-le-total s o r c e),
            held-remove key o r s.reservations c.distinct e,
          );
        })
]

keep_or_drop-IsMap :
    (o : ℤ) (r : ReservationRecord) (m : HashMap ℤ ReservationRecord)
    → IsMap m
    → IsMap (keep_or_drop o r m)
unfolding keep_or_drop
keep_or_drop-IsMap o r m u = ground (arith, insert-IsMap o r m u, remove-IsMap o m u)

keep_or_drop-NonNegative :
    (o : ℤ) (r : ReservationRecord) (m : HashMap ℤ ReservationRecord)
    → pos 0 ≤ℤ r.reserved_qty
    → NonNegative m
    → NonNegative (keep_or_drop o r m)
unfolding keep_or_drop
keep_or_drop-NonNegative o r m h n =
    ground (arith, insert-NonNegative o r m h n, remove-NonNegative o m n)

pub min_bounds : (a b : ℤ) → pos 0 ≤ℤ a → pos 0 ≤ℤ b → (pos 0 ≤ℤ min_ℤ a b) × (min_ℤ a b ≤ℤ b)
min_bounds a b h k = ground arith

pub release_partial-IsConsistent :
    (s : ReservationStore) (order_id filled_qty : ℤ)
    → IsConsistent s
    → pos 0 ≤ℤ filled_qty
    → IsConsistent (release_partial s order_id filled_qty)
unfolding release_partial
release_partial-IsConsistent s o q c h = elim (Option-cases (lookup o s.reservations)) [
  | inl e ↦ rw (e, release_partial) c
  | inr (r, e) ↦
      let d : ℤ = min_ℤ q r.reserved_qty in
      let b =
        min_bounds q r.reserved_qty h (NonNegative-lookup o {r = r} s.reservations c.nonneg e) in
      let left : ReservationRecord = record r { reserved_qty = r.reserved_qty -ℤ d } in
      rw (e, release_partial)
        (record {
          distinct = keep_or_drop-IsMap o left s.reservations c.distinct;
          nonneg = keep_or_drop-NonNegative o left s.reservations (omega (int_laws, b.1)) c.nonneg;
          totals = λ key.
              let own = reserved-le-total s o r c e in
              omega (
                int_laws,
                c.totals key,
                value-sub_total (key_of r) key d s.account_totals b.0 (omega (arith, own, b.1)),
                held-keep_or_drop key o d r s.reservations c.distinct e b.1,
              );
        })
]
