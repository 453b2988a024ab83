-- ===== src/Reservation/Values.antt =====
-- How `add_total` and `sub_total` move the running totals, and how a partial release moves the sum
-- of the records.
use zkbot.Prelude.{
  ℕ, ℤ, pos, ◌+ℤ◌, ◌-ℤ◌, ◌≤ℤ◌, leb_ℤ, ◌≡◌, inl, inr, ◌==◌, int_eq, nat_eq, pair_eq, some, HashMap,
  lookup, IsMap, lookup-insert, lookup-remove, unwrap_or, if◌then◌else◌, true, arith, int_laws,
  Bool-cases, ==_iff, ap, -ℤ_parts, eq_of_parts,
}
use zkbot.Reservation.{ReservationRecord, key_of, add_total, sub_total, keep_or_drop}
use zkbot.Reservation.Totals.{share, held, held-insert_present, held-remove}

-- What a map of totals says of a key.
abbrev pub value : ℤ × ℕ → HashMap (ℤ × ℕ) ℤ → ℤ
value key m = unwrap_or (lookup key m) (pos 0)

pub value-add_total :
    (key k : ℤ × ℕ) (q : ℤ) (m : HashMap (ℤ × ℕ) ℤ)
    → value k (add_total key q m) ≡ value k m +ℤ (if key == k then q else pos 0)
unfolding add_total
value-add_total key k q m = elim (Bool-cases (key == k)) [
  | inl e ↦
      rw (lookup-insert key k (value key m +ℤ q) m)
        (rw e (ap (λ (j : ℤ × ℕ). value j m +ℤ q) ((==_iff key k).0 e)))
  | inr e ↦ rw (lookup-insert key k (value key m +ℤ q) m) (rw e (omega int_laws))
]

pub value-sub_total :
    (key k : ℤ × ℕ) (q : ℤ) (m : HashMap (ℤ × ℕ) ℤ)
    → pos 0 ≤ℤ q
    → q ≤ℤ value key m
    → value k (sub_total key q m) ≡ value k m -ℤ (if key == k then q else pos 0)
unfolding sub_total
value-sub_total key k q m h le = ground (
  arith,
  lookup-insert key k (value key m -ℤ q) m,
  lookup-remove key k m,
  ==_iff key k,
  -ℤ_parts (value key m) q,
  -ℤ_parts (value k m) (if key == k then q else pos 0),
  eq_of_parts (value k (sub_total key q m)) (value k m -ℤ (if key == k then q else pos 0)),
)

-- What a record gives up when `d` of it is released.
pub share_reduced :
    (key : ℤ × ℕ) (r : ReservationRecord) (d : ℤ)
    → share key (record r { reserved_qty = r.reserved_qty -ℤ d })
        +ℤ (if key_of r == key then d else pos 0)
      ≡ share key r
share_reduced key r d = elim (Bool-cases (key_of r == key)) [
  | inl e ↦ rw e (omega int_laws)
  | inr e ↦ rw e (omega int_laws)
]

share_zero : (key : ℤ × ℕ) (r : ReservationRecord) → r.reserved_qty ≡ pos 0 → share key r ≡ pos 0
share_zero key r h = elim (Bool-cases (key_of r == key)) [ inl e ↦ rw e h | inr e ↦ rw e ]

zero_of_bounds : (a : ℤ) → leb_ℤ a (pos 0) ≡ true → pos 0 ≤ℤ a → a ≡ pos 0
zero_of_bounds a h k = ground arith

pub held-keep_or_drop :
    (key : ℤ × ℕ) (o d : ℤ) (r : ReservationRecord) (m : HashMap ℤ ReservationRecord)
    → IsMap m
    → lookup o m ≡ some r
    → d ≤ℤ r.reserved_qty
    → held key (keep_or_drop o (record r { reserved_qty = r.reserved_qty -ℤ d }) m)
        +ℤ (if key_of r == key then d else pos 0)
      ≡ held key m
unfolding keep_or_drop
held-keep_or_drop key o d r m u e le =
    let left : ReservationRecord = record r { reserved_qty = r.reserved_qty -ℤ d } in
    elim (Bool-cases (leb_ℤ left.reserved_qty (pos 0))) [
      | inl gone ↦ rw gone (
          omega (
            int_laws,
            share_reduced key r d,
            held-remove key o r m u e,
            share_zero key left (zero_of_bounds left.reserved_qty gone (omega int_laws)),
          ))
      | inr kept ↦
          rw kept (omega (int_laws, share_reduced key r d, held-insert_present key o left r m e))
    ]
