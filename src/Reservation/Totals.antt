-- ===== src/Reservation/Totals.antt =====
-- The sum of the holds on one (account_id, target_id), taken over the records themselves.
use zkbot.Prelude.{
  ℕ, ℤ, pos, ◌+ℤ◌, ◌≤ℤ◌, ◌≡◌, inl, inr, ◌==◌, int_eq, nat_eq, pair_eq, none, some, HashMap, lookup,
  insert, remove, IsMap, remove_absent, if◌then◌else◌, [], ◌∷◌, arith, int_laws, Bool-cases, ==_iff,
}
use zkbot.Reservation.{ReservationRecord, key_of}

-- What one record holds on `key`.
abbrev pub share : ℤ × ℕ → ReservationRecord → ℤ
share key r = if key_of r == key then r.reserved_qty else pos 0

unfoldable pub held : ℤ × ℕ → HashMap ℤ ReservationRecord → ℤ
held key [] = pos 0
held key ((id, r) ∷ m) = share key r +ℤ held key m

-- No record holds a negative quantity.
abbrev pub NonNegative : HashMap ℤ ReservationRecord → Type 0
NonNegative [] = Unit
NonNegative ((id, r) ∷ m) = (pos 0 ≤ℤ r.reserved_qty) × NonNegative m

share-nonneg :
    (key : ℤ × ℕ) (r : ReservationRecord) → pos 0 ≤ℤ r.reserved_qty → pos 0 ≤ℤ share key r
share-nonneg key r h = elim (Bool-cases (key_of r == key)) [
  | inl e ↦ rw e h
  | inr e ↦ rw e (omega arith)
]

pub held-nonneg :
    (key : ℤ × ℕ) (m : HashMap ℤ ReservationRecord) → NonNegative m → pos 0 ≤ℤ held key m
unfolding held
held-nonneg key [] h = omega arith
held-nonneg key ((id, r) ∷ m) h = omega (int_laws, share-nonneg key r h.0, held-nonneg key m h.1)

pub held-insert_absent :
    (key : ℤ × ℕ) (id : ℤ) (r : ReservationRecord) (m : HashMap ℤ ReservationRecord)
    → lookup id m ≡ none
    → held key (insert id r m) ≡ held key m +ℤ share key r
unfolding held lookup insert
held-insert_absent key id r [] h = omega int_laws
held-insert_absent key id r ((j, x) ∷ m) h = elim (Bool-cases (j == id)) [
  | inl e ↦ ground arith
  | inr e ↦ rw e (omega (int_laws, held-insert_absent key id r m (ground arith)))
]

pub held-insert_present :
    (key : ℤ × ℕ) (id : ℤ) (r old : ReservationRecord) (m : HashMap ℤ ReservationRecord)
    → lookup id m ≡ some old
    → held key (insert id r m) +ℤ share key old ≡ held key m +ℤ share key r
unfolding held lookup insert
held-insert_present key id r old [] h = ground arith
held-insert_present key id r old ((j, x) ∷ m) h = elim (Bool-cases (j == id)) [
  | inl e ↦ let same : x ≡ old = ground arith in rw e (rw same (omega int_laws))
  | inr e ↦ rw e (omega (int_laws, held-insert_present key id r old m (ground arith)))
]

pub held-remove :
    (key : ℤ × ℕ) (id : ℤ) (old : ReservationRecord) (m : HashMap ℤ ReservationRecord)
    → IsMap m
    → lookup id m ≡ some old
    → held key (remove id m) +ℤ share key old ≡ held key m
unfolding held lookup remove
held-remove key id old [] u h = ground arith
held-remove key id old ((j, x) ∷ m) u h = elim (Bool-cases (j == id)) [
  | inl e ↦
      let same : x ≡ old = ground arith in
      let here : j ≡ id = (==_iff j id).0 e in
      let gone : remove id m ≡ m = remove_absent id m (rw here at u.0) in
      rw e (rw (same, gone) (omega int_laws))
  | inr e ↦ rw e (omega (int_laws, held-remove key id old m u.1 (ground arith)))
]

pub NonNegative-lookup :
    (id : ℤ) {r : ReservationRecord} (m : HashMap ℤ ReservationRecord)
    → NonNegative m
    → lookup id m ≡ some r
    → pos 0 ≤ℤ r.reserved_qty
unfolding lookup
NonNegative-lookup id {r = r} [] n h = ground arith
NonNegative-lookup id {r = r} ((j, x) ∷ m) n h = ground (arith, NonNegative-lookup id {r = r} m n.1)

pub insert-NonNegative :
    (id : ℤ) (r : ReservationRecord) (m : HashMap ℤ ReservationRecord)
    → pos 0 ≤ℤ r.reserved_qty
    → NonNegative m
    → NonNegative (insert id r m)
unfolding insert
insert-NonNegative id r [] h n = (h, tt)
insert-NonNegative id r ((j, x) ∷ m) h n = ground (arith, insert-NonNegative id r m h n.1)

pub remove-NonNegative :
    (id : ℤ) (m : HashMap ℤ ReservationRecord) → NonNegative m → NonNegative (remove id m)
unfolding remove
remove-NonNegative id [] n = tt
remove-NonNegative id ((j, x) ∷ m) n = ground (arith, remove-NonNegative id m n.1)
