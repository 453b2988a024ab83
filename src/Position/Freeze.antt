-- ===== src/Position/Freeze.antt =====
-- Freezing quantity for a sell order, and giving it back.
use zkbot.Prelude.{
  ℕ, ℤ, pos, ◌+ℤ◌, ◌-ℤ◌, ◌≤ℤ◌, ◌≡◌, refl, ◌↔◌, ◌⊎◌, inl, inr, int_eq, nat_eq, pair_eq, none, some,
  Bool, lookup, lookup-insert, arith, int_laws, Bool-cases, ltb_ℤ, min_ℤ, ==_iff, ==_refl,
  min_ℤ_bounds, -ℤ_parts, +ℤ_parts, eq_of_parts,
}
use zkbot.Position.{
  ManagedPosition, PositionStore, ok, position_key, available, check_and_freeze, unfreeze,
  unfreeze_position, get_or_create_position, get_position, set_position,
}

-- The quantity that a store holds on a key, available and frozen together.
abbrev pub free_and_frozen : PositionStore → ℤ × ℕ → ℤ
free_and_frozen s key = elim (lookup key s.managed) [
  | none ↦ pos 0
  | some p ↦ p.qty_available +ℤ p.qty_frozen
]

free_and_frozen-insert :
    (s : PositionStore) (a : ℤ) (i : ℕ) (short : Bool) (qty : ℤ) (key : ℤ × ℕ)
    → let p = get_or_create_position s a i (pos 0) short in
      free_and_frozen
        (set_position s a i
          (record p { qty_available = p.qty_available -ℤ qty; qty_frozen = p.qty_frozen +ℤ qty }))
        key
      ≡ free_and_frozen s key
unfolding get_or_create_position get_position
free_and_frozen-insert s a i short qty key =
    let p = get_or_create_position s a i (pos 0) short in
    let q : ManagedPosition = record p {
      qty_available = p.qty_available -ℤ qty;
      qty_frozen = p.qty_frozen +ℤ qty;
    } in
    ground (
      arith,
      lookup-insert (position_key a i) key q s.managed,
      ==_iff (position_key a i) key,
      -ℤ_parts p.qty_available qty,
      +ℤ_parts p.qty_frozen qty,
      +ℤ_parts q.qty_available q.qty_frozen,
      +ℤ_parts p.qty_available p.qty_frozen,
      eq_of_parts (q.qty_available +ℤ q.qty_frozen) (p.qty_available +ℤ p.qty_frozen),
    )

-- `check_and_freeze` succeeds exactly when the quantity is at most what is available; when it
-- fails the store is unchanged; and either way no key gains or loses quantity, counting what is
-- available and what is frozen together.
pub check_and_freeze_lem :
    (s : PositionStore) (a : ℤ) (i : ℕ) (qty : ℤ) (short : Bool)
    → let (s', result) = check_and_freeze s a i qty short in
      ((result ≡ ok) ↔ (qty ≤ℤ available s a i))
      × ((result ≡ ok) ⊎ (s' ≡ s))
      × ((b : ℤ) (j : ℕ)
          → free_and_frozen s' (position_key b j) ≡ free_and_frozen s (position_key b j))
unfolding check_and_freeze
check_and_freeze_lem s a i qty short = elim (Bool-cases (ltb_ℤ (available s a i) qty)) [
  | inl no_room ↦ rw no_room ((ground arith, ground arith), inr refl, λ b j. refl)
  | inr room ↦
      let p = get_or_create_position s a i (pos 0) short in
      rw room (
        (λ _. omega int_laws, λ _. refl),
        inl refl,
        λ b j. free_and_frozen-insert s a i short qty (position_key b j),
      )
]

-- A position with a quantity moved from available to frozen.
abbrev frozen : ManagedPosition → ℤ → ManagedPosition
frozen p qty = record p { qty_available = p.qty_available -ℤ qty; qty_frozen = p.qty_frozen +ℤ qty }

unfreeze_frozen :
    (p : ManagedPosition) (qty : ℤ)
    → pos 0 ≤ℤ qty
    → pos 0 ≤ℤ p.qty_frozen
    → unfreeze_position (frozen p qty) qty ≡ p
unfreeze_frozen p qty h fr =
    let all_of_it : min_ℤ qty (p.qty_frozen +ℤ qty) ≡ qty =
      ground (arith, +ℤ_parts p.qty_frozen qty) in
    let a : p.qty_available -ℤ qty +ℤ qty ≡ p.qty_available = omega int_laws in
    let f : p.qty_frozen +ℤ qty -ℤ qty ≡ p.qty_frozen = omega int_laws in rw (all_of_it, a, f)

check_and_freeze_present :
    (s : PositionStore) (a : ℤ) (i : ℕ) (qty : ℤ) (short : Bool) (p : ManagedPosition)
    → lookup (position_key a i) s.managed ≡ some p
    → qty ≤ℤ p.qty_available
    → (check_and_freeze s a i qty short).0 ≡ set_position s a i (frozen p qty)
unfolding check_and_freeze get_or_create_position get_position
check_and_freeze_present s a i qty short p e le = ground arith

-- Freezing a quantity that is available and not negative, at a position whose frozen quantity is
-- not negative, and unfreezing it again gives that position back as it was, and leaves every
-- other position alone.
unfreeze-check_and_freeze :
    (s : PositionStore) (a : ℤ) (i : ℕ) (qty : ℤ) (short : Bool) (p : ManagedPosition)
    → lookup (position_key a i) s.managed ≡ some p
    → pos 0 ≤ℤ qty
    → qty ≤ℤ p.qty_available
    → pos 0 ≤ℤ p.qty_frozen
    → let s' = unfreeze (check_and_freeze s a i qty short).0 a i qty in
      (b : ℤ) (j : ℕ) → lookup (position_key b j) s'.managed ≡ lookup (position_key b j) s.managed
unfolding check_and_freeze unfreeze
unfreeze-check_and_freeze s a i qty short p e h le fr b j =
    let froze = check_and_freeze_present s a i qty short p e le in
    let key = position_key a i in
    rw froze (
      ground (
        arith,
        lookup-insert key key (frozen p qty) s.managed,
        lookup-insert key (position_key b j) (frozen p qty) s.managed,
        lookup-insert key (position_key b j) (unfreeze_position (frozen p qty) qty)
            (set_position s a i (frozen p qty)).managed,
        ==_refl key,
        ==_iff key (position_key b j),
        unfreeze_frozen p qty h fr,
        e,
      ))

-- `unfreeze` never takes the frozen quantity below zero nor releases more than was asked, and it
-- moves what it releases to the available quantity.
pub unfreeze_bounds :
    (p : ManagedPosition) (qty : ℤ)
    → pos 0 ≤ℤ qty
    → pos 0 ≤ℤ p.qty_frozen
    → let q = unfreeze_position p qty in
      (pos 0 ≤ℤ q.qty_frozen)
      × (q.qty_frozen ≤ℤ p.qty_frozen)
      × (q.qty_available ≤ℤ p.qty_available +ℤ qty)
      × (q.qty_available +ℤ q.qty_frozen ≡ p.qty_available +ℤ p.qty_frozen)
unfreeze_bounds p qty h fr =
    let b = min_ℤ_bounds qty p.qty_frozen h fr in
    (omega (int_laws, b), omega (int_laws, b), omega (int_laws, b), omega int_laws)
