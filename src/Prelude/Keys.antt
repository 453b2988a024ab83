-- ===== src/Prelude/Keys.antt =====
-- Boolean equality as an interface, for the keys of maps and sets.
use Prim.Native.Nat.{ℕ}
use Prim.Native.String.{String}
use mathlib.Core.Path.{◌≡◌, refl, ap}
use mathlib.Core.Logic.{◌↔◌, ◌≢◌, inl, inr}
use mathlib.Core.Bool.{Bool, true, false, ◌&&◌}
use native.Mathlib.Omega.{arith}
use text.Mathlib.Text.{◌==◌ as str_eq}
use text.Mathlib.TextEquality.{eq_iff}
use zkbot.Prelude.Tests.{nat_beq, nat_beq_iff, Bool-cases}
use zkbot.Prelude.Int.{ℤ, int_beq, int_beq_iff}

-- What `derive(PartialEq, Eq)` gives a key.
pub record HashKey {ℓ} (Key : Type ℓ) : Type ℓ where
  pub is_same : Key → Key → Bool
  pub is_same_iff : (one other : Key) → (is_same one other ≡ true) ↔ (one ≡ other)

infix 50 ◌==◌
abbrev pub ◌==◌ {ℓ} : {Key : Type ℓ} ⦃key : HashKey Key⦄ → Key → Key → Bool
◌==◌ ⦃key⦄ one other = key.is_same one other

pub ==_iff {ℓ} : {A : Type ℓ} ⦃e : HashKey A⦄ (a b : A) → ((a == b) ≡ true) ↔ (a ≡ b)
==_iff ⦃e⦄ a b = e.is_same_iff a b

pub ==_refl {ℓ} : {A : Type ℓ} ⦃e : HashKey A⦄ (a : A) → (a == a) ≡ true
==_refl ⦃e⦄ a = (e.is_same_iff a a).1 refl

pub ==_ne {ℓ} : {A : Type ℓ} ⦃e : HashKey A⦄ {a b : A} → a ≢ b → (a == b) ≡ false
==_ne ⦃e⦄ {a} {b} h = elim (Bool-cases (e.is_same a b)) [
  | inl t ↦ absurd (h ((e.is_same_iff a b).0 t))
  | inr f ↦ f
]

instance abbrev pub nat_eq : HashKey ℕ
nat_eq = record { is_same = nat_beq; is_same_iff = nat_beq_iff }

instance abbrev pub int_eq : HashKey ℤ
int_eq = record { is_same = int_beq; is_same_iff = int_beq_iff }

instance abbrev pub string_eq : HashKey String
string_eq = record { is_same = str_eq; is_same_iff = eq_iff }

module _ {ℓ κ} {A : Type ℓ} {B : Type κ} ⦃e : HashKey A⦄ ⦃f : HashKey B⦄ where
  abbrev pub pair_beq : A × B → A × B → Bool
  pair_beq p q = e.is_same p.0 q.0 && f.is_same p.1 q.1

  pair_beq-true : (p q : A × B) → pair_beq p q ≡ true → p ≡ q
  pair_beq-true p q h =
      let l : p.0 ≡ q.0 = (e.is_same_iff p.0 q.0).0 (ground arith) in
      let r : p.1 ≡ q.1 = (f.is_same_iff p.1 q.1).0 (ground arith) in λ i. (l i, r i)

  pair_beq_refl : (p q : A × B) → p ≡ q → pair_beq p q ≡ true
  pair_beq_refl p q h = ground (
    arith,
    (e.is_same_iff p.0 q.0).1 (ap (λ (t : A × B). t.0) h),
    (f.is_same_iff p.1 q.1).1 (ap (λ (t : A × B). t.1) h),
  )

  pub pair_beq_iff : (p q : A × B) → (pair_beq p q ≡ true) ↔ (p ≡ q)
  pair_beq_iff p q = (pair_beq-true p q, pair_beq_refl p q)

  instance abbrev pub pair_eq : HashKey (A × B)
  pair_eq = record { is_same = pair_beq; is_same_iff = pair_beq_iff }
