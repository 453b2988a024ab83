-- ===== src/Prelude/Maps.antt =====
-- std::collections::HashMap as an association list whose keys are kept apart by `insert`, with
-- the laws that clients use. The order of iteration of a HashMap is unspecified in Rust: the
-- program's results that depend on it are not modelled through this file.
use mathlib.Core.Path.{◌≡◌, refl}
use mathlib.Core.Logic.{◌≢◌, ◌⊎◌, inl, inr}
use mathlib.Core.Bool.{Bool, true, false, not, ◌&&◌, ◌||◌}
use mathlib.Core.Option.{Option, none, some}
use mathlib.Core.List.{List, [], ◌∷◌}
use native.Mathlib.Omega.{arith}
use zkbot.Prelude.Tests.{if◌then◌else◌, is_some, Bool-cases}
use zkbot.Prelude.Keys.{HashKey, ◌==◌, ==_refl, ==_ne}

abbrev pub HashMap {ℓ κ} : Type ℓ → Type κ → Type (ℓ ⊔ κ)
HashMap K V = List (K × V)

module _ {ℓ κ} {K : Type ℓ} {V : Type κ} ⦃e : HashKey K⦄ where
  unfoldable pub lookup : K → HashMap K V → Option V
  lookup key [] = none
  lookup key ((other, v) ∷ entries) = if other == key then some v else lookup key entries

  -- `insert` overwrites the value of a key that is there.
  unfoldable pub insert : K → V → HashMap K V → HashMap K V
  insert key v [] = (key, v) ∷ []
  insert key v ((other, old) ∷ entries) =
      if other == key then (key, v) ∷ entries else (other, old) ∷ insert key v entries

  unfoldable pub remove : K → HashMap K V → HashMap K V
  remove key [] = []
  remove key ((other, old) ∷ entries) =
      let rest = remove key entries in if other == key then rest else (other, old) ∷ rest

  abbrev pub contains_key : K → HashMap K V → Bool
  contains_key key entries = is_some (lookup key entries)

  -- No key stands twice.
  abbrev pub IsMap : HashMap K V → Type κ
  IsMap [] = Unit
  IsMap ((other, old) ∷ entries) = (lookup other entries ≡ none) × IsMap entries

  pub lookup-insert :
      (key other : K) (v : V) (entries : HashMap K V)
      → lookup other (insert key v entries)
        ≡ (if key == other then some v else lookup other entries)
  unfolding lookup insert
  lookup-insert key other v [] = refl
  lookup-insert key other v ((first, old) ∷ entries) = ground (
    arith,
    e.is_same_iff key other,
    e.is_same_iff first key,
    e.is_same_iff first other,
    lookup-insert key other v entries,
  )

  -- What is found after an insertion is the new value, or was there.
  pub lookup-insert_cases :
      (key other : K) (v w : V) (entries : HashMap K V)
      → lookup other (insert key v entries) ≡ some w
      → (((key == other) ≡ true) × (v ≡ w))
        ⊎ (((key == other) ≡ false) × (lookup other entries ≡ some w))
  lookup-insert_cases key other v w entries h = elim (Bool-cases (key == other)) [
    | inl same ↦ inl (same, ground (arith, lookup-insert key other v entries, same, h))
    | inr differ ↦ inr (differ, ground (arith, lookup-insert key other v entries, differ, h))
  ]

  pub lookup-remove :
      (key other : K) (entries : HashMap K V)
      → lookup other (remove key entries) ≡ (if key == other then none else lookup other entries)
  unfolding lookup remove
  lookup-remove key other [] = ground arith
  lookup-remove key other ((first, old) ∷ entries) = ground (
    arith,
    e.is_same_iff key other,
    e.is_same_iff first key,
    e.is_same_iff first other,
    lookup-remove key other entries,
  )

  pub lookup-insert_self :
      (key : K) (v : V) (entries : HashMap K V) → lookup key (insert key v entries) ≡ some v
  lookup-insert_self key v entries = rw (lookup-insert key key v entries, ==_refl key)

  pub lookup-insert_ne :
      (key other : K) (v : V) (entries : HashMap K V)
      → key ≢ other
      → lookup other (insert key v entries) ≡ lookup other entries
  lookup-insert_ne key other v entries h = rw (lookup-insert key other v entries, ==_ne h)

  pub lookup-remove_self :
      (key : K) (entries : HashMap K V) → lookup key (remove key entries) ≡ none
  lookup-remove_self key entries = rw (lookup-remove key key entries, ==_refl key)

  pub lookup-remove_ne :
      (key other : K) (entries : HashMap K V)
      → key ≢ other
      → lookup other (remove key entries) ≡ lookup other entries
  lookup-remove_ne key other entries h = rw (lookup-remove key other entries, ==_ne h)

  pub insert-IsMap :
      (key : K) (v : V) (entries : HashMap K V) → IsMap entries → IsMap (insert key v entries)
  unfolding insert lookup
  insert-IsMap key v [] h = (refl, tt)
  insert-IsMap key v ((first, old) ∷ entries) h = ground (
    arith,
    e.is_same_iff first key,
    e.is_same_iff key first,
    lookup-insert key first v entries,
    insert-IsMap key v entries h.1,
  )

  pub remove-IsMap : (key : K) (entries : HashMap K V) → IsMap entries → IsMap (remove key entries)
  unfolding remove lookup
  remove-IsMap key [] h = tt
  remove-IsMap key ((first, old) ∷ entries) h = ground (
    arith,
    e.is_same_iff key first,
    lookup-remove key first entries,
    remove-IsMap key entries h.1,
  )

  pub remove_absent :
      (key : K) (entries : HashMap K V) → lookup key entries ≡ none → remove key entries ≡ entries
  unfolding remove lookup
  remove_absent key [] h = refl
  remove_absent key ((first, old) ∷ entries) h = ground (arith, remove_absent key entries)

-- std::collections::HashSet.
abbrev pub HashSet {ℓ} : Type ℓ → Type ℓ
HashSet K = List K

module _ {ℓ} {K : Type ℓ} ⦃e : HashKey K⦄ where
  unfoldable pub contains : K → HashSet K → Bool
  contains key [] = false
  contains key (other ∷ s) = other == key || contains key s

  unfoldable pub set_insert : K → HashSet K → HashSet K
  set_insert key s = if contains key s then s else key ∷ s

  unfoldable pub set_remove : K → HashSet K → HashSet K
  set_remove key [] = []
  set_remove key (other ∷ s) =
      let rest = set_remove key s in if other == key then rest else other ∷ rest

  pub contains-set_insert :
      (key other : K) (s : HashSet K)
      → contains other (set_insert key s) ≡ (key == other || contains other s)
  unfolding contains set_insert
  contains-set_insert key other s = ground (arith, e.is_same_iff key other)

  pub contains-set_remove :
      (key other : K) (s : HashSet K)
      → contains other (set_remove key s) ≡ (not (key == other) && contains other s)
  unfolding contains set_remove
  contains-set_remove key other [] = ground arith
  contains-set_remove key other (first ∷ s) = ground (
    arith,
    e.is_same_iff key other,
    e.is_same_iff first key,
    e.is_same_iff first other,
    contains-set_remove key other s,
  )
