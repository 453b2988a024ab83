-- ===== src/Intern/Laws.antt =====
-- Interning and resolving are inverse to one another, and ids are stable.
use zkbot.Prelude.{
  ℕ, ◌<◌, ◌≤◌, ◌≡◌, ◌%◌, inl, inr, u32_mod, String, string_eq, none, some, lookup, insert,
  lookup-insert, lookup-insert_self, [], ◌∷◌, ◌++◌, length, length-append, get_elem?,
  get_elem?-append_left, get_elem?-push_last, get_elem?-push_cases, arith, Option-cases, ==_iff,
  ◌==◌, Bool-cases,
}
use zkbot.Intern.{InternTable, new, intern, try_resolve, lookup_id}

-- The two tables say the same, and the ids fit into 32 bits.
pub record IsInterned (t : InternTable) : Type 0 where
  pub named :
      (s : String) (id : ℕ) → lookup s t.ids_by_str ≡ some id → get_elem? t.strs_by_id id ≡ some s
  pub found :
      (s : String) (id : ℕ) → get_elem? t.strs_by_id id ≡ some s → lookup s t.ids_by_str ≡ some id
  pub small : length t.strs_by_id ≤ u32_mod

pub new-IsInterned : IsInterned new
unfolding lookup
new-IsInterned = record {
  named = λ s id h. ground arith;
  found = λ s id h. ground arith;
  small = omega arith;
}

push_named :
    (t : InternTable) (s u : String) (id : ℕ)
    → IsInterned t
    → length t.strs_by_id < u32_mod
    → lookup u (insert s (length t.strs_by_id % u32_mod) t.ids_by_str) ≡ some id
    → get_elem? (t.strs_by_id ++ s ∷ []) id ≡ some u
push_named t s u id v room h =
    let n = length t.strs_by_id in
    let law = lookup-insert s u (n % u32_mod) t.ids_by_str in
    elim (Bool-cases (s == u)) [
      | inl e ↦
          let same : s ≡ u = (==_iff s u).0 e in
          let at_end : id ≡ n = ground arith in
          rw (at_end, ← same) (get_elem?-push_last t.strs_by_id s)
      | inr e ↦ get_elem?-append_left t.strs_by_id (s ∷ []) id u (v.named u id (ground arith))
    ]

push_found :
    (t : InternTable) (s u : String) (id : ℕ)
    → IsInterned t
    → lookup s t.ids_by_str ≡ none
    → length t.strs_by_id < u32_mod
    → get_elem? (t.strs_by_id ++ s ∷ []) id ≡ some u
    → lookup u (insert s (length t.strs_by_id % u32_mod) t.ids_by_str) ≡ some id
push_found t s u id v e room h =
    let law = lookup-insert s u (length t.strs_by_id % u32_mod) t.ids_by_str in
    elim (get_elem?-push_cases t.strs_by_id s id u h) [
      | inl old ↦ let known = v.found u id old in ground (arith, ==_iff s u)
      | inr (i, q) ↦ ground (arith, ==_iff s u)
    ]

-- In a consistent table with room for one more 32-bit id, interning a string leaves the two maps of
-- the table consistent: a string has an id exactly if the id names that string.
pub intern-IsInterned :
    (t : InternTable) (s : String)
    → IsInterned t
    → length t.strs_by_id < u32_mod
    → IsInterned (intern t s).0
unfolding intern
intern-IsInterned t s v room = elim (Option-cases (lookup s t.ids_by_str)) [
  | inr (id, e) ↦ rw (e, intern) v
  | inl e ↦
      rw (e, intern)
        (record {
          named = λ u id h. push_named t s u id v room h;
          found = λ u id h. push_found t s u id v e room h;
          small = omega (arith, length-append t.strs_by_id (s ∷ []));
        })
]

pub intern_resolves :
    (t : InternTable) (s : String)
    → IsInterned t
    → length t.strs_by_id < u32_mod
    → try_resolve (intern t s).0 (intern t s).1 ≡ some s
unfolding intern try_resolve
intern_resolves t s v room = elim (Option-cases (lookup s t.ids_by_str)) [
  | inr (id, e) ↦ rw (e, intern) (v.named s id e)
  | inl e ↦
      let fits : length t.strs_by_id % u32_mod ≡ length t.strs_by_id = omega arith in
      rw (e, intern) (rw fits (get_elem?-push_last t.strs_by_id s))
]

intern_twice :
    (t : InternTable) (s : String) → intern (intern t s).0 s ≡ ((intern t s).0, (intern t s).1)
unfolding intern
intern_twice t s = ground (arith, lookup-insert_self s (length t.strs_by_id % u32_mod) t.ids_by_str)

-- In a consistent table with room for one more 32-bit id, the id that interning a string gives
-- resolves to that string, and interning the string once more gives the same id and changes
-- nothing.
intern_lem :
    (t : InternTable) (s : String)
    → IsInterned t
    → length t.strs_by_id < u32_mod
    → let (t', id) = intern t s in (try_resolve t' id ≡ some s) × (intern t' s ≡ (t', id))
intern_lem t s v room = (intern_resolves t s v room, intern_twice t s)

-- An id that resolves to a string resolves to the same string after any interning.
pub try_resolve-intern :
    (t : InternTable) (s u : String) (id : ℕ)
    → try_resolve t id ≡ some u
    → try_resolve (intern t s).0 id ≡ some u
unfolding intern try_resolve
try_resolve-intern t s u id h = ground (arith, get_elem?-append_left t.strs_by_id (s ∷ []) id u)

-- In a consistent table two strings that are both interned have the same id only if they are the
-- same string.
lookup_id_injective :
    (t : InternTable) (s u : String) (id : ℕ)
    → IsInterned t
    → lookup_id t s ≡ some id
    → lookup_id t u ≡ some id
    → s ≡ u
unfolding lookup_id
lookup_id_injective t s u id v h k = ground (arith, v.named s id h, v.named u id k)
