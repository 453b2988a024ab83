-- ===== src/Intern.antt =====
-- rust/crates/zk-oms-rs/src/intern_v2.rs, and the table of the same code in models_v2.rs
-- (`DynStringTable`): strings are interned once and named by u32 ids in the order of arrival.
-- `len() as u32` wraps at 2^32. A `resolve` of an id that the table does not hold panics in the
-- source, and is `none` here, as `try_resolve` is.
pub mod Laws
mod Examples
use zkbot.Prelude.{
  ℕ, ◌%◌, u32_mod, String, string_eq, Option, none, some, HashMap, lookup, insert, List, [], ◌∷◌,
  ◌++◌, length, get_elem?,
}

pub record InternTable : Type 0 where
  pub ids_by_str : HashMap String ℕ
  pub strs_by_id : List String

abbrev pub DynStringTable : Type 0
DynStringTable = InternTable

abbrev pub new : InternTable
new = record { ids_by_str = []; strs_by_id = [] }

unfoldable pub intern : InternTable → String → InternTable × ℕ
intern t s = elim (lookup s t.ids_by_str) [
  | some id ↦ (t, id)
  | none ↦
      let id = length t.strs_by_id % u32_mod in
      (record { ids_by_str = insert s id t.ids_by_str; strs_by_id = t.strs_by_id ++ s ∷ [] }, id)
]

unfoldable pub try_resolve : InternTable → ℕ → Option String
try_resolve t id = get_elem? t.strs_by_id id

unfoldable pub lookup_id : InternTable → String → Option ℕ
lookup_id t s = lookup s t.ids_by_str

pub len : InternTable → ℕ
len t = length t.strs_by_id
