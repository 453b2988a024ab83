-- ===== src/Core/EndedEntries.antt =====
-- The entries of a report: what they change, and when they may end the order.
use zkbot.Prelude.{
  ℕ, ℤ, int_eq, string_eq, ◌≡◌, refl, ◌∙◌, ◌⊎◌, inl, inr, Bool, true, String, lookup, Bool-cases,
  Option-cases, List, [], ◌∷◌,
}
use zkbot.Orders.Store.{OrderStore, register_exch_ref}
use zkbot.Orders.Entries.{
  ReportEntry, state_entry, trade_entry, linkage_entry, fee_entry, exec_entry, other_entry,
  ExecReport,
}
use zkbot.Metadata.{MetadataTables}
use zkbot.Core.Types.{Env}
use zkbot.Core.Reports.{
  Progress, linkage_step, state_step, trade_step, exec_step, fee_step, entry_step, apply_entries,
  oms_exec_type,
}
use zkbot.Core.Ended.{
  is_ended, IsChangeOf, trans-IsChangeOf, update_order-IsChangeOf, register_exch_ref-IsChangeOf,
  register_ended, promotion-IsChangeOf,
}

-- What the loop has done to the order: it counts as updated, or it ended only if it had.
abbrev pub Tracks : ℤ → OrderStore → Progress → Type 0
Tracks id s p =
    (p.original_order_updated ≡ true)
    ⊎ (is_ended (lookup id p.orders.live) ≡ is_ended (lookup id s.live))

module _ (env : Env) (metadata : MetadataTables) (order_id : ℤ) (gw_id : ℕ) (ts : ℤ)
    (alone : Bool) where
  exec_step-Tracks :
      (s : OrderStore) (r : ExecReport) (p : Progress)
      → IsChangeOf order_id s p.orders × Tracks order_id s p
      → IsChangeOf order_id s (exec_step env metadata order_id gw_id ts alone r p).orders
        × Tracks order_id s (exec_step env metadata order_id gw_id ts alone r p)
  unfolding exec_step
  exec_step-Tracks s r p h = elim (Option-cases (oms_exec_type r.exec_type)) [
    | inl e ↦ rw (e, exec_step) h
    | inr (kind, e) ↦
        rw (e, exec_step)
          (
            trans-IsChangeOf order_id s p.orders _ h.0
                (update_order-IsChangeOf _ order_id p.orders),
            inl refl,
          )
  ]

  register-Tracks :
      (s : OrderStore) (p : Progress) (exch_ref : String)
      → Tracks order_id s p
      → Tracks order_id s (record p { orders = register_exch_ref p.orders order_id gw_id exch_ref })
  register-Tracks s p exch_ref (inl updated) = inl updated
  register-Tracks s p exch_ref (inr same) =
      inr (register_ended p.orders order_id gw_id exch_ref order_id ∙ same)

  linkage_step-Tracks :
      (s : OrderStore) (exch_ref : String) (p : Progress)
      → IsChangeOf order_id s p.orders × Tracks order_id s p
      → IsChangeOf order_id s (linkage_step env metadata order_id gw_id ts alone exch_ref p).orders
        × Tracks order_id s (linkage_step env metadata order_id gw_id ts alone exch_ref p)
  unfolding linkage_step
  linkage_step-Tracks s exch_ref p h =
      let tracked = register-Tracks s p exch_ref h.1 in
      let linked =
        trans-IsChangeOf order_id s p.orders _ h.0
          (register_exch_ref-IsChangeOf p.orders order_id gw_id exch_ref) in
      elim (Bool-cases alone) [
        | inl e ↦
            rw e
              (trans-IsChangeOf order_id s _ _ linked (promotion-IsChangeOf _ order_id), inl refl)
        | inr e ↦ rw e (linked, tracked)
      ]

  entry_step-Tracks :
      (s : OrderStore) (e : ReportEntry) (p : Progress)
      → IsChangeOf order_id s p.orders × Tracks order_id s p
      → IsChangeOf order_id s (entry_step env metadata order_id gw_id ts alone e p).orders
        × Tracks order_id s (entry_step env metadata order_id gw_id ts alone e p)
  unfolding entry_step state_step trade_step fee_step
  entry_step-Tracks s (linkage_entry exch_ref) p h = linkage_step-Tracks s exch_ref p h
  entry_step-Tracks s (state_entry r) p h = (
    trans-IsChangeOf order_id s p.orders _ h.0 (update_order-IsChangeOf _ order_id p.orders),
    inl refl,
  )
  entry_step-Tracks s (trade_entry r) p h = (
    trans-IsChangeOf order_id s p.orders _ h.0 (update_order-IsChangeOf _ order_id p.orders),
    inl refl,
  )
  entry_step-Tracks s (exec_entry r) p h = exec_step-Tracks s r p h
  entry_step-Tracks s (fee_entry r) p h = (
    trans-IsChangeOf order_id s p.orders _ h.0 (update_order-IsChangeOf _ order_id p.orders),
    inl refl,
  )
  entry_step-Tracks s other_entry p h = h

  pub apply_entries-Tracks :
      (s : OrderStore) (es : List ReportEntry) (p : Progress)
      → IsChangeOf order_id s p.orders × Tracks order_id s p
      → IsChangeOf order_id s (apply_entries env metadata order_id gw_id ts alone es p).orders
        × Tracks order_id s (apply_entries env metadata order_id gw_id ts alone es p)
  unfolding apply_entries
  apply_entries-Tracks s [] p h = h
  apply_entries-Tracks s (e ∷ es) p h =
      apply_entries-Tracks s es (entry_step env metadata order_id gw_id ts alone e p)
        (entry_step-Tracks s e p h)
