-- ===== src/Core/ReportKeeps.antt =====
-- Reports keep the orders and the holds sound.
use zkbot.Prelude.{
  ℕ, ℤ, pos, ◌≤ℤ◌, *ℤ-nonneg, leb_ℤ, int_eq, nat_eq, pair_eq, ◌≡◌, refl, inl, inr, Bool, ◌||◌,
  String, lookup, List, [], ◌∷◌, ◌++◌, Bool-cases, Option-cases, arith,
}
use zkbot.Orders.Types.{LiveOrder, is_in_terminal_state}
use zkbot.Orders.Report.{apply_state_report, apply_trade_report}
use zkbot.Orders.Store.{OrderStore, modify_live}
use zkbot.Orders.Entries.{
  ReportEntry, state_entry, trade_entry, linkage_entry, fee_entry, exec_entry, other_entry,
  ExecReport, infer_state_from_trades,
}
use zkbot.Metadata.{MetadataTables}
use zkbot.Core.Types.{Env, OmsCore, OrderReport}
use zkbot.Core.Reports.{
  Progress, linkage_step, state_step, trade_step, exec_step, fee_step, entry_step, apply_entries,
  oms_exec_type,
}
use zkbot.Core.Settle.{
  Settled, finalise, move_position, settle_fill, settle_fills, settle, close_if_ended, finish,
  entries_progress, finish_report, process_report_for_order, release_amount, start, new_fills,
  unsettled, is_alone, extra_entries,
}
use zkbot.Core.Edits.{
  IsSameOrder, refl-IsSameOrder, IsEdit, refl-IsEdit, trans-IsEdit, modify_live-IsEdit,
  update_order-IsEdit, register_exch_ref-IsEdit, promotion-IsEdit,
}
use zkbot.Core.Sound.{
  IsSound, edit-IsSound, close-IsSound, release-IsSound, release_partial-IsSound, release_frees,
}
use zkbot.Core.PlacingKeeps.{IsSoundCore, apply_oms_error-IsSameOrder}

pub same :
    (l m : LiveOrder)
    → m.order_id ≡ l.order_id
    → m.account_id ≡ l.account_id
    → m.price ≡ l.price
    → IsSameOrder l m
same l m i a p = record { same_id = i; same_account = a; same_price = λ h. rw p h }

module _ (env : Env) (metadata : MetadataTables) (order_id : ℤ) (gw_id : ℕ) (ts : ℤ)
    (alone : Bool) where
  linkage_step-IsEdit :
      (exch_ref : String) (p : Progress)
      → IsEdit p.orders (linkage_step env metadata order_id gw_id ts alone exch_ref p).orders
  unfolding linkage_step
  linkage_step-IsEdit exch_ref p =
      let linked = register_exch_ref-IsEdit p.orders order_id gw_id exch_ref in
      elim (Bool-cases alone) [
        | inl e ↦ rw e (trans-IsEdit _ _ _ linked (promotion-IsEdit _ order_id))
        | inr e ↦ rw e linked
      ]

  exec_step-IsEdit :
      (r : ExecReport) (p : Progress)
      → IsEdit p.orders (exec_step env metadata order_id gw_id ts alone r p).orders
  unfolding exec_step
  exec_step-IsEdit r p = elim (Option-cases (oms_exec_type r.exec_type)) [
    | inl e ↦ rw (e, exec_step) (refl-IsEdit p.orders)
    | inr (kind, e) ↦
        rw (e, exec_step)
          (update_order-IsEdit _ order_id p.orders (λ l d. apply_oms_error-IsSameOrder l d _ _ _ _))
  ]

  entry_step-IsEdit :
      (e : ReportEntry) (p : Progress)
      → IsEdit p.orders (entry_step env metadata order_id gw_id ts alone e p).orders
  unfolding entry_step state_step trade_step fee_step apply_state_report apply_trade_report
  entry_step-IsEdit (linkage_entry exch_ref) p = linkage_step-IsEdit exch_ref p
  entry_step-IsEdit (state_entry r) p =
      update_order-IsEdit _ order_id p.orders (λ l d. same l _ refl refl refl)
  entry_step-IsEdit (trade_entry r) p =
      update_order-IsEdit _ order_id p.orders (λ l d. same l _ refl refl refl)
  entry_step-IsEdit (exec_entry r) p = exec_step-IsEdit r p
  entry_step-IsEdit (fee_entry r) p =
      update_order-IsEdit _ order_id p.orders (λ l d. refl-IsSameOrder l)
  entry_step-IsEdit other_entry p = refl-IsEdit p.orders

  pub apply_entries-IsEdit :
      (es : List ReportEntry) (p : Progress)
      → IsEdit p.orders (apply_entries env metadata order_id gw_id ts alone es p).orders
  unfolding apply_entries
  apply_entries-IsEdit [] p = refl-IsEdit p.orders
  apply_entries-IsEdit (e ∷ es) p =
      trans-IsEdit _ _ _ (entry_step-IsEdit e p)
        (apply_entries-IsEdit es (entry_step env metadata order_id gw_id ts alone e p))

module _ (order_id : ℤ) (live : LiveOrder) (ts : ℤ) (price : pos 0 ≤ℤ live.price) where
  move_position_reservations :
      (fill : ℤ) (s : Settled) → (move_position live ts fill s).reservations ≡ s.reservations
  unfolding move_position
  move_position_reservations fill s = elim (Option-cases live.accounting_flags.pos_instrument_id) [
    | inl e ↦ rw (e, move_position) refl
    | inr (pos_id, e) ↦ rw (e, move_position) refl
  ]

  release_amount-nonneg : (fill : ℤ) → pos 0 ≤ℤ fill → pos 0 ≤ℤ release_amount live fill
  unfolding release_amount
  release_amount-nonneg fill h = elim (Bool-cases live.accounting_flags.is_buy) [
    | inl e ↦ rw e (*ℤ-nonneg fill live.price h price)
    | inr e ↦ rw e (*ℤ-nonneg fill (pos 1000000000) h (omega arith))
  ]

  settle_fill-IsSound :
      (orders : OrderStore) (fill : ℤ) (s : Settled)
      → IsSound orders s.reservations
      → IsSound orders (settle_fill order_id live ts fill s).reservations
  unfolding settle_fill
  settle_fill-IsSound orders fill s v = elim (Bool-cases (leb_ℤ fill (pos 0))) [
    | inl none_filled ↦ rw none_filled v
    | inr filled ↦
        let h : pos 0 ≤ℤ fill = ground arith in
        rw (filled, move_position_reservations fill s)
          (release_partial-IsSound orders s.reservations v order_id (release_amount live fill)
            (release_amount-nonneg fill h))
  ]

  settle_fills-IsSound :
      (orders : OrderStore) (fills : List ℤ) (s : Settled)
      → IsSound orders s.reservations
      → IsSound orders (settle_fills order_id live ts fills s).reservations
  unfolding settle_fills
  settle_fills-IsSound orders [] s v = v
  settle_fills-IsSound orders (fill ∷ fills) s v =
      settle_fills-IsSound orders fills (settle_fill order_id live ts fill s)
        (settle_fill-IsSound orders fill s v)

  settle-IsSound :
      (p : Progress) (n m : ℕ) (core : OmsCore)
      → IsSoundCore core
      → IsSound core.orders (settle order_id live ts p n m core).reservations
  unfolding settle
  settle-IsSound p n m core v = elim (Bool-cases (p.new_trade || p.new_oms_trade)) [
    | inl e ↦
        rw e
          (settle_fills-IsSound core.orders (new_fills core.orders order_id n m) (unsettled core) v)
    | inr e ↦ rw e v
  ]

  close_if_ended-IsSound :
      (core : OmsCore) (s : Settled)
      → IsSound core.orders s.reservations
      → IsSoundCore (close_if_ended core order_id live s).0
  unfolding close_if_ended
  close_if_ended-IsSound core s v = elim (Bool-cases (is_in_terminal_state live)) [
    | inl e ↦ rw e (
        close-IsSound core.orders _ (release-IsSound core.orders s.reservations v order_id) order_id
          (release_frees s.reservations order_id))
    | inr e ↦ rw e v
  ]

  finish-IsSound :
      (core : OmsCore) (p : Progress) (n m : ℕ)
      → IsSoundCore core
      → IsSoundCore (finish core order_id live ts p n m).0
  unfolding finish
  finish-IsSound core p n m v =
      close_if_ended-IsSound core (settle order_id live ts p n m core) (settle-IsSound p n m core v)

module _ (env : Env) (core : OmsCore) (v : IsSoundCore core) where
  pub finalised-IsSound :
      (order_id : ℤ) (p : Progress)
      → IsEdit core.orders p.orders
      → IsSound
          (record p.orders { live = modify_live (finalise env.div) order_id p.orders.live })
          core.reservations
  unfolding finalise
  finalised-IsSound order_id p f =
      edit-IsSound core.orders _ core.reservations
        (trans-IsEdit core.orders p.orders _ f
          (modify_live-IsEdit (finalise env.div) order_id p.orders (λ l. same l _ refl refl refl)))
        v

  finish_report-IsSound :
      (order_id ts : ℤ) (p : Progress) (n m : ℕ)
      → IsEdit core.orders p.orders
      → IsSoundCore (finish_report env core order_id ts p n m).0
  unfolding finish_report
  finish_report-IsSound order_id ts p n m f =
      let u = finalised-IsSound order_id p f in
      elim (Option-cases
        (lookup order_id (modify_live (finalise env.div) order_id p.orders.live))) [
          | inl e ↦ rw (e, finish_report) u
          | inr (live, e) ↦
              rw (e, finish_report)
                (finish-IsSound order_id live ts (u.priced order_id live e) _ p n m u)
        ]

  pub entries_progress-IsEdit :
      (live : LiveOrder) (order_id : ℤ) (gw_id : ℕ) (report : OrderReport)
      → IsEdit core.orders (entries_progress env core live order_id gw_id report).orders
  unfolding entries_progress
  entries_progress-IsEdit live order_id gw_id report =
      let extra = infer_state_from_trades env.div report.order_report_entries live in
      trans-IsEdit core.orders _ _
        (modify_live-IsEdit (λ l. record l { updated_at = report.update_timestamp }) order_id
          core.orders (λ l. same l _ refl refl refl))
        (apply_entries-IsEdit env core.metadata order_id gw_id report.update_timestamp
          (is_alone report extra) (report.order_report_entries ++ extra_entries extra) (start _))

  pub process_report_for_order-IsSound :
      (order_id : ℤ) (gw_id : ℕ) (report : OrderReport)
      → IsSoundCore (process_report_for_order env core order_id gw_id report).0
  unfolding process_report_for_order
  process_report_for_order-IsSound order_id gw_id report =
      elim (Option-cases (lookup order_id core.orders.live)) [
        | inl e ↦ rw (e, process_report_for_order) v
        | inr (live, e) ↦
            let f = entries_progress-IsEdit live order_id gw_id report in
            let p = entries_progress env core live order_id gw_id report in
            elim (Bool-cases p.original_order_updated) [
              | inr idle ↦
                  rw (e, idle, process_report_for_order)
                    (edit-IsSound core.orders p.orders core.reservations f v)
              | inl moved ↦
                  rw (e, moved, process_report_for_order)
                    (finish_report-IsSound order_id report.update_timestamp p _ _ f)
            ]
      ]
