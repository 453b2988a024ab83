-- ===== src/Core/Cancels.antt =====
-- What a cancellation does, and what its failure leaves alone.
use zkbot.Prelude.{
  ◌+◌, ◌%◌, u32_mod, ℤ, int_eq, ==_iff, ◌≡◌, refl, ap, inl, inr, Bool, true, false, not, ◌&&◌, ◌||◌,
  Option, none, some, String, HashMap, lookup, insert, lookup-insert, List, [], ◌∷◌, Bool-cases,
  Option-cases, arith,
}
use zkbot.Orders.Types.{LiveOrder, OrderStatus, exec_cancel, is_in_terminal_state}
use zkbot.Orders.Report.{apply_oms_error}
use zkbot.Orders.Store.{OrderStore, put_order, modify_live}
use zkbot.Core.Types.{Env, Message, OmsCore, OmsAction, OrderCancelRequest, send_cancel_to_gw}
use zkbot.Core.Requests.{validate_cancel_request}
use zkbot.Core.Placing.{update_order}
use zkbot.Core.Failures.{
  fail_order, process_gateway_cancel_send_failed, send_cancel, cancel_live, process_cancel,
}

abbrev pub is_cancel : OmsAction → Bool
is_cancel (send_cancel_to_gw gw_id order_id) = true
is_cancel _ = false

-- Whether an action sends a cancellation to a gateway.
abbrev pub sends_cancel : List OmsAction → Bool
sends_cancel [] = false
sends_cancel (a ∷ actions) = is_cancel a || sends_cancel actions

-- An order that was looked up, and can be cancelled.
abbrev pub can_cancel : Option LiveOrder → Bool
can_cancel none = false
can_cancel (some live) = not live.is_external && not (is_in_terminal_state live)

abbrev pub status_of : Option LiveOrder → Option OrderStatus
status_of none = none
status_of (some live) = some live.order_status

insert_same :
    (live : HashMap ℤ LiveOrder) (id j : ℤ) (l : LiveOrder)
    → lookup id live ≡ some l
    → lookup j (insert id l live) ≡ lookup j live
insert_same live id j l e = ground (arith, lookup-insert id j l live, ==_iff id j, e)

-- An error of the cancellation changes no live order.
pub fail_order_live :
    (env : Env) (s : OrderStore) (id : ℤ) (message : Message) (ts j : ℤ)
    → lookup j (fail_order env s id message ts exec_cancel).live ≡ lookup j s.live
unfolding fail_order update_order put_order apply_oms_error
fail_order_live env s id message ts j = elim (Option-cases (lookup id s.live)) [
  | inl e ↦ rw (e, update_order) refl
  | inr (l, e) ↦ elim (Option-cases (lookup id s.detail)) [
    | inl h ↦ rw (e, h, update_order) refl
    | inr (d, h) ↦ rw (e, h, update_order) (insert_same s.live id j l e)
  ]
]

pub fail_order_open :
    (env : Env) (s : OrderStore) (id : ℤ) (message : Message) (ts : ℤ)
    → (fail_order env s id message ts exec_cancel).open_order_ids ≡ s.open_order_ids
unfolding fail_order update_order put_order
fail_order_open env s id message ts = elim (Option-cases (lookup id s.live)) [
  | inl e ↦ rw (e, update_order) refl
  | inr (l, e) ↦ elim (Option-cases (lookup id s.detail)) [
    | inl h ↦ rw (e, h, update_order) refl
    | inr (d, h) ↦ rw (e, h, update_order) refl
  ]
]

-- What stays through a cancellation: the status of every order, which of them are open, and what
-- is held.
abbrev pub IsUntouched : OmsCore → OmsCore → Type 0
IsUntouched core after =
    ((j : ℤ) → status_of (lookup j after.orders.live) ≡ status_of (lookup j core.orders.live))
    × (after.orders.open_order_ids ≡ core.orders.open_order_ids)
    × (after.reservations ≡ core.reservations)
    × (after.positions ≡ core.positions)

-- The failure of a cancellation leaves every live order as it is, with no change of its status,
-- its quantities or its version; the same orders are open, and the reservations and the positions
-- are the same.
pub process_gateway_cancel_send_failed_lem :
    (env : Env) (core : OmsCore) (order_id : ℤ) (error_msg : String)
    → let after = (process_gateway_cancel_send_failed env core order_id error_msg).0 in
      ((j : ℤ) → lookup j after.orders.live ≡ lookup j core.orders.live)
      × (after.orders.open_order_ids ≡ core.orders.open_order_ids)
      × (after.reservations ≡ core.reservations)
      × (after.positions ≡ core.positions)
unfolding process_gateway_cancel_send_failed
process_gateway_cancel_send_failed_lem env core order_id error_msg =
    elim (Option-cases (lookup order_id core.orders.live)) [
      | inl e ↦ rw (e, process_gateway_cancel_send_failed) ((λ j. refl), refl, refl, refl)
      | inr (live, e) ↦ elim (Bool-cases (is_in_terminal_state live)) [
        | inl ended ↦
            rw (e, ended, process_gateway_cancel_send_failed) ((λ j. refl), refl, refl, refl)
        | inr going ↦
            rw (e, going, process_gateway_cancel_send_failed)
              (
                fail_order_live env core.orders order_id _ _,
                fail_order_open env core.orders order_id _ _,
                refl,
                refl,
              )
      ]
    ]

untouched : (core : OmsCore) → IsUntouched core core
untouched core = ((λ j. refl), refl, refl, refl)

abbrev attempted : LiveOrder → LiveOrder
attempted l = record l { cancel_attempts = (l.cancel_attempts + 1) % u32_mod }

attempt_status :
    (id j : ℤ) (live : HashMap ℤ LiveOrder)
    → status_of (lookup j (modify_live attempted id live)) ≡ status_of (lookup j live)
unfolding modify_live
attempt_status id j live = elim (Option-cases (lookup id live)) [
  | inl e ↦ rw (e, modify_live) refl
  | inr (l, e) ↦
      rw (e, modify_live) (ground (arith, lookup-insert id j (attempted l) live, ==_iff id j, e))
]

module _ (env : Env) (core : OmsCore) (req : OrderCancelRequest) where
  send_cancel-IsUntouched : (live : LiveOrder) → IsUntouched core (send_cancel env core live req).0
  unfolding send_cancel
  send_cancel-IsUntouched live =
      ((λ j. attempt_status req.order_id j core.orders.live), refl, refl, refl)

  cancel_live_lem :
      (live : LiveOrder)
      → (sends_cancel (cancel_live env core live req).1
          ≡ not live.is_external && not (is_in_terminal_state live))
        × IsUntouched core (cancel_live env core live req).0
  unfolding cancel_live
  cancel_live_lem live = elim (Bool-cases live.is_external) [
    | inl external ↦ rw external (refl, untouched core)
    | inr own ↦ elim (Bool-cases (is_in_terminal_state live)) [
      | inl ended ↦
          rw (own, ended)
            (
              refl,
              (
                (λ j. ap status_of (fail_order_live env core.orders req.order_id _ _ j)),
                fail_order_open env core.orders req.order_id _ _,
                refl,
                refl,
              ),
            )
      | inr going ↦ rw (own, going) (refl, send_cancel-IsUntouched live)
    ]
  ]

  -- A cancellation is sent to a gateway exactly if its order id is positive and the order is live,
  -- not external, and in no final state. Whether it is sent or not, every order keeps its status,
  -- the same orders are open, and the reservations and the positions are the same.
  pub process_cancel_lem :
      (sends_cancel (process_cancel env core req).1
        ≡ validate_cancel_request req && can_cancel (lookup req.order_id core.orders.live))
      × IsUntouched core (process_cancel env core req).0
  unfolding process_cancel
  process_cancel_lem = elim (Bool-cases (validate_cancel_request req)) [
    | inr bad ↦ rw bad (refl, untouched core)
    | inl good ↦ elim (Option-cases (lookup req.order_id core.orders.live)) [
      | inl e ↦ rw (good, e, process_cancel) (refl, untouched core)
      | inr (live, e) ↦ rw (good, e, process_cancel) (cancel_live_lem live)
    ]
  ]
