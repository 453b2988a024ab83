-- ===== src/Core/Accepts.antt =====
-- Which orders the core sends to a gateway, and what it leaves behind when it does not.
use zkbot.Prelude.{
  ℕ, ◌≤ℤ◌, ◌+ℤ◌, int_eq, nat_eq, pair_eq, ◌≡◌, refl, sym, subst, ◌↔◌, inl, inr, Bool, true, false,
  not, ◌&&◌, ◌||◌, Option, none, some, contains, List, [], ◌∷◌, Bool-cases, if◌then◌else◌, arith,
}
use zkbot.Orders.Types.{OrderRequest, ResolvedOrderMeta}
use zkbot.Reservation
use zkbot.Reservation.{ReservationStore, check_available}
use zkbot.Reservation.Totals.{held}
use zkbot.Reservation.Laws.{IsConsistent}
use zkbot.Reservation.Runs.{check_available_iff}
use zkbot.Position
use zkbot.Position.{PositionStore, available, check_and_freeze}
use zkbot.Position.Freeze.{check_and_freeze_lem}
use zkbot.Core.Types.{Env, OmsCore, OmsAction, send_order_to_gw}
use zkbot.Core.Requests.{Resolved, resolved, unresolved, validate_order_request, resolve_order_meta}
use zkbot.Core.Placing.{
  PreTrade, passed, refused, is_buy, cost_of, avail_value, cash_held, hold_cash, position_held,
  hold_position, pre_trade, is_oversized, reject_order, send_order, after_checks, intern_source,
  check_and_send, after_resolution, process_order,
}

abbrev pub is_send : OmsAction → Bool
is_send (send_order_to_gw gw_id order_id ts) = true
is_send _ = false

-- Whether an action sends an order to a gateway.
abbrev pub sends_order : List OmsAction → Bool
sends_order [] = false
sends_order (a ∷ actions) = is_send a || sends_order actions

-- A checked buy has a fund whose available balance covers its cost on top of every hold.
abbrev pub CashCovers : OmsCore → OrderRequest → Bool → Option ℕ → Type 0
CashCovers core req true (some fund_id) =
    cost_of req +ℤ held (req.account_id, fund_id) core.reservations.reservations
    ≤ℤ avail_value core.balances req.account_id fund_id
CashCovers core req _ _ = Unit {0}

-- A sell that keeps a position has the quantity available there.
abbrev pub PositionCovers : OmsCore → OrderRequest → Option ℕ → Type 0
PositionCovers core req none = Unit {0}
PositionCovers core req (some pos_id) = req.qty ≤ℤ available core.positions req.account_id pos_id

-- What an order needs to be covered; without bookkeeping, or with margin, it needs nothing.
abbrev pub IsCovered : OmsCore → OrderRequest → ResolvedOrderMeta → Type 0
IsCovered core req meta =
    if meta.bookkeeping_balance && not meta.use_margin
    then if is_buy req
      then CashCovers core req meta.balance_check meta.fund_asset_id
      else PositionCovers core req meta.pos_instrument_id
    else Unit {0}

abbrev pub passes : PreTrade → Bool
passes (passed r p) = true
passes (refused message) = false

module _ (core : OmsCore) (req : OrderRequest) where
  passes-cash_held :
      (fund_id : ℕ) (result : Reservation.Result)
      → (passes (cash_held core req fund_id result) ≡ true) ↔ (result ≡ Reservation.ok)
  unfolding cash_held
  passes-cash_held fund_id (Reservation.err e) = (ground arith, ground arith)
  passes-cash_held fund_id Reservation.ok = (λ _. refl, λ _. refl)

  passes-position_held :
      (pos_id : ℕ) (froze : PositionStore × Position.FreezeResult)
      → (passes (position_held core req pos_id froze) ≡ true) ↔ (froze.1 ≡ Position.ok)
  unfolding position_held
  passes-position_held pos_id (p, Position.not_enough_available) = (ground arith, ground arith)
  passes-position_held pos_id (p, Position.ok) = (λ _. refl, λ _. refl)

  passes-hold_cash :
      (check : Bool) (fund : Option ℕ)
      → IsConsistent core.reservations
      → (passes (hold_cash core req check fund) ≡ true) ↔ CashCovers core req check fund
  unfolding hold_cash
  passes-hold_cash false none c = (λ _. tt, λ _. refl)
  passes-hold_cash true none c = (λ _. tt, λ _. refl)
  passes-hold_cash false (some fund_id) c = (λ _. tt, λ _. refl)
  passes-hold_cash true (some fund_id) c =
      let result = passes-cash_held fund_id _ in
      let covers =
        check_available_iff core.reservations req.account_id fund_id (cost_of req)
          (avail_value core.balances req.account_id fund_id) c in
      (λ h. covers.0 (result.0 h), λ h. result.1 (covers.1 h))

  passes-hold_position :
      (position : Option ℕ)
      → (passes (hold_position core req position) ≡ true) ↔ PositionCovers core req position
  unfolding hold_position
  passes-hold_position none = (λ _. tt, λ _. refl)
  passes-hold_position (some pos_id) =
      let result = passes-position_held pos_id _ in
      let covers = (check_and_freeze_lem core.positions req.account_id pos_id req.qty false).0 in
      (λ h. covers.0 (result.0 h), λ h. result.1 (covers.1 h))

  passes-pre_trade :
      (meta : ResolvedOrderMeta)
      → IsConsistent core.reservations
      → (passes (pre_trade core req meta) ≡ true) ↔ IsCovered core req meta
  unfolding pre_trade
  passes-pre_trade meta c = elim (Bool-cases (meta.bookkeeping_balance && not meta.use_margin)) [
    | inr off ↦ rw off (λ _. tt, λ _. refl)
    | inl on ↦ elim (Bool-cases (is_buy req)) [
      | inl buy ↦ rw (on, buy) (passes-hold_cash meta.balance_check meta.fund_asset_id c)
      | inr sell ↦ rw (on, sell) (passes-hold_position meta.pos_instrument_id)
    ]
  ]

-- The limit on the size of an order lets it through.
abbrev pub IsWithinLimit : OmsCore → OrderRequest → ResolvedOrderMeta → Type 0
IsWithinLimit core req meta =
    (core.risk_check_enabled && is_oversized req.qty meta.max_order_size) ≡ false

-- The order resolves to a route and an instrument, within the limit, and it is covered.
abbrev pub IsResolvedAndCovered : OmsCore → OrderRequest → Resolved → Type 0
IsResolvedAndCovered core req o =
    (meta : ResolvedOrderMeta) × ((o ≡ resolved meta)
      × (IsWithinLimit core req meta × IsCovered core req meta))

-- An order that may go to a gateway: it is valid, its account is not in panic, it resolves to a
-- route and an instrument, it is within the largest size if the limit is on, and it is covered.
abbrev pub IsAcceptable : Env → OmsCore → OrderRequest → Type 0
IsAcceptable env core req =
    (validate_order_request env.is_blank req ≡ true)
    × (contains req.account_id core.panic_accounts ≡ false)
    × IsResolvedAndCovered core req (resolve_order_meta core.metadata req)

module _ (env : Env) (core : OmsCore) (req : OrderRequest) where
  sends-after_checks :
      (meta : ResolvedOrderMeta) (o : PreTrade)
      → sends_order (after_checks env core req meta o).1 ≡ passes o
  unfolding after_checks reject_order send_order
  sends-after_checks meta (passed r p) = refl
  sends-after_checks meta (refused message) = refl

  sends-check_and_send :
      (meta : ResolvedOrderMeta)
      → sends_order (check_and_send env core req meta).1
        ≡ not (core.risk_check_enabled && is_oversized req.qty meta.max_order_size)
          && passes (pre_trade core req meta)
  unfolding check_and_send reject_order
  sends-check_and_send meta =
      elim (Bool-cases (core.risk_check_enabled && is_oversized req.qty meta.max_order_size)) [
        | inl large ↦ rw large refl
        | inr small ↦ rw small (sends-after_checks meta (pre_trade core req meta))
      ]

module _ (env : Env) (core : OmsCore) (req : OrderRequest) where
  sends_interned :
      (meta : ResolvedOrderMeta)
      → let (interned, with_source) = intern_source core req meta in
        sends_order (check_and_send env interned req with_source).1
        ≡ not (core.risk_check_enabled && is_oversized req.qty meta.max_order_size)
          && passes (pre_trade core req meta)
  unfolding intern_source pre_trade hold_cash hold_position cash_held position_held
  sends_interned meta =
      let (interned, with_source) = intern_source core req meta in
      sends-check_and_send env interned req with_source

  sends-after_resolution :
      (o : Resolved)
      → IsConsistent core.reservations
      → (sends_order (after_resolution env core req o).1 ≡ true) ↔ IsResolvedAndCovered core req o
  unfolding after_resolution reject_order
  sends-after_resolution (unresolved message) c =
      (λ h. ground arith, λ (m, (e, rest)). ground arith)
  sends-after_resolution (resolved meta) c =
      let covers = passes-pre_trade core req meta c in
      let sends = sends_interned meta in
      (
        λ h. (meta, (refl, (ground (arith, sends, h), covers.0 (ground (arith, sends, h))))),
        λ (m, (e, (limit, cover))).
            let same : meta ≡ m = ground arith in
            let passing =
              covers.1 (subst (λ (x : ResolvedOrderMeta). IsCovered core req x) (sym same) cover) in
            let within =
              subst (λ (x : ResolvedOrderMeta). IsWithinLimit core req x) (sym same) limit in
            ground (arith, sends, passing, within),
      )

  -- An order goes to a gateway exactly if it is valid, its account is not in panic, it resolves
  -- to a route and an instrument, it is not larger than the limit where the limit is checked, and,
  -- where its instrument keeps books without margin, it is covered: for a checked buy its cost and
  -- all that is held on the fund are within the available balance, for a sell the quantity is
  -- available. The totals of the reservations are taken to be consistent.
  pub sends-process_order :
      IsConsistent core.reservations
      → (sends_order (process_order env core req).1 ≡ true) ↔ IsAcceptable env core req
  unfolding process_order
  sends-process_order c = elim (Bool-cases (validate_order_request env.is_blank req)) [
    | inr bad ↦ rw bad (λ h. ground arith, λ x. ground arith)
    | inl good ↦ elim (Bool-cases (contains req.account_id core.panic_accounts)) [
      | inl panicked ↦ rw (good, panicked) (λ h. ground arith, λ x. ground arith)
      | inr calm ↦
          let after = sends-after_resolution (resolve_order_meta core.metadata req) c in
          rw (good, calm) (λ h. (refl, refl, after.0 h), λ x. after.1 x.2)
    ]
  ]
