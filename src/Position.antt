-- ===== src/Position.antt =====
-- rust/crates/zk-oms-rs/src/position_v2.rs, with `ManagedPositionV2` and `PositionDeltaV2` of
-- models_v2.rs and `ReconcileStatus` of models.rs: the positions that the order manager keeps, and
-- their reconciliation with what the exchange reports.
-- A quantity is an integer number of 10^-9 units, so that `diff < 1e-9` is a difference of zero.
-- Of an exchange snapshot only `position_state.total_qty` is read here, and only it is kept.
-- `divergence_count` is a u32 and wraps, as in a release build.
pub mod Freeze
pub mod Delta
pub mod Reconcile
mod Examples
use zkbot.Prelude.{
  ℕ, ◌+◌, ◌%◌, u32_mod, ℤ, pos, ◌+ℤ◌, ◌-ℤ◌, leb_ℤ, ltb_ℤ, min_ℤ, max_ℤ, abs_ℤ, leb, ◌==◌, int_eq,
  nat_eq, pair_eq, Bool, true, false, not, ◌||◌, Option, none, some, HashMap, lookup, insert,
  unwrap_or, if◌then◌else◌, List, [], ◌∷◌,
}

pub data ReconcileStatus : Type 0 where
  unknown in_sync diverged_transient diverged_persistent exchange_only oms_only : ReconcileStatus

pub record ManagedPosition : Type 0 where
  pub account_id : ℤ
  pub instrument_id : ℕ
  pub instrument_type : ℤ
  pub is_short : Bool
  pub qty_total : ℤ
  pub qty_frozen : ℤ
  pub qty_available : ℤ
  pub last_local_update_ts : ℤ
  pub last_exch_sync_ts : ℤ
  pub reconcile_status : ReconcileStatus
  pub last_exch_qty : ℤ
  pub first_diverged_ts : ℤ
  pub divergence_count : ℕ

pub record PositionDelta : Type 0 where
  pub account_id : ℤ
  pub instrument_id : ℕ
  pub is_short : Bool
  pub avail_change : ℤ
  pub frozen_change : ℤ
  pub total_change : ℤ

pub record PositionStore : Type 0 where
  pub managed : HashMap (ℤ × ℕ) ManagedPosition
  pub exch : HashMap (ℤ × ℕ) ℤ

abbrev pub new : PositionStore
new = record { managed = []; exch = [] }

-- RECONCILE_PERSISTENT_THRESHOLD
abbrev pub reconcile_persistent_threshold : ℕ
reconcile_persistent_threshold = 3

-- ManagedPositionV2::new
abbrev pub new_position : ℤ → ℕ → ℤ → Bool → ManagedPosition
new_position account_id instrument_id instrument_type is_short = record {
  account_id = account_id;
  instrument_id = instrument_id;
  instrument_type = instrument_type;
  is_short = is_short;
  qty_total = pos 0;
  qty_frozen = pos 0;
  qty_available = pos 0;
  last_local_update_ts = pos 0;
  last_exch_sync_ts = pos 0;
  reconcile_status = unknown;
  last_exch_qty = pos 0;
  first_diverged_ts = pos 0;
  divergence_count = 0;
}

abbrev pub position_key : ℤ → ℕ → ℤ × ℕ
position_key account_id instrument_id = (account_id, instrument_id)

unfoldable pub init_positions : PositionStore → List ManagedPosition → PositionStore
init_positions s [] = s
init_positions s (p ∷ ps) =
    init_positions
      (record s { managed = insert (position_key p.account_id p.instrument_id) p s.managed }) ps

unfoldable pub get_position : PositionStore → ℤ → ℕ → Option ManagedPosition
get_position s account_id instrument_id = lookup (position_key account_id instrument_id) s.managed

-- The position that `entry(key).or_insert_with(..)` gives; the caller writes the new value back.
unfoldable pub get_or_create_position : PositionStore → ℤ → ℕ → ℤ → Bool → ManagedPosition
unfolding get_position
get_or_create_position s account_id instrument_id instrument_type is_short =
    unwrap_or (get_position s account_id instrument_id)
      (new_position account_id instrument_id instrument_type is_short)

abbrev pub set_position : PositionStore → ℤ → ℕ → ManagedPosition → PositionStore
set_position s account_id instrument_id p = record s {
  managed = insert (position_key account_id instrument_id) p s.managed;
}

pub data FreezeResult : Type 0 where
  ok : FreezeResult
  not_enough_available : FreezeResult

-- The available quantity, 0 where there is no position.
abbrev pub available : PositionStore → ℤ → ℕ → ℤ
available s account_id instrument_id =
    elim (lookup (position_key account_id instrument_id) s.managed) [
      | none ↦ pos 0
      | some p ↦ p.qty_available
    ]

unfoldable pub check_and_freeze : PositionStore → ℤ → ℕ → ℤ → Bool → PositionStore × FreezeResult
unfolding get_or_create_position
check_and_freeze s account_id instrument_id qty is_short =
    let p = get_or_create_position s account_id instrument_id (pos 0) is_short in
    if ltb_ℤ (available s account_id instrument_id) qty then (s, not_enough_available) else (
      set_position s account_id instrument_id
          (record p { qty_available = p.qty_available -ℤ qty; qty_frozen = p.qty_frozen +ℤ qty }),
      ok,
    )

-- The quantity moves from frozen to available.
abbrev pub unfreeze_position : ManagedPosition → ℤ → ManagedPosition
unfreeze_position p qty =
    let released = min_ℤ qty p.qty_frozen in
    record p { qty_frozen = p.qty_frozen -ℤ released; qty_available = p.qty_available +ℤ released }

unfoldable pub unfreeze : PositionStore → ℤ → ℕ → ℤ → PositionStore
unfreeze s account_id instrument_id qty =
    elim (lookup (position_key account_id instrument_id) s.managed) [
      | none ↦ s
      | some p ↦ set_position s account_id instrument_id (unfreeze_position p qty)
    ]

-- `if pos.qty_total < 0.0 { flip is_short; take absolute values }`
unfoldable pub flip_if_negative : ManagedPosition → ManagedPosition
flip_if_negative p =
    if ltb_ℤ p.qty_total (pos 0)
    then record p {
      is_short = not p.is_short;
      qty_total = abs_ℤ p.qty_total;
      qty_available = abs_ℤ p.qty_available;
    }
    else p

-- What `apply_delta` writes before it looks at the sign of the total.
unfoldable pub moved : PositionDelta → ℤ → ManagedPosition → ManagedPosition
moved d ts p =
    let total = p.qty_total +ℤ d.total_change in
    let new_avail = p.qty_available +ℤ d.avail_change in
    record p {
      qty_total = total;
      qty_frozen = max_ℤ (p.qty_frozen +ℤ d.frozen_change) (pos 0);
      qty_available = if ltb_ℤ total new_avail then total else new_avail;
      last_local_update_ts = ts;
    }

-- The body of `apply_delta` on the position that it works on.
unfoldable pub apply_delta_position : PositionDelta → ℤ → ManagedPosition → ManagedPosition
apply_delta_position d ts p = flip_if_negative (moved d ts p)

unfoldable pub apply_delta : PositionStore → PositionDelta → ℤ → PositionStore
unfolding get_or_create_position
apply_delta s d ts = set_position s d.account_id d.instrument_id (
    apply_delta_position d ts
      (get_or_create_position s d.account_id d.instrument_id (pos 0) d.is_short))

abbrev pub is_settled : ReconcileStatus → Bool
is_settled in_sync = true
is_settled unknown = true
is_settled _ = false

-- The body of `update_reconcile_status`, given what the exchange last reported.
unfoldable pub reconcile_position : Option ℤ → ℤ → ManagedPosition → ManagedPosition
reconcile_position exch_qty ts p =
    let last_exch_qty = unwrap_or exch_qty (pos 0) in
    let q = record p { last_exch_qty = last_exch_qty } in
    let count = (p.divergence_count + 1) % u32_mod in
    if ltb_ℤ (abs_ℤ (p.qty_total -ℤ last_exch_qty)) (pos 1)
    then record q { reconcile_status = in_sync; first_diverged_ts = pos 0; divergence_count = 0 }
    else if is_settled p.reconcile_status
    then record q {
      reconcile_status = diverged_transient;
      first_diverged_ts = ts;
      divergence_count = 1;
    }
    else record q {
      divergence_count = count;
      reconcile_status =
          if leb reconcile_persistent_threshold count
          then diverged_persistent
          else p.reconcile_status;
    }

unfoldable pub update_reconcile_status : PositionStore → ℤ → ℕ → ℤ → PositionStore
update_reconcile_status s account_id instrument_id ts =
    let key = position_key account_id instrument_id in
    elim (lookup key s.managed) [
      | none ↦ s
      | some p ↦
          set_position s account_id instrument_id (reconcile_position (lookup key s.exch) ts p)
    ]

unfoldable pub check_reconcile : PositionStore → ℤ → ℕ → ReconcileStatus
check_reconcile s account_id instrument_id =
    elim (lookup (position_key account_id instrument_id) s.managed) [
      | none ↦ unknown
      | some p ↦ p.reconcile_status
    ]
