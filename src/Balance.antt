-- ===== src/Balance.antt =====
-- rust/crates/zk-oms-rs/src/balance_v2.rs, with `ExchBalanceSnapshot` of models.rs: the balances
-- that the exchange reports, by account and asset, those of unknown assets by name.
use zkbot.Prelude.{
  ℕ, ℤ, pos, ◌==◌, int_eq, nat_eq, string_eq, pair_eq, Bool, false, Option, none, String, HashMap,
  lookup, insert, remove, unwrap_or, List, [], ◌∷◌, if◌then◌else◌,
}

pub record BalanceState : Type 0 where
  pub account_id : ℤ
  pub asset : String
  pub total_qty : ℤ
  pub frozen_qty : ℤ
  pub avail_qty : ℤ
  pub sync_timestamp : ℤ
  pub update_timestamp : ℤ
  pub is_from_exch : Bool
  pub exch_data_raw : String

pub record ExchBalanceSnapshot : Type 0 where
  pub account_id : ℤ
  pub asset : String
  pub symbol_exch : Option String
  pub balance_state : BalanceState
  pub exch_data_raw : String
  pub sync_ts : ℤ

pub record BalanceStore : Type 0 where
  pub exch_balances : HashMap (ℤ × ℕ) ExchBalanceSnapshot
  pub unknown_exch_balances : HashMap (ℤ × String) ExchBalanceSnapshot
  pub account_id_by_exch_account_sym : HashMap ℕ ℤ

abbrev pub new : BalanceStore
new = record { exch_balances = []; unknown_exch_balances = []; account_id_by_exch_account_sym = [] }

-- `Balance::default()`
abbrev pub default_balance : BalanceState
default_balance = record {
  account_id = pos 0;
  asset = "";
  total_qty = pos 0;
  frozen_qty = pos 0;
  avail_qty = pos 0;
  sync_timestamp = pos 0;
  update_timestamp = pos 0;
  is_from_exch = false;
  exch_data_raw = "";
}

abbrev pub balance_key : ℤ → ℕ → ℤ × ℕ
balance_key account_id asset_id = (account_id, asset_id)

abbrev pub unknown_key : ℤ → String → ℤ × String
unknown_key account_id asset = (account_id, asset)

unfoldable pub init_balances : BalanceStore → List (ℕ × ExchBalanceSnapshot) → BalanceStore
init_balances s [] = s
init_balances s ((asset_id, snap) ∷ balances) =
    init_balances
      (record s {
        exch_balances = insert (balance_key snap.account_id asset_id) snap s.exch_balances;
      })
      balances

unfoldable pub init_account_reverse_map : BalanceStore → HashMap ℕ ℤ → BalanceStore
init_account_reverse_map s m = record s { account_id_by_exch_account_sym = m }

unfoldable pub get_balance : BalanceStore → ℤ → ℕ → Option ExchBalanceSnapshot
get_balance s account_id asset_id = lookup (balance_key account_id asset_id) s.exch_balances

-- The snapshot that `entry(..).or_insert_with(..)` gives; the caller writes the new value back.
unfoldable pub get_or_create_balance : BalanceStore → ℤ → ℕ → ExchBalanceSnapshot
unfolding get_balance
get_or_create_balance s account_id asset_id =
    unwrap_or (get_balance s account_id asset_id) (record {
      account_id = account_id;
      asset = "";
      symbol_exch = none;
      balance_state = default_balance;
      exch_data_raw = "";
      sync_ts = pos 0;
    })

unfoldable pub resolve_account_id : BalanceStore → ℕ → Option ℤ
resolve_account_id s exch_account_sym = lookup exch_account_sym s.account_id_by_exch_account_sym

-- The values whose key belongs to the account.
unfoldable pub of_account {ℓ κ} : {A : Type ℓ} {B : Type κ} → ℤ → HashMap (ℤ × A) B → List B
of_account account_id [] = []
of_account account_id (((other, a), snap) ∷ m) =
    let rest = of_account account_id m in if other == account_id then snap ∷ rest else rest

abbrev pub get_balances_for_account : BalanceStore → ℤ → List ExchBalanceSnapshot
get_balances_for_account s account_id = of_account account_id s.exch_balances

abbrev pub get_unknown_balances_for_account : BalanceStore → ℤ → List ExchBalanceSnapshot
get_unknown_balances_for_account s account_id = of_account account_id s.unknown_exch_balances

unfoldable pub set_balance : BalanceStore → ℤ → ℕ → ExchBalanceSnapshot → BalanceStore
set_balance s account_id asset_id snap = record s {
  exch_balances = insert (balance_key account_id asset_id) snap s.exch_balances;
}

unfoldable pub set_unknown_balance : BalanceStore → ℤ → String → ExchBalanceSnapshot → BalanceStore
set_unknown_balance s account_id asset snap = record s {
  unknown_exch_balances = insert (unknown_key account_id asset) snap s.unknown_exch_balances;
}

unfoldable pub remove_unknown_balance : BalanceStore → ℤ → String → BalanceStore
remove_unknown_balance s account_id asset = record s {
  unknown_exch_balances = remove (unknown_key account_id asset) s.unknown_exch_balances;
}
