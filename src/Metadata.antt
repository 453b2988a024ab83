-- ===== src/Metadata.antt =====
-- rust/crates/zk-oms-rs/src/metadata_v2.rs: the tables that turn accounts, instruments, gateways
-- and assets into integer ids. A `Vec` is a list and its index the id, `as usize` changes nothing.
pub mod Build
pub mod Instruments
pub mod Strings
pub mod Reload
mod Examples
use zkbot.Prelude.{
  ℕ, ℤ, int_eq, nat_eq, pair_eq, Bool, Option, none, some, String, HashMap, lookup, List, get_elem?,
}
use zkbot.Intern.{InternTable, lookup_id, try_resolve}

pub record InstrumentMeta : Type 0 where
  pub instrument_id : ℕ
  pub instrument_code_sym : ℕ
  pub instrument_exch_sym : ℕ
  pub instrument_type : ℤ
  pub base_asset_id : Option ℕ
  pub base_asset_sym : Option ℕ
  pub quote_asset_id : Option ℕ
  pub settlement_asset_id : Option ℕ
  pub qty_precision : ℤ
  pub price_precision : ℤ

pub record RouteMeta : Type 0 where
  pub account_id : ℤ
  pub gw_id : ℕ
  pub gw_key_sym : ℕ
  pub exch_account_sym : ℕ

pub record GwMeta : Type 0 where
  pub gw_id : ℕ
  pub gw_key_sym : ℕ
  pub exch_name_sym : ℕ
  pub cancel_required_fields : List String

pub record AssetMeta : Type 0 where
  pub asset_id : ℕ
  pub asset_sym : ℕ

pub record TradingMeta : Type 0 where
  pub instrument_id : ℕ
  pub bookkeeping_balance : Bool
  pub balance_check : Bool
  pub use_margin : Bool
  pub margin_ratio : ℤ
  pub max_order_size : Option ℤ
  pub publish_balance_on_trade : Bool
  pub publish_balance_on_book : Bool
  pub publish_balance_on_cancel : Bool

pub record MetadataTables : Type 0 where
  pub strings : InternTable
  pub instruments : List InstrumentMeta
  pub instrument_by_code : HashMap ℕ ℕ
  pub instrument_by_gw_symbol : HashMap (ℕ × ℕ) ℕ
  pub gws : List GwMeta
  pub gw_by_key : HashMap ℕ ℕ
  pub route_by_account : HashMap ℤ RouteMeta
  pub assets : List AssetMeta
  pub asset_by_symbol : HashMap ℕ ℕ
  pub trading_by_instrument : HashMap ℕ TradingMeta

-- The `?` of the source.
abbrev pub and_then {ℓ κ} : {A : Type ℓ} {B : Type κ} → Option A → (A → Option B) → Option B
and_then none f = none
and_then (some x) f = f x

unfoldable pub resolve_instrument : MetadataTables → String → Option InstrumentMeta
resolve_instrument m instrument_code = and_then (lookup_id m.strings instrument_code) (λ code_sym.
    and_then (lookup code_sym m.instrument_by_code) (λ inst_id. get_elem? m.instruments inst_id))

unfoldable pub resolve_instrument_by_gw : MetadataTables → ℕ → String → Option InstrumentMeta
resolve_instrument_by_gw m gw_id exch_symbol = and_then (lookup_id m.strings exch_symbol) (λ sym.
    and_then (lookup (gw_id, sym) m.instrument_by_gw_symbol)
      (λ inst_id. get_elem? m.instruments inst_id))

unfoldable pub route : MetadataTables → ℤ → Option RouteMeta
route m account_id = lookup account_id m.route_by_account

unfoldable pub trading : MetadataTables → ℕ → Option TradingMeta
trading m instrument_id = lookup instrument_id m.trading_by_instrument

unfoldable pub gw : MetadataTables → ℕ → Option GwMeta
gw m gw_id = get_elem? m.gws gw_id

unfoldable pub instrument : MetadataTables → ℕ → Option InstrumentMeta
instrument m instrument_id = get_elem? m.instruments instrument_id

unfoldable pub asset : MetadataTables → ℕ → Option AssetMeta
asset m asset_id = get_elem? m.assets asset_id

-- An id that is not in the table panics in the source, and is the empty string here.
unfoldable pub str_resolve : MetadataTables → ℕ → String
str_resolve m id = elim (try_resolve m.strings id) [ none ↦ "" | some s ↦ s ]

-- The id of an asset by its name, as the order manager looks it up.
unfoldable pub asset_id_of : MetadataTables → String → Option ℕ
asset_id_of m name = and_then (lookup_id m.strings name) (λ sym. lookup sym m.asset_by_symbol)
