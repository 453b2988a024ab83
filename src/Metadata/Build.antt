-- ===== src/Metadata/Build.antt =====
-- `from_confdata` and `rebuild_from_config` of metadata_v2.rs, over what they read of
-- `ConfdataManager` (config.rs). The maps of a configuration are visited in the order of their
-- lists. A length becomes an id `as u32`, and wraps. `str::to_uppercase` is the parameter `upper`.
use zkbot.Prelude.{
  ℕ, zero, suc, ◌%◌, u32_mod, ℤ, int_eq, nat_eq, pair_eq, string_eq, ◌==◌, Bool, Option, none, some,
  String, HashMap, lookup, insert, List, [], ◌∷◌, ◌++◌, length, if◌then◌else◌,
}
use zkbot.Intern
use zkbot.Intern.{InternTable, intern}
use zkbot.Metadata.{RouteMeta, GwMeta, AssetMeta, MetadataTables}

pub record GwConfig : Type 0 where
  pub gw_key : String
  pub exch_name : String
  pub cancel_required_fields : List String

pub record RouteConfig : Type 0 where
  pub gw_key : String
  pub exch_account_id : String

pub record RefData : Type 0 where
  pub instrument_id : String
  pub instrument_id_exchange : String
  pub exchange_name : String
  pub instrument_type : ℤ
  pub base_asset : String
  pub quote_asset : String
  pub settlement_asset : String
  pub qty_precision : ℤ
  pub price_precision : ℤ

pub record TradingConfig : Type 0 where
  pub bookkeeping_balance : Bool
  pub balance_check : Bool
  pub use_margin : Bool
  pub margin_ratio : ℤ
  pub max_order_size : Option ℤ
  pub publish_balance_on_trade : Bool
  pub publish_balance_on_book : Bool
  pub publish_balance_on_cancel : Bool

pub record Confdata : Type 0 where
  pub gw_configs : List GwConfig
  pub account_routes : HashMap ℤ RouteConfig
  pub exch_name_to_gw_keys : HashMap String (List String)
  pub refdata : List RefData
  pub trading_configs : HashMap String TradingConfig

abbrev pub empty_tables : MetadataTables
empty_tables = record {
  strings = Intern.new;
  instruments = [];
  instrument_by_code = [];
  instrument_by_gw_symbol = [];
  gws = [];
  gw_by_key = [];
  route_by_account = [];
  assets = [];
  asset_by_symbol = [];
  trading_by_instrument = [];
}

-- `v[i] = x`; out of range, where the source panics, nothing changes.
unfoldable pub set_at {ℓ} : {A : Type ℓ} → List A → ℕ → A → List A
set_at [] i x = []
set_at (y ∷ ys) zero x = x ∷ ys
set_at (y ∷ ys) (suc i) x = y ∷ set_at ys i x

-- `v.len() as u32`
abbrev pub next_id {ℓ} : {A : Type ℓ} → List A → ℕ
next_id xs = length xs % u32_mod

-- Gateways.
pub record Gws : Type 0 where
  pub strings : InternTable
  pub gws : List GwMeta
  pub gw_by_key : HashMap ℕ ℕ

abbrev pub gw_meta : ℕ → ℕ → ℕ → GwConfig → GwMeta
gw_meta gw_id key_sym exch_sym cfg = record {
  gw_id = gw_id;
  gw_key_sym = key_sym;
  exch_name_sym = exch_sym;
  cancel_required_fields = cfg.cancel_required_fields;
}

unfoldable pub append_gw : Gws → InternTable → ℕ → ℕ → GwConfig → Gws
append_gw s strings key_sym exch_sym cfg =
    let gw_id = next_id s.gws in
    record {
      strings = strings;
      gws = s.gws ++ (gw_meta gw_id key_sym exch_sym cfg ∷ []);
      gw_by_key = insert key_sym gw_id s.gw_by_key;
    }

unfoldable pub build_gw : Gws → GwConfig → Gws
unfolding append_gw
build_gw s cfg =
    let (strings1, key_sym) = intern s.strings cfg.gw_key in
    let (strings2, exch_sym) = intern strings1 cfg.exch_name in
    append_gw s strings2 key_sym exch_sym cfg

unfoldable pub build_gws : Gws → List GwConfig → Gws
unfolding build_gw
build_gws s [] = s
build_gws s (cfg ∷ cfgs) = build_gws (build_gw s cfg) cfgs

-- A key of the old tables keeps its id.
unfoldable pub rebuild_gw : HashMap ℕ ℕ → Gws → GwConfig → Gws
unfolding append_gw
rebuild_gw old s cfg =
    let (strings1, key_sym) = intern s.strings cfg.gw_key in
    let (strings2, exch_sym) = intern strings1 cfg.exch_name in
    elim (lookup key_sym old) [
      | some existing_id ↦ record {
        strings = strings2;
        gws = set_at s.gws existing_id (gw_meta existing_id key_sym exch_sym cfg);
        gw_by_key = insert key_sym existing_id s.gw_by_key;
      }
      | none ↦ append_gw s strings2 key_sym exch_sym cfg
    ]

unfoldable pub rebuild_gws : HashMap ℕ ℕ → Gws → List GwConfig → Gws
unfolding rebuild_gw
rebuild_gws old s [] = s
rebuild_gws old s (cfg ∷ cfgs) = rebuild_gws old (rebuild_gw old s cfg) cfgs

-- Routes, in both functions; a route whose gateway is not configured is skipped.
unfoldable pub route_step :
    HashMap ℕ ℕ
    → InternTable
    → HashMap ℤ RouteMeta
    → ℤ
    → RouteConfig
    → InternTable × HashMap ℤ RouteMeta
route_step gw_by_key strings routes account_id cfg =
    let (strings1, key_sym) = intern strings cfg.gw_key in
    elim (lookup key_sym gw_by_key) [
      | none ↦ (strings1, routes)
      | some gw_id ↦
          let (strings2, account_sym) = intern strings1 cfg.exch_account_id in
          (
            strings2,
            insert account_id
                (record {
                  account_id = account_id;
                  gw_id = gw_id;
                  gw_key_sym = key_sym;
                  exch_account_sym = account_sym;
                })
                routes,
          )
    ]

unfoldable pub build_routes :
    HashMap ℕ ℕ
    → InternTable
    → HashMap ℤ RouteMeta
    → HashMap ℤ RouteConfig
    → InternTable × HashMap ℤ RouteMeta
unfolding route_step
build_routes gw_by_key strings routes [] = (strings, routes)
build_routes gw_by_key strings routes ((account_id, cfg) ∷ cfgs) =
    let (strings1, routes1) = route_step gw_by_key strings routes account_id cfg in
    build_routes gw_by_key strings1 routes1 cfgs

-- Assets.
pub record Assets : Type 0 where
  pub strings : InternTable
  pub assets : List AssetMeta
  pub asset_by_symbol : HashMap ℕ ℕ

unfoldable pub append_asset : Assets → InternTable → ℕ → Assets
append_asset s strings sym =
    let id = next_id s.assets in
    record {
      strings = strings;
      assets = s.assets ++ (record { asset_id = id; asset_sym = sym } ∷ []);
      asset_by_symbol = insert sym id s.asset_by_symbol;
    }

-- The ids that the two functions return are dropped by their callers.
unfoldable pub ensure_asset : Assets → String → Assets
unfolding append_asset
ensure_asset s name =
    if name == ""
    then s
    else (let (strings, sym) = intern s.strings name in
        elim (lookup sym s.asset_by_symbol) [
          | some id ↦ record s { strings = strings }
          | none ↦ append_asset s strings sym
        ])

-- An asset that this pass has met stays; one of the old tables keeps its id.
unfoldable pub ensure_asset_stable : HashMap ℕ ℕ → Assets → String → Assets
unfolding append_asset
ensure_asset_stable old s name =
    if name == ""
    then s
    else (let (strings, sym) = intern s.strings name in
        elim (lookup sym s.asset_by_symbol) [
          | some id ↦ record s { strings = strings }
          | none ↦ elim (lookup sym old) [
            | some existing_id ↦ record {
              strings = strings;
              assets =
                  set_at s.assets existing_id (record { asset_id = existing_id; asset_sym = sym });
              asset_by_symbol = insert sym existing_id s.asset_by_symbol;
            }
            | none ↦ append_asset s strings sym
          ]
        ])

unfoldable pub build_assets : Assets → List RefData → Assets
unfolding ensure_asset
build_assets s [] = s
build_assets s (r ∷ rs) =
    build_assets
      (ensure_asset (ensure_asset (ensure_asset s r.base_asset) r.quote_asset) r.settlement_asset)
      rs

unfoldable pub rebuild_assets : HashMap ℕ ℕ → Assets → List RefData → Assets
unfolding ensure_asset_stable
rebuild_assets old s [] = s
rebuild_assets old s (r ∷ rs) =
    rebuild_assets old
      (ensure_asset_stable old
        (ensure_asset_stable old (ensure_asset_stable old s r.base_asset) r.quote_asset)
        r.settlement_asset)
      rs
