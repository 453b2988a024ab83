-- ===== src/Metadata/Instruments.antt =====
-- The instruments and the trading configurations of `from_confdata` and `rebuild_from_config` of
-- metadata_v2.rs, and the two functions.
use zkbot.Prelude.{
  ℕ, ℤ, int_eq, nat_eq, pair_eq, string_eq, ◌==◌, Option, none, some, String, HashMap, lookup,
  insert, List, [], ◌∷◌, ◌++◌, unwrap_or, if◌then◌else◌,
}
use zkbot.Intern
use zkbot.Intern.{InternTable, intern}
use zkbot.Metadata.{InstrumentMeta, RouteMeta, TradingMeta, MetadataTables}
use zkbot.Metadata.Build.{
  RefData, TradingConfig, Confdata, set_at, next_id, Gws, build_gws, rebuild_gws, build_routes,
  Assets, build_assets, rebuild_assets,
}

pub record Instruments : Type 0 where
  pub strings : InternTable
  pub instruments : List InstrumentMeta
  pub instrument_by_code : HashMap ℕ ℕ
  pub instrument_by_gw_symbol : HashMap (ℕ × ℕ) ℕ

-- The symbol and the id of an asset, none for the empty name.
unfoldable pub asset_ref : InternTable → HashMap ℕ ℕ → String → InternTable × (Option ℕ × Option ℕ)
asset_ref strings asset_by_symbol name =
    if name == ""
    then (strings, (none, none))
    else (let (strings1, sym) = intern strings name in
        (strings1, (some sym, lookup sym asset_by_symbol)))

-- An instrument before it has an id, with the strings that it interned.
pub record Draft : Type 0 where
  pub strings : InternTable
  pub code_sym : ℕ
  pub exch_sym : ℕ
  pub base : Option ℕ × Option ℕ
  pub quote : Option ℕ × Option ℕ
  pub settlement : Option ℕ × Option ℕ

unfoldable pub draft_of : InternTable → HashMap ℕ ℕ → RefData → Draft
unfolding asset_ref
draft_of strings asset_by_symbol r =
    let (s1, code_sym) = intern strings r.instrument_id in
    let (s2, exch_sym) = intern s1 r.instrument_id_exchange in
    let (s3, base) = asset_ref s2 asset_by_symbol r.base_asset in
    let (s4, quote) = asset_ref s3 asset_by_symbol r.quote_asset in
    let (s5, settlement) = asset_ref s4 asset_by_symbol r.settlement_asset in
    record {
      strings = s5;
      code_sym = code_sym;
      exch_sym = exch_sym;
      base = base;
      quote = quote;
      settlement = settlement;
    }

abbrev pub instrument_meta : ℕ → Draft → RefData → InstrumentMeta
instrument_meta id d r = record {
  instrument_id = id;
  instrument_code_sym = d.code_sym;
  instrument_exch_sym = d.exch_sym;
  instrument_type = r.instrument_type;
  base_asset_id = d.base.1;
  base_asset_sym = d.base.0;
  quote_asset_id = d.quote.1;
  settlement_asset_id = d.settlement.1;
  qty_precision = r.qty_precision;
  price_precision = r.price_precision;
}

-- The instrument under every configured gateway of its exchange.
unfoldable pub index_gws :
    HashMap ℕ ℕ
    → ℕ
    → ℕ
    → InternTable
    → HashMap (ℕ × ℕ) ℕ
    → List String
    → InternTable × HashMap (ℕ × ℕ) ℕ
index_gws gw_by_key exch_sym inst_id strings m [] = (strings, m)
index_gws gw_by_key exch_sym inst_id strings m (gw_key ∷ gw_keys) =
    let (strings1, key_sym) = intern strings gw_key in
    let m1 : HashMap (ℕ × ℕ) ℕ = elim (lookup key_sym gw_by_key) [
      | none ↦ m
      | some gw_id ↦ insert (gw_id, exch_sym) inst_id m
    ] in
    index_gws gw_by_key exch_sym inst_id strings1 m1 gw_keys

-- What an instrument and its id leave in the two indexes.
unfoldable pub index_instrument :
    HashMap ℕ ℕ → List String → Draft → ℕ → List InstrumentMeta → Instruments → Instruments
unfolding index_gws
index_instrument gw_by_key gw_keys d inst_id instruments s =
    let (strings, by_gw) =
      index_gws gw_by_key d.exch_sym inst_id d.strings s.instrument_by_gw_symbol gw_keys in
    record {
      strings = strings;
      instruments = instruments;
      instrument_by_code = insert d.code_sym inst_id s.instrument_by_code;
      instrument_by_gw_symbol = by_gw;
    }

module _ (upper : String → String) (config : Confdata)
    (gw_by_key asset_by_symbol : HashMap ℕ ℕ) where
  abbrev pub gw_keys_of : RefData → List String
  gw_keys_of r = unwrap_or (lookup (upper r.exchange_name) config.exch_name_to_gw_keys) []

  unfoldable pub append_instrument : Instruments → Draft → RefData → Instruments
  unfolding index_instrument
  append_instrument s d r =
      let inst_id = next_id s.instruments in
      index_instrument gw_by_key (gw_keys_of r) d inst_id
        (s.instruments ++ (instrument_meta inst_id d r ∷ [])) s

  unfoldable pub build_instruments : Instruments → List RefData → Instruments
  unfolding append_instrument draft_of
  build_instruments s [] = s
  build_instruments s (r ∷ rs) =
      build_instruments (append_instrument s (draft_of s.strings asset_by_symbol r) r) rs

  -- A code of the old tables keeps its id.
  unfoldable pub rebuild_instrument : HashMap ℕ ℕ → Instruments → Draft → RefData → Instruments
  unfolding append_instrument index_instrument
  rebuild_instrument old s d r = elim (lookup d.code_sym old) [
    | some existing_id ↦
        index_instrument gw_by_key (gw_keys_of r) d existing_id
          (set_at s.instruments existing_id (instrument_meta existing_id d r)) s
    | none ↦ append_instrument s d r
  ]

  unfoldable pub rebuild_instruments : HashMap ℕ ℕ → Instruments → List RefData → Instruments
  unfolding rebuild_instrument draft_of
  rebuild_instruments old s [] = s
  rebuild_instruments old s (r ∷ rs) =
      rebuild_instruments old (rebuild_instrument old s (draft_of s.strings asset_by_symbol r) r) rs

abbrev pub trading_meta : ℕ → TradingConfig → TradingMeta
trading_meta inst_id tc = record {
  instrument_id = inst_id;
  bookkeeping_balance = tc.bookkeeping_balance;
  balance_check = tc.balance_check;
  use_margin = tc.use_margin;
  margin_ratio = tc.margin_ratio;
  max_order_size = tc.max_order_size;
  publish_balance_on_trade = tc.publish_balance_on_trade;
  publish_balance_on_book = tc.publish_balance_on_book;
  publish_balance_on_cancel = tc.publish_balance_on_cancel;
}

-- Trading configurations, in both functions; one without its instrument is skipped.
unfoldable pub build_trading :
    HashMap ℕ ℕ
    → InternTable
    → HashMap ℕ TradingMeta
    → HashMap String TradingConfig
    → InternTable × HashMap ℕ TradingMeta
build_trading by_code strings m [] = (strings, m)
build_trading by_code strings m ((code, tc) ∷ tcs) =
    let (strings1, code_sym) = intern strings code in
    let m1 : HashMap ℕ TradingMeta = elim (lookup code_sym by_code) [
      | none ↦ m
      | some inst_id ↦ insert inst_id (trading_meta inst_id tc) m
    ] in
    build_trading by_code strings1 m1 tcs

-- The tables from their parts.
abbrev pub assemble :
    Gws
    → HashMap ℤ RouteMeta
    → Assets
    → Instruments
    → InternTable × HashMap ℕ TradingMeta
    → MetadataTables
assemble g routes a i (strings, trading) = record {
  strings = strings;
  instruments = i.instruments;
  instrument_by_code = i.instrument_by_code;
  instrument_by_gw_symbol = i.instrument_by_gw_symbol;
  gws = g.gws;
  gw_by_key = g.gw_by_key;
  route_by_account = routes;
  assets = a.assets;
  asset_by_symbol = a.asset_by_symbol;
  trading_by_instrument = trading;
}

unfoldable pub from_confdata : (String → String) → Confdata → MetadataTables
unfolding build_gws build_routes build_assets build_instruments build_trading
from_confdata upper config =
    let g =
      build_gws (record { strings = Intern.new; gws = []; gw_by_key = [] }) config.gw_configs in
    let (strings, routes) = build_routes g.gw_by_key g.strings [] config.account_routes in
    let a =
      build_assets (record { strings = strings; assets = []; asset_by_symbol = [] })
        config.refdata in
    let i =
      build_instruments upper config g.gw_by_key a.asset_by_symbol
        (record {
          strings = a.strings;
          instruments = [];
          instrument_by_code = [];
          instrument_by_gw_symbol = [];
        })
        config.refdata in
    assemble g routes a i (build_trading i.instrument_by_code i.strings [] config.trading_configs)

unfoldable pub rebuild_from_config : (String → String) → MetadataTables → Confdata → MetadataTables
unfolding rebuild_gws build_routes rebuild_assets rebuild_instruments build_trading
rebuild_from_config upper m config =
    let g =
      rebuild_gws m.gw_by_key (record { strings = m.strings; gws = m.gws; gw_by_key = [] })
        config.gw_configs in
    let (strings, routes) = build_routes g.gw_by_key g.strings [] config.account_routes in
    let a =
      rebuild_assets m.asset_by_symbol
        (record { strings = strings; assets = m.assets; asset_by_symbol = [] }) config.refdata in
    let i =
      rebuild_instruments upper config g.gw_by_key a.asset_by_symbol m.instrument_by_code
        (record {
          strings = a.strings;
          instruments = m.instruments;
          instrument_by_code = [];
          instrument_by_gw_symbol = [];
        })
        config.refdata in
    assemble g routes a i (build_trading i.instrument_by_code i.strings [] config.trading_configs)
