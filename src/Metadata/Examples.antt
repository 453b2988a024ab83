-- ===== src/Metadata/Examples.antt =====
-- A small configuration, loaded and reloaded.
use zkbot.Prelude.{pos, false, true, none, String, ◌≡◌, [], ◌∷◌}
use zkbot.Metadata.Build.{Confdata, empty_tables}
use zkbot.Metadata.Instruments.{from_confdata, rebuild_from_config}
use zkbot.Metadata.Reload.{rebuild_from_config-empty_tables}

-- The names of this configuration are in upper case.
abbrev upper : String → String
upper name = name

abbrev config : Confdata
config = record {
  gw_configs =
      record { gw_key = "GW1"; exch_name = "EX1"; cancel_required_fields = [] }
      ∷ record { gw_key = "GW2"; exch_name = "EX2"; cancel_required_fields = [] }
      ∷ [];
  account_routes = (pos 100, record { gw_key = "GW1"; exch_account_id = "ACC" }) ∷ [];
  exch_name_to_gw_keys = ("EX1", "GW1" ∷ []) ∷ ("EX2", "GW2" ∷ []) ∷ [];
  refdata =
      record {
        instrument_id = "ETH-P/USDC@EX1";
        instrument_id_exchange = "ETH";
        exchange_name = "EX1";
        instrument_type = pos 2;
        base_asset = "ETH";
        quote_asset = "USDC";
        settlement_asset = "USDC";
        qty_precision = pos 3;
        price_precision = pos 2;
      }
      ∷ [];
  trading_configs =
      (
        "ETH-P/USDC@EX1",
        record {
          bookkeeping_balance = true;
          balance_check = true;
          use_margin = false;
          margin_ratio = pos 1000000000;
          max_order_size = none;
          publish_balance_on_trade = true;
          publish_balance_on_book = false;
          publish_balance_on_cancel = false;
        },
      )
      ∷ [];
}

-- The second gateway alone.
abbrev reduced : Confdata
reduced = record config {
  gw_configs = record { gw_key = "GW2"; exch_name = "EX2"; cancel_required_fields = [] } ∷ [];
}

rebuild_from_config-empty_tables_example :
    rebuild_from_config upper empty_tables config ≡ from_confdata upper config
rebuild_from_config-empty_tables_example = rebuild_from_config-empty_tables upper config
