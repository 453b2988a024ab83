-- ===== src/Core/Restart.antt =====
-- One saved order, restored after another one.
use zkbot.Prelude.{pos, int_eq, refl, true, false, none, some, [], ◌∷◌, ◌++◌}
use zkbot.Orders.Types.{partially_filled}
use zkbot.Core.Types.{OmsCore}
use zkbot.Core.Messages.{new}
use zkbot.Metadata.Build.{empty_tables}
use zkbot.Core.Start.{OmsOrder, init_state}
use zkbot.Core.Recovery.{has_order, IsRestored, init_state-IsRestored}

abbrev saved : OmsOrder
saved = record {
  is_from_external = false;
  order_id = pos 42;
  account_id = pos 7;
  exch_order_ref = some "X-1";
  oms_req = none;
  gw_req = none;
  cancel_req = none;
  order_state = record {
    gw_key = "GW";
    instrument = "BTC-USDT";
    source_id = "desk";
    order_status = partially_filled;
    buy_sell_type = pos 1;
    open_close_type = pos 0;
    price = pos 100;
    qty = pos 5;
    filled_qty = pos 2;
    filled_avg_price = pos 99;
    snapshot_version = pos 3;
    created_at = pos 10;
    updated_at = pos 20;
    error_msg = "";
  };
  trades = [];
  acc_trades_filled_qty = pos 2;
  acc_trades_value = pos 198;
  order_inferred_trades = [];
  exec_msgs = [];
  fees = [];
  cancel_attempts = 0;
}

abbrev another : OmsOrder
another = record saved { order_id = pos 43 }

abbrev fresh : OmsCore
fresh = new empty_tables false true false 10

init_state-IsRestored_example :
    IsRestored saved (init_state fresh ((another ∷ []) ++ (saved ∷ another ∷ [])) [] []).orders
unfolding has_order
init_state-IsRestored_example =
    init_state-IsRestored fresh (another ∷ []) saved (another ∷ []) [] [] refl refl
