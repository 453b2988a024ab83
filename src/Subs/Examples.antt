-- ===== src/Subs/Examples.antt =====
-- Two leases for one stream, run through the theorems.
use zkbot.Prelude.{pos, ◌≡◌, Bool, true, false, ◌||◌, contains, ltb, List, [], ◌∷◌}
use zkbot.Subs.Keys.{StreamKey, stream_eq, tick}
use zkbot.Subs.{Lease, stream_key, InterestChange, added, removed, refcount, reconcile_on_start}
use zkbot.Subs.Upstream.{after_calls, watch, watch_synced}
use zkbot.Subs.Startup.{reconcile_on_start_synced}

abbrev lease : Lease
lease = record {
  subscriber_id = "s";
  subscription_id = "1";
  instrument_code = "BTC";
  channel = tick;
  instrument_exch = "BTCUSDT";
  venue = "simulator";
  lease_expiry_ms = pos 0;
}

abbrev key : StreamKey
key = stream_key lease

abbrev changes : List (InterestChange × Bool)
changes =
    (added lease, true) ∷ (added lease, true) ∷ (removed key, true) ∷ (removed key, false) ∷ []

watch_synced_example :
    contains key (watch ([], []) changes).1 ≡ ltb 0 (refcount (watch ([], []) changes).0 key)
watch_synced_example = watch_synced changes key

reconcile_on_start_synced_example :
    let (state, calls) = reconcile_on_start [] [] (lease ∷ lease ∷ []) in
    contains key (after_calls true calls []) ≡ (contains key [] || ltb 0 (refcount state key))
reconcile_on_start_synced_example = reconcile_on_start_synced [] (lease ∷ lease ∷ []) key
