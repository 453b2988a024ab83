-- ===== src/Intern/Examples.antt =====
-- A table of two instruments, and the laws at it.
use zkbot.Prelude.{◌≡◌, refl, arith, lookup, insert, length, ◌<◌, u32_mod, string_eq}
use zkbot.Intern.{InternTable, new, intern}
use zkbot.Intern.Laws.{IsInterned, new-IsInterned, intern-IsInterned}

btc : InternTable
btc = (intern new "BTC-USDT").0

btc-IsInterned : IsInterned btc
unfolding btc
btc-IsInterned = intern-IsInterned new "BTC-USDT" new-IsInterned (omega arith)

btc_room : length btc.strs_by_id < u32_mod
unfolding btc intern lookup
btc_room = omega arith

second_id : (intern btc "ETH-USDT").1 ≡ 1
unfolding btc intern lookup insert
second_id = refl
