-- ===== src/Subs/Keys.antt =====
-- `ChannelType`, `StreamKey` and `RtmdSubscriptionSpec` of rust/crates/zk-rtmd-rs/src/types.rs, with
-- the equality that the source derives.
use zkbot.Prelude.{
  ℕ, ◌==◌, ==_iff, ==_refl, HashKey, nat_eq, string_eq, ◌≡◌, refl, ap, subst, Bool, true, false,
  ◌&&◌, String, Option, none, some, arith,
}

pub data ChannelType : Type 0 where
  tick : ChannelType
  kline : String → ChannelType
  order_book : Option ℕ → ChannelType
  funding : ChannelType

pub record StreamKey : Type 0 where
  pub instrument_code : String
  pub channel : ChannelType

pub record SubscriptionSpec : Type 0 where
  pub stream_key : StreamKey
  pub instrument_exch : String
  pub venue : String

abbrev pub channel_beq : ChannelType → ChannelType → Bool
channel_beq tick tick = true
channel_beq (kline a) (kline b) = a == b
channel_beq (order_book none) (order_book none) = true
channel_beq (order_book (some a)) (order_book (some b)) = a == b
channel_beq funding funding = true
channel_beq _ _ = false

pub channel_refl : (a : ChannelType) → channel_beq a a ≡ true
channel_refl tick = refl
channel_refl (kline a) = ==_refl a
channel_refl (order_book none) = refl
channel_refl (order_book (some a)) = ==_refl a
channel_refl funding = refl

pub channel_true : (a b : ChannelType) → channel_beq a b ≡ true → a ≡ b
channel_true tick tick h = refl
channel_true (kline a) (kline b) h = ap (λ (x : String). kline x) ((==_iff a b).0 h)
channel_true (order_book none) (order_book none) h = refl
channel_true (order_book (some a)) (order_book (some b)) h =
    ap (λ (x : ℕ). order_book (some x)) ((==_iff a b).0 h)
channel_true funding funding h = refl
channel_true a b h = ground arith

instance abbrev pub channel_eq : HashKey ChannelType
channel_eq = record {
  is_same = channel_beq;
  is_same_iff =
      λ a b. (channel_true a b, λ e. subst (λ c. channel_beq a c ≡ true) e (channel_refl a));
}

abbrev pub stream_beq : StreamKey → StreamKey → Bool
stream_beq a b = a.instrument_code == b.instrument_code && a.channel == b.channel

pub stream_true : (a b : StreamKey) → stream_beq a b ≡ true → a ≡ b
stream_true a b h =
    let l : a.instrument_code ≡ b.instrument_code =
      (==_iff a.instrument_code b.instrument_code).0 (ground arith) in
    let r : a.channel ≡ b.channel = (==_iff a.channel b.channel).0 (ground arith) in
    λ i. record { instrument_code = l i; channel = r i }

pub stream_refl : (a : StreamKey) → stream_beq a a ≡ true
stream_refl a = ground (arith, ==_refl a.instrument_code, ==_refl a.channel)

instance abbrev pub stream_eq : HashKey StreamKey
stream_eq = record {
  is_same = stream_beq;
  is_same_iff = λ a b. (stream_true a b, λ e. subst (λ c. stream_beq a c ≡ true) e (stream_refl a));
}
