-- ===== src/Metadata/Strings.antt =====
-- A build of the tables only ever adds strings to the intern table.
use zkbot.Prelude.{
  ℕ, ◌%◌, u32_mod, ℤ, int_eq, nat_eq, pair_eq, string_eq, ◌==◌, ==_iff, ◌≡◌, inl, inr, some, String,
  HashMap, lookup, lookup-insert, Bool-cases, Option-cases, List, [], ◌∷◌, length, arith,
}
use zkbot.Intern.{InternTable, intern, lookup_id}
use zkbot.Metadata.{RouteMeta, TradingMeta}
use zkbot.Metadata.Build.{
  GwConfig, RouteConfig, RefData, TradingConfig, Confdata, Gws, append_gw, rebuild_gw, rebuild_gws,
  route_step, build_routes, Assets, append_asset, ensure_asset_stable, rebuild_assets, next_id,
}
use zkbot.Metadata.Instruments.{
  Instruments, Draft, asset_ref, draft_of, index_gws, index_instrument, append_instrument,
  rebuild_instrument, rebuild_instruments, build_trading, gw_keys_of,
}

-- Every string keeps its id.
abbrev pub KeepsStrings : InternTable → InternTable → Type 0
KeepsStrings t u =
    (text : String) (id : ℕ) → lookup_id t text ≡ some id → lookup_id u text ≡ some id

pub intern-KeepsStrings :
    (s t : InternTable) (text : String) → KeepsStrings s t → KeepsStrings s (intern t text).0
unfolding intern lookup_id
intern-KeepsStrings s t text k u id h = elim (Option-cases (lookup text t.ids_by_str)) [
  | inr (x, e) ↦ rw (e, intern) (k u id h)
  | inl e ↦
      rw (e, intern)
        (ground (
          arith,
          lookup-insert text u (length t.strs_by_id % u32_mod) t.ids_by_str,
          ==_iff text u,
          k u id h,
          e,
        ))
]

module _ (base : InternTable) where
  rebuild_gw-KeepsStrings :
      (old : HashMap ℕ ℕ) (s : Gws) (cfg : GwConfig)
      → KeepsStrings base s.strings
      → KeepsStrings base (rebuild_gw old s cfg).strings
  unfolding rebuild_gw append_gw
  rebuild_gw-KeepsStrings old s cfg k =
      let named = intern-KeepsStrings base s.strings cfg.gw_key k in
      let both = intern-KeepsStrings base (intern s.strings cfg.gw_key).0 cfg.exch_name named in
      elim (Option-cases (lookup (intern s.strings cfg.gw_key).1 old)) [
        | inl e ↦ rw (e, rebuild_gw) both
        | inr (v, e) ↦ rw (e, rebuild_gw) both
      ]

  pub rebuild_gws-KeepsStrings :
      (old : HashMap ℕ ℕ) (s : Gws) (cfgs : List GwConfig)
      → KeepsStrings base s.strings
      → KeepsStrings base (rebuild_gws old s cfgs).strings
  unfolding rebuild_gws
  rebuild_gws-KeepsStrings old s [] k = k
  rebuild_gws-KeepsStrings old s (cfg ∷ cfgs) k =
      rebuild_gws-KeepsStrings old (rebuild_gw old s cfg) cfgs (rebuild_gw-KeepsStrings old s cfg k)

  route_step-KeepsStrings :
      (by_key : HashMap ℕ ℕ) (t : InternTable) (routes : HashMap ℤ RouteMeta) (account_id : ℤ)
      (cfg : RouteConfig)
      → KeepsStrings base t
      → KeepsStrings base (route_step by_key t routes account_id cfg).0
  unfolding route_step
  route_step-KeepsStrings by_key t routes account_id cfg k =
      let named = intern-KeepsStrings base t cfg.gw_key k in
      elim (Option-cases (lookup (intern t cfg.gw_key).1 by_key)) [
        | inl e ↦ rw (e, route_step) named
        | inr (v, e) ↦
            rw (e, route_step)
              (intern-KeepsStrings base (intern t cfg.gw_key).0 cfg.exch_account_id named)
      ]

  pub build_routes-KeepsStrings :
      (by_key : HashMap ℕ ℕ) (t : InternTable) (routes : HashMap ℤ RouteMeta)
      (cfgs : HashMap ℤ RouteConfig)
      → KeepsStrings base t
      → KeepsStrings base (build_routes by_key t routes cfgs).0
  unfolding build_routes
  build_routes-KeepsStrings by_key t routes [] k = k
  build_routes-KeepsStrings by_key t routes ((account_id, cfg) ∷ cfgs) k =
      let (t1, routes1) = route_step by_key t routes account_id cfg in
      build_routes-KeepsStrings by_key t1 routes1 cfgs
        (route_step-KeepsStrings by_key t routes account_id cfg k)

  ensure_asset_stable-KeepsStrings :
      (old : HashMap ℕ ℕ) (s : Assets) (name : String)
      → KeepsStrings base s.strings
      → KeepsStrings base (ensure_asset_stable old s name).strings
  unfolding ensure_asset_stable append_asset
  ensure_asset_stable-KeepsStrings old s name k = elim (Bool-cases (name == "")) [
    | inl blank ↦ rw blank k
    | inr named ↦
        let t = intern-KeepsStrings base s.strings name k in
        let key = (intern s.strings name).1 in
        elim (Option-cases (lookup key s.asset_by_symbol)) [
          | inr (id, met) ↦ rw (named, met, ensure_asset_stable) t
          | inl unmet ↦ elim (Option-cases (lookup key old)) [
            | inl e ↦ rw (named, unmet, e, ensure_asset_stable) t
            | inr (v, e) ↦ rw (named, unmet, e, ensure_asset_stable) t
          ]
        ]
  ]

  pub rebuild_assets-KeepsStrings :
      (old : HashMap ℕ ℕ) (s : Assets) (rs : List RefData)
      → KeepsStrings base s.strings
      → KeepsStrings base (rebuild_assets old s rs).strings
  unfolding rebuild_assets
  rebuild_assets-KeepsStrings old s [] k = k
  rebuild_assets-KeepsStrings old s (r ∷ rs) k =
      let s1 = ensure_asset_stable old s r.base_asset in
      let s2 = ensure_asset_stable old s1 r.quote_asset in
      rebuild_assets-KeepsStrings old (ensure_asset_stable old s2 r.settlement_asset) rs (
        ensure_asset_stable-KeepsStrings old s2 r.settlement_asset (
          ensure_asset_stable-KeepsStrings old s1 r.quote_asset
            (ensure_asset_stable-KeepsStrings old s r.base_asset k)))

  asset_ref-KeepsStrings :
      (t : InternTable) (by_symbol : HashMap ℕ ℕ) (name : String)
      → KeepsStrings base t
      → KeepsStrings base (asset_ref t by_symbol name).0
  unfolding asset_ref
  asset_ref-KeepsStrings t by_symbol name k = elim (Bool-cases (name == "")) [
    | inl blank ↦ rw blank k
    | inr named ↦ rw named (intern-KeepsStrings base t name k)
  ]

  draft_of-KeepsStrings :
      (t : InternTable) (by_symbol : HashMap ℕ ℕ) (r : RefData)
      → KeepsStrings base t
      → KeepsStrings base (draft_of t by_symbol r).strings
  unfolding draft_of
  draft_of-KeepsStrings t by_symbol r k = asset_ref-KeepsStrings _ by_symbol r.settlement_asset (
      asset_ref-KeepsStrings _ by_symbol r.quote_asset (
        asset_ref-KeepsStrings _ by_symbol r.base_asset (
          intern-KeepsStrings base _ r.instrument_id_exchange
            (intern-KeepsStrings base t r.instrument_id k))))

  index_gws-KeepsStrings :
      (by_key : HashMap ℕ ℕ) (exch_sym inst_id : ℕ) (t : InternTable) (m : HashMap (ℕ × ℕ) ℕ)
      (gw_keys : List String)
      → KeepsStrings base t
      → KeepsStrings base (index_gws by_key exch_sym inst_id t m gw_keys).0
  unfolding index_gws
  index_gws-KeepsStrings by_key exch_sym inst_id t m [] k = k
  index_gws-KeepsStrings by_key exch_sym inst_id t m (gw_key ∷ gw_keys) k =
      index_gws-KeepsStrings by_key exch_sym inst_id (intern t gw_key).0 _ gw_keys
        (intern-KeepsStrings base t gw_key k)

  module _ (upper : String → String) (config : Confdata) (by_key by_symbol old : HashMap ℕ ℕ) where
    rebuild_instrument-KeepsStrings :
        (s : Instruments) (d : Draft) (r : RefData)
        → KeepsStrings base d.strings
        → KeepsStrings base (rebuild_instrument upper config by_key by_symbol old s d r).strings
    unfolding rebuild_instrument append_instrument index_instrument
    rebuild_instrument-KeepsStrings s d r k = elim (Option-cases (lookup d.code_sym old)) [
      | inl e ↦
          rw (e, rebuild_instrument)
            (index_gws-KeepsStrings by_key d.exch_sym (next_id s.instruments) d.strings
              s.instrument_by_gw_symbol (gw_keys_of upper config by_key by_symbol r) k)
      | inr (v, e) ↦
          rw (e, rebuild_instrument)
            (index_gws-KeepsStrings by_key d.exch_sym v d.strings s.instrument_by_gw_symbol
              (gw_keys_of upper config by_key by_symbol r) k)
    ]

    pub rebuild_instruments-KeepsStrings :
        (s : Instruments) (rs : List RefData)
        → KeepsStrings base s.strings
        → KeepsStrings base (rebuild_instruments upper config by_key by_symbol old s rs).strings
    unfolding rebuild_instruments
    rebuild_instruments-KeepsStrings s [] k = k
    rebuild_instruments-KeepsStrings s (r ∷ rs) k =
        let d = draft_of s.strings by_symbol r in
        rebuild_instruments-KeepsStrings
          (rebuild_instrument upper config by_key by_symbol old s d r) rs
          (rebuild_instrument-KeepsStrings s d r (draft_of-KeepsStrings s.strings by_symbol r k))

  pub build_trading-KeepsStrings :
      (by_code : HashMap ℕ ℕ) (t : InternTable) (m : HashMap ℕ TradingMeta)
      (tcs : HashMap String TradingConfig)
      → KeepsStrings base t
      → KeepsStrings base (build_trading by_code t m tcs).0
  unfolding build_trading
  build_trading-KeepsStrings by_code t m [] k = k
  build_trading-KeepsStrings by_code t m ((code, tc) ∷ tcs) k =
      build_trading-KeepsStrings by_code (intern t code).0 _ tcs (intern-KeepsStrings base t code k)
