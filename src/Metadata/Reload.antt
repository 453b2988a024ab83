-- ===== src/Metadata/Reload.antt =====
-- The ids after a reload of the configuration, and the first load as a reload of empty tables.
use zkbot.Prelude.{
  ℕ, int_eq, nat_eq, pair_eq, string_eq, ◌==◌, ==_iff, ◌≡◌, refl, ◌∙◌, ap, ◌⊎◌, inl, inr, none,
  some, String, HashMap, lookup, insert, lookup-insert, Bool-cases, Option-cases, List, [], ◌∷◌,
  arith,
}
use zkbot.Intern
use zkbot.Intern.{InternTable, intern, lookup_id}
use zkbot.Metadata.{MetadataTables}
use zkbot.Metadata.Build.{
  GwConfig, RefData, Confdata, empty_tables, Gws, append_gw, build_gw, build_gws, rebuild_gw,
  rebuild_gws, build_routes, Assets, append_asset, ensure_asset, ensure_asset_stable, build_assets,
  rebuild_assets,
}
use zkbot.Metadata.Strings.{
  KeepsStrings, rebuild_gws-KeepsStrings, build_routes-KeepsStrings, rebuild_assets-KeepsStrings,
  rebuild_instruments-KeepsStrings, build_trading-KeepsStrings,
}
use zkbot.Metadata.Instruments.{
  Instruments, Draft, draft_of, index_instrument, append_instrument, build_instruments,
  rebuild_instrument, rebuild_instruments, from_confdata, rebuild_from_config,
}

rebuild_gws_empty : (s : Gws) (cfgs : List GwConfig) → rebuild_gws [] s cfgs ≡ build_gws s cfgs
unfolding rebuild_gws build_gws rebuild_gw build_gw lookup
rebuild_gws_empty s [] = refl
rebuild_gws_empty s (cfg ∷ cfgs) = rebuild_gws_empty (build_gw s cfg) cfgs

rebuild_assets_empty : (s : Assets) (rs : List RefData) → rebuild_assets [] s rs ≡ build_assets s rs
unfolding rebuild_assets build_assets ensure_asset_stable ensure_asset lookup
rebuild_assets_empty s [] = refl
rebuild_assets_empty s (r ∷ rs) =
    rebuild_assets_empty
      (ensure_asset (ensure_asset (ensure_asset s r.base_asset) r.quote_asset) r.settlement_asset)
      rs

module _ (upper : String → String) (config : Confdata)
    (gw_by_key asset_by_symbol : HashMap ℕ ℕ) where
  rebuild_instruments_empty :
      (s : Instruments) (rs : List RefData)
      → rebuild_instruments upper config gw_by_key asset_by_symbol [] s rs
        ≡ build_instruments upper config gw_by_key asset_by_symbol s rs
  unfolding rebuild_instruments build_instruments rebuild_instrument lookup
  rebuild_instruments_empty s [] = refl
  rebuild_instruments_empty s (r ∷ rs) =
      rebuild_instruments_empty
        (append_instrument upper config gw_by_key asset_by_symbol s
          (draft_of s.strings asset_by_symbol r) r)
        rs

-- The tables of the first load are those that a reload makes of empty tables.
pub rebuild_from_config-empty_tables :
    (upper : String → String) (config : Confdata)
    → rebuild_from_config upper empty_tables config ≡ from_confdata upper config
unfolding rebuild_from_config from_confdata
rebuild_from_config-empty_tables upper config =
    let no_gws : Gws = record { strings = Intern.new; gws = []; gw_by_key = [] } in
    let g = build_gws no_gws config.gw_configs in
    let strings = (build_routes g.gw_by_key g.strings [] config.account_routes).0 in
    let no_assets : Assets = record { strings = strings; assets = []; asset_by_symbol = [] } in
    let a = build_assets no_assets config.refdata in
    let no_instruments : Instruments = record {
      strings = a.strings;
      instruments = [];
      instrument_by_code = [];
      instrument_by_gw_symbol = [];
    } in
    rw
      (
        rebuild_gws_empty no_gws config.gw_configs,
        rebuild_assets_empty no_assets config.refdata,
        rebuild_instruments_empty upper config g.gw_by_key a.asset_by_symbol no_instruments
            config.refdata,
      )
      refl

-- What a map says of a key of the old map: what the old one said, or nothing.
abbrev pub KeepsIds : HashMap ℕ ℕ → HashMap ℕ ℕ → Type 0
KeepsIds old m =
    (sym id : ℕ) → lookup sym old ≡ some id → (lookup sym m ≡ none) ⊎ (lookup sym m ≡ some id)

insert-KeepsIds :
    (old m : HashMap ℕ ℕ) (key v : ℕ)
    → ((id : ℕ) → lookup key old ≡ some id → v ≡ id)
    → KeepsIds old m
    → KeepsIds old (insert key v m)
insert-KeepsIds old m key v agrees k s id e = elim (Bool-cases (key == s)) [
  | inl same ↦
      let at_key : lookup key old ≡ some id =
        ap (λ (x : ℕ). lookup x old) ((==_iff key s).0 same) ∙ e in
      inr (ground (arith, lookup-insert key s v m, same, agrees id at_key))
  | inr other ↦ ground (arith, lookup-insert key s v m, other, k s id e)
]

rebuild_gw-KeepsIds :
    (old : HashMap ℕ ℕ) (s : Gws) (cfg : GwConfig)
    → KeepsIds old s.gw_by_key
    → KeepsIds old (rebuild_gw old s cfg).gw_by_key
unfolding rebuild_gw append_gw
rebuild_gw-KeepsIds old s cfg k =
    let key_sym = (intern s.strings cfg.gw_key).1 in
    elim (Option-cases (lookup key_sym old)) [
      | inl e ↦
          rw (e, rebuild_gw)
            (insert-KeepsIds old s.gw_by_key key_sym _ (λ id h. ground (arith, e, h)) k)
      | inr (v, e) ↦
          rw (e, rebuild_gw)
            (insert-KeepsIds old s.gw_by_key key_sym v (λ id h. ground (arith, e, h)) k)
    ]

rebuild_gws-KeepsIds :
    (old : HashMap ℕ ℕ) (s : Gws) (cfgs : List GwConfig)
    → KeepsIds old s.gw_by_key
    → KeepsIds old (rebuild_gws old s cfgs).gw_by_key
unfolding rebuild_gws
rebuild_gws-KeepsIds old s [] k = k
rebuild_gws-KeepsIds old s (cfg ∷ cfgs) k =
    rebuild_gws-KeepsIds old (rebuild_gw old s cfg) cfgs (rebuild_gw-KeepsIds old s cfg k)

ensure_asset_stable-KeepsIds :
    (old : HashMap ℕ ℕ) (s : Assets) (name : String)
    → KeepsIds old s.asset_by_symbol
    → KeepsIds old (ensure_asset_stable old s name).asset_by_symbol
unfolding ensure_asset_stable append_asset
ensure_asset_stable-KeepsIds old s name k = elim (Bool-cases (name == "")) [
  | inl blank ↦ rw blank k
  | inr named ↦
      let key = (intern s.strings name).1 in
      elim (Option-cases (lookup key s.asset_by_symbol)) [
        | inr (id, met) ↦ rw (named, met, ensure_asset_stable) k
        | inl unmet ↦ elim (Option-cases (lookup key old)) [
          | inl e ↦
              rw (named, unmet, e, ensure_asset_stable)
                (insert-KeepsIds old s.asset_by_symbol key _ (λ id h. ground (arith, e, h)) k)
          | inr (v, e) ↦
              rw (named, unmet, e, ensure_asset_stable)
                (insert-KeepsIds old s.asset_by_symbol key v (λ id h. ground (arith, e, h)) k)
        ]
      ]
]

rebuild_assets-KeepsIds :
    (old : HashMap ℕ ℕ) (s : Assets) (rs : List RefData)
    → KeepsIds old s.asset_by_symbol
    → KeepsIds old (rebuild_assets old s rs).asset_by_symbol
unfolding rebuild_assets
rebuild_assets-KeepsIds old s [] k = k
rebuild_assets-KeepsIds old s (r ∷ rs) k =
    let s1 = ensure_asset_stable old s r.base_asset in
    let s2 = ensure_asset_stable old s1 r.quote_asset in
    rebuild_assets-KeepsIds old (ensure_asset_stable old s2 r.settlement_asset) rs (
      ensure_asset_stable-KeepsIds old s2 r.settlement_asset (
        ensure_asset_stable-KeepsIds old s1 r.quote_asset
          (ensure_asset_stable-KeepsIds old s r.base_asset k)))

module _ (upper : String → String) (config : Confdata) (gw_by_key asset_by_symbol : HashMap ℕ ℕ)
    (old : HashMap ℕ ℕ) where
  rebuild_instrument-KeepsIds :
      (s : Instruments) (d : Draft) (r : RefData)
      → KeepsIds old s.instrument_by_code
      → KeepsIds old
          (rebuild_instrument upper config gw_by_key asset_by_symbol old s d r).instrument_by_code
  unfolding rebuild_instrument append_instrument index_instrument
  rebuild_instrument-KeepsIds s d r k = elim (Option-cases (lookup d.code_sym old)) [
    | inl e ↦
        rw (e, rebuild_instrument)
          (insert-KeepsIds old s.instrument_by_code d.code_sym _ (λ id h. ground (arith, e, h)) k)
    | inr (v, e) ↦
        rw (e, rebuild_instrument)
          (insert-KeepsIds old s.instrument_by_code d.code_sym v (λ id h. ground (arith, e, h)) k)
  ]

  rebuild_instruments-KeepsIds :
      (s : Instruments) (rs : List RefData)
      → KeepsIds old s.instrument_by_code
      → KeepsIds old
          (rebuild_instruments upper config gw_by_key asset_by_symbol old s rs).instrument_by_code
  unfolding rebuild_instruments
  rebuild_instruments-KeepsIds s [] k = k
  rebuild_instruments-KeepsIds s (r ∷ rs) k =
      rebuild_instruments-KeepsIds
        (rebuild_instrument upper config gw_by_key asset_by_symbol old s
          (draft_of s.strings asset_by_symbol r) r)
        rs (rebuild_instrument-KeepsIds s (draft_of s.strings asset_by_symbol r) r k)

rebuild_from_config_strings :
    (upper : String → String) (m : MetadataTables) (config : Confdata)
    → KeepsStrings m.strings (rebuild_from_config upper m config).strings
unfolding rebuild_from_config
rebuild_from_config_strings upper m config =
    let base = m.strings in
    let no_gws : Gws = record { strings = base; gws = m.gws; gw_by_key = [] } in
    let g = rebuild_gws m.gw_by_key no_gws config.gw_configs in
    let routes = build_routes g.gw_by_key g.strings [] config.account_routes in
    let no_assets : Assets = record {
      strings = routes.0;
      assets = m.assets;
      asset_by_symbol = [];
    } in
    let a = rebuild_assets m.asset_by_symbol no_assets config.refdata in
    let no_instruments : Instruments = record {
      strings = a.strings;
      instruments = m.instruments;
      instrument_by_code = [];
      instrument_by_gw_symbol = [];
    } in
    let i =
      rebuild_instruments upper config g.gw_by_key a.asset_by_symbol m.instrument_by_code
        no_instruments config.refdata in
    build_trading-KeepsStrings base i.instrument_by_code i.strings [] config.trading_configs (
      rebuild_instruments-KeepsStrings base upper config g.gw_by_key a.asset_by_symbol
        m.instrument_by_code no_instruments config.refdata
        (rebuild_assets-KeepsStrings base m.asset_by_symbol no_assets config.refdata (
          build_routes-KeepsStrings base g.gw_by_key g.strings [] config.account_routes
            (rebuild_gws-KeepsStrings base m.gw_by_key no_gws config.gw_configs (λ u id h. h)))))

-- A reload never gives another id to a gateway, an asset or an instrument: a symbol that had an id
-- has the same id after it, or none. And every string that was interned keeps its symbol.
rebuild_from_config-KeepsIds :
    (upper : String → String) (m : MetadataTables) (config : Confdata)
    → let reloaded = rebuild_from_config upper m config in
      KeepsIds m.gw_by_key reloaded.gw_by_key
      × KeepsIds m.asset_by_symbol reloaded.asset_by_symbol
      × KeepsIds m.instrument_by_code reloaded.instrument_by_code
      × KeepsStrings m.strings reloaded.strings
unfolding rebuild_from_config lookup
rebuild_from_config-KeepsIds upper m config = (
  rebuild_gws-KeepsIds m.gw_by_key _ config.gw_configs (λ s id e. inl refl),
  rebuild_assets-KeepsIds m.asset_by_symbol _ config.refdata (λ s id e. inl refl),
  rebuild_instruments-KeepsIds upper config _ _ m.instrument_by_code _ config.refdata
      (λ s id e. inl refl),
  rebuild_from_config_strings upper m config,
)
