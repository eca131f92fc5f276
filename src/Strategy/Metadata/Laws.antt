-- ===== src/Strategy/Metadata/Laws.antt =====
-- The metadata of a strategy that StrategyMetadata.ValidateBasic accepts.
use flux_sdk_go.Common.{
  ℕ, ◌≡◌, refl, sym, ◌≢◌, ◌↔◌, ◌⊎◌, inl, inr, Bool, true, false, not, Option, none, some, List, [],
  ◌∷◌, ok, >>-eq-ok, or_err-eq-ok, reject_if, Bytes, All, length, ◌==◌, if◌then◌else◌, Bool-cases,
  some-injective, arith,
}
use mathlib.Core.Path.{subst}
use flux_sdk_go.Strategy.Address.{Codec}
use flux_sdk_go.Strategy.Metadata.Parts.{
  IsGroup, check_groups_iff, IsGasPrice, check_gas_price_iff, AsksEvents, check_query_iff,
  check_verified_iff,
}
use flux_sdk_go.Strategy.Metadata.Apps.{App, AreRead, AreNew, check_apps_iff}
use flux_sdk_go.Strategy.Metadata.{
  invalid_input, invalid_schema, StrategyType, strategy, intent_solver, cron, unknown_type,
  SupportedApp, SchemaGroup, StrategyMetadata, Query, check_gas_price, check_query, check_verified,
  validate_schema, check_apps, check_type, validate_metadata,
}

module _ (codec : Codec) (parse_schema : Bytes → Option (List (Option SchemaGroup)))
    (is_json : Bytes → Bool) where
  -- No schema, or one that encoding/json reads and whose groups pass.
  abbrev pub IsSchema : Bytes → Type 0
  IsSchema s =
      (s ≡ [])
      ⊎ ((gs : List (Option SchemaGroup)) × (parse_schema s ≡ some gs)
          × All (IsGroup (length gs)) gs)

  validate_schema_iff_given :
      (s : Bytes) → s ≢ [] → (validate_schema parse_schema s ≡ ok tt) ↔ IsSchema s
  unfolding validate_schema
  validate_schema_iff_given [] n = absurd (n refl)
  validate_schema_iff_given (c ∷ s) n = (
    λ e.
        let (gs, parsed, e₁) = or_err-eq-ok (parse_schema (c ∷ s)) invalid_schema _ e in
        inr (gs, parsed, (check_groups_iff (length gs) gs).0 e₁),
    λ h. elim h [
      | inl e ↦ cc
      | inr (gs, parsed, all) ↦ rw parsed ((check_groups_iff (length gs) gs).1 all)
    ],
  )

  validate_schema_iff : (s : Bytes) → (validate_schema parse_schema s ≡ ok tt) ↔ IsSchema s
  unfolding validate_schema
  validate_schema_iff [] = (λ e. inl refl, λ h. refl)
  validate_schema_iff (c ∷ s) = validate_schema_iff_given (c ∷ s) (λ p. cc)

  -- What each type of strategy needs: an intent solver a schema, and a bot a gas price, an input that is JSON,
  -- and, without an interval, a query that asks for events.
  abbrev pub FitsType : StrategyMetadata → Option Query → StrategyType → Type 0
  FitsType m query strategy = Unit {0}
  FitsType m query intent_solver = IsSchema m.schema
  FitsType m query cron =
      IsGasPrice m.cron_gas_price
      × (is_json m.cron_input ≡ true)
      × (m.cron_interval ≡ 0 → AsksEvents query)
  FitsType m query (unknown_type n) = ⊥

  interval_iff :
      (n : ℕ) (query : Option Query)
      → ((if n == 0 then check_query query else ok tt) ≡ ok tt) ↔ (n ≡ 0 → AsksEvents query)
  interval_iff n query =
      let asks = check_query_iff query in
      elim (Bool-cases (n == 0)) [
        | inl z ↦ (λ e p. asks.0 (rw z at e), λ h. rw z (asks.1 (h (ground arith))))
        | inr z ↦ (λ e p. absurd (ground arith), λ h. rw z refl)
      ]

  check_type_iff :
      (m : StrategyMetadata) (query : Option Query) (t : StrategyType)
      → (check_type codec parse_schema is_json m query t ≡ ok tt) ↔ FitsType m query t
  unfolding check_type
  check_type_iff m query strategy = (λ e. tt, λ h. refl)
  check_type_iff m query intent_solver = validate_schema_iff m.schema
  check_type_iff m query cron =
      let price = check_gas_price_iff m.cron_gas_price in
      let interval = interval_iff m.cron_interval query in
      (
        λ e.
            let (e₁, r₁) = >>-eq-ok (check_gas_price m.cron_gas_price) _ e in
            let (e₂, e₃) = >>-eq-ok (reject_if (not (is_json m.cron_input)) invalid_input) _ r₁ in
            (price.0 e₁, ground arith, interval.0 e₃),
        λ (p, j, i). rw (price.1 p, j) (interval.1 i),
      )
  check_type_iff m query (unknown_type n) = (λ e. cc, λ h. absurd h)

  -- What the metadata of a strategy are.
  abbrev pub IsMetadata : StrategyMetadata → Option Query → Bool → Type 0
  IsMetadata m query unverified =
      ((ks : List App) × AreRead codec m.supported_apps ks × AreNew [] ks)
      × ((unverified ≡ true → All (λ a. a.verified ≡ false) m.supported_apps)
          × FitsType m query m.typ)

  -- StrategyMetadata.ValidateBasic accepts exactly metadata that are there, whose supported apps all have an address
  -- of their plane and are different contracts, none verified yet where that is asked for, and that have what
  -- their type needs: an intent solver no schema, or one whose groups are there, each named if there are
  -- several, and whose prompts pass; a bot a gas
  -- price of 500 million at least, an input that is JSON and, without an interval, a query for events. Where a
  -- pointer or the gas price is nil it does not.
  pub validate_metadata_iff :
      (o : Option StrategyMetadata) (query : Option Query) (unverified : Bool)
      → (validate_metadata codec parse_schema is_json o query unverified ≡ ok tt)
        ↔ ((m : StrategyMetadata) × (o ≡ some m) × IsMetadata m query unverified)
  unfolding validate_metadata
  validate_metadata_iff none query unverified = (λ e. cc, λ h. cc (h.1))
  validate_metadata_iff (some m) query unverified = (
    λ e.
        let (e₁, r₁) = >>-eq-ok (check_apps codec [] m.supported_apps) _ e in
        let (e₂, e₃) =
          >>-eq-ok (if unverified then check_verified m.supported_apps else ok tt) _ r₁ in
        (
          m,
          refl,
          (
            (check_apps_iff codec m.supported_apps [] tt).0 e₁,
            ((verified_iff unverified m.supported_apps).0 e₂, (check_type_iff m query m.typ).0 e₃),
          ),
        ),
    λ (m', same, h).
        let (apps, (verified, fits)) =
          subst (λ (x : StrategyMetadata). IsMetadata x query unverified)
            (sym (some-injective same)) h in
        rw
          (
            (check_apps_iff codec m.supported_apps [] tt).1 apps,
            (verified_iff unverified m.supported_apps).1 verified,
          )
          ((check_type_iff m query m.typ).1 fits),
  )
    where
      verified_iff :
          (b : Bool) (apps : List SupportedApp)
          → ((if b then check_verified apps else ok tt) ≡ ok tt)
            ↔ (b ≡ true → All (λ a. a.verified ≡ false) apps)
      verified_iff true apps =
          let all = check_verified_iff apps in (λ e p. all.0 e, λ h. all.1 (h refl))
      verified_iff false apps = (λ e p. cc, λ h. refl)
